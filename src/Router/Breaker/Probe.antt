-- ===== src/Router/Breaker/Probe.antt =====
-- The one probe of an open breaker (internal/router/breaker.go).
use proofgate.Base.{ℕ, ◌≤◌, ◌≡◌, ◌≢◌, true, false, List, [], ◌∷◌, arith}
use proofgate.Router.Breaker.{
  Target, Breakers, allow, success, failure, open_for, closed, half_open, state,
}
use proofgate.Router.Breaker.Laws.{
  target_eq_iff, target_eq_refl, Call, allows, succeeds, fails, opens_for, step, run, subject,
  step_isolated,
}

-- The calls in which nobody reports on the target: `Allow` on it, and any call on the others.
abbrev pub Unreported : Target → List (ℕ × Call) → Type 0
Unreported t [] = Unit
Unreported t ((now, allows u) ∷ cs) = Unreported t cs
Unreported t ((now, succeeds u) ∷ cs) = (u ≢ t) × Unreported t cs
Unreported t ((now, fails u) ∷ cs) = (u ≢ t) × Unreported t cs
Unreported t ((now, opens_for u d) ∷ cs) = (u ≢ t) × Unreported t cs

record Probing (b : Breakers) (t : Target) : Type 0 where
  was_open : (b.states t).open_until ≢ 0
  runs : (b.states t).probing ≡ true

allow-Probing : (now : ℕ) (b : Breakers) (t u : Target) → Probing b t → Probing (allow now b u).1 t
unfolding allow
allow-Probing now b t u v = record {
  was_open = ground (arith, v.was_open, v.runs, target_eq_iff u t);
  runs = ground (arith, v.was_open, v.runs, target_eq_iff u t);
}

elsewhere-Probing :
    (b : Breakers) (now : ℕ) (c : Call) (t : Target)
    → subject c ≢ t
    → Probing b t
    → Probing (step b (now, c)) t
elsewhere-Probing b now c t h v =
    let same = step_isolated b now c t h in
    record { was_open = rw same v.was_open; runs = rw same v.runs }

run-Probing :
    (b : Breakers) (t : Target) (cs : List (ℕ × Call))
    → Unreported t cs
    → Probing b t
    → Probing (run b cs) t
unfolding run step
run-Probing b t [] h v = v
run-Probing b t ((now, allows u) ∷ cs) h v =
    run-Probing (allow now b u).1 t cs h (allow-Probing now b t u v)
run-Probing b t ((now, succeeds u) ∷ cs) h v =
    run-Probing (success b u) t cs h.1 (elsewhere-Probing b now (succeeds u) t h.0 v)
run-Probing b t ((now, fails u) ∷ cs) h v =
    run-Probing (failure now b u) t cs h.1 (elsewhere-Probing b now (fails u) t h.0 v)
run-Probing b t ((now, opens_for u d) ∷ cs) h v =
    run-Probing (open_for now b u d) t cs h.1 (elsewhere-Probing b now (opens_for u d) t h.0 v)

Probing-refuses :
    (now : ℕ) (b : Breakers) (t : Target)
    → Probing b t
    → ((allow now b t).0 ≡ false) × (state now b t ≡ half_open)
unfolding allow state
Probing-refuses now b t v = ground (arith, v.was_open, v.runs)

admitted-Probing :
    (now : ℕ) (b : Breakers) (t : Target)
    → state now b t ≢ closed
    → (allow now b t).0 ≡ true
    → ((b.states t).open_until ≤ now) × Probing (allow now b t).1 t
unfolding allow state
admitted-Probing now b t h e = (
  ground (arith, target_eq_refl t),
  record { was_open = ground (arith, target_eq_refl t); runs = ground (arith, target_eq_refl t) },
)

-- A call that `Allow` admits on a breaker that is not closed is the one probe. It is admitted at or
-- after the end of the open period. Behind it come any calls on any targets at any times, among which
-- no `Success`, `Failure` or `OpenFor` is about this target, whether from the probe or from a call
-- that was admitted earlier: then every `Allow` on the target is refused and its state reads
-- half-open.
pub allow_single_probe :
    (now later : ℕ) (b : Breakers) (t : Target) (cs : List (ℕ × Call))
    → state now b t ≢ closed
    → (allow now b t).0 ≡ true
    → Unreported t cs
    → let b' = run (allow now b t).1 cs in
      ((b.states t).open_until ≤ now)
      × ((allow later b' t).0 ≡ false)
      × (state later b' t ≡ half_open)
allow_single_probe now later b t cs h e u =
    let (since, v) = admitted-Probing now b t h e in
    let ends =
      Probing-refuses later (run (allow now b t).1 cs) t (run-Probing (allow now b t).1 t cs u v) in
    (since, ends.0, ends.1)
