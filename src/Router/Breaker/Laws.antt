-- ===== src/Router/Breaker/Laws.antt =====
-- The circuit breaker's state machine (internal/router/breaker.go).
use proofgate.Base.{
  ℕ, ◌+◌, ◌≤◌, ◌<◌, ◌≡◌, ◌≢◌, refl, true, false, not, List, [], ◌∷◌, arith, length, ◌↔◌,
}
use proofgate.Base.Bytes.{str_eq_iff}
use proofgate.Router.Breaker.{
  Target, target_eq, BreakerState, Breakers, new_breakers, allow, success, failure, open_for,
  closed, state, is_open,
}

pub target_eq_iff : (a b : Target) → (target_eq a b ≡ true) ↔ (a ≡ b)
unfolding target_eq
target_eq_iff a b = (
  λ h. ground (arith, str_eq_iff a.provider b.provider, str_eq_iff a.model b.model),
  λ h. ground (arith, str_eq_iff a.provider b.provider, str_eq_iff a.model b.model),
)

pub target_eq_refl : (t : Target) → target_eq t t ≡ true
target_eq_refl t = (target_eq_iff t t).1 refl

-- The planner's `open` and the executor's `Allow` agree at every instant: a target is
-- deprioritised exactly when a call to it would be refused.
pub is_open-allow : (now : ℕ) (b : Breakers) (t : Target) → is_open now b t ≡ not (allow now b t).0
unfolding is_open allow
is_open-allow now b t = ground arith

-- What one breaker satisfies between two calls: a probe runs only on an open breaker, and a closed
-- one has fewer failures than the threshold.
pub record IsConsistent (threshold : ℕ) (s : BreakerState) : Type 0 where
  pub probe_open : s.probing ≡ true → s.open_until ≢ 0
  pub closed_below : s.open_until ≡ 0 → s.failures < threshold

pub data Call : Type 0 where
  allows : Target → Call
  succeeds : Target → Call
  fails : Target → Call
  opens_for : Target → ℕ → Call

unfoldable pub step : Breakers → ℕ × Call → Breakers
step b (now, allows t) = (allow now b t).1
step b (now, succeeds t) = success b t
step b (now, fails t) = failure now b t
step b (now, opens_for t d) = open_for now b t d

unfoldable pub run : Breakers → List (ℕ × Call) → Breakers
run b [] = b
run b (c ∷ cs) = run (step b c) cs

-- Clocks that have left the zero time.
abbrev pub Ticking : List (ℕ × Call) → Type 0
Ticking [] = Unit
Ticking (c ∷ cs) = (0 < c.0) × Ticking cs

record Inv (b : Breakers) : Type 0 where
  positive : 0 < b.threshold
  each : (u : Target) → IsConsistent b.threshold (b.states u)

allow-Inv : (now : ℕ) (b : Breakers) (t : Target) → Inv b → Inv (allow now b t).1
unfolding allow
allow-Inv now b t v = record {
  positive = ground (arith, v.positive);
  each = λ u. ground (arith, v.each t, v.each u, target_eq_iff t u);
}

success-Inv : (b : Breakers) (t : Target) → Inv b → Inv (success b t)
unfolding success
success-Inv b t v = record {
  positive = v.positive;
  each = λ u. ground (arith, v.positive, v.each u);
}

failure-Inv : (now : ℕ) (b : Breakers) (t : Target) → 0 < now → Inv b → Inv (failure now b t)
unfolding failure
failure-Inv now b t p v = record {
  positive = v.positive;
  each = λ u. ground (arith, v.each t, v.each u);
}

open_for-Inv : (now : ℕ) (b : Breakers) (t : Target) (d : ℕ) → Inv b → Inv (open_for now b t d)
unfolding open_for
open_for-Inv now b t d v = record {
  positive = ground (arith, v.positive);
  each = λ u. ground (arith, v.each t, v.each u);
}

step-Inv : (b : Breakers) (c : ℕ × Call) → 0 < c.0 → Inv b → Inv (step b c)
unfolding step
step-Inv b (now, allows t) p v = allow-Inv now b t v
step-Inv b (now, succeeds t) p v = success-Inv b t v
step-Inv b (now, fails t) p v = failure-Inv now b t p v
step-Inv b (now, opens_for t d) p v = open_for-Inv now b t d v

run-Inv : (b : Breakers) (cs : List (ℕ × Call)) → Ticking cs → Inv b → Inv (run b cs)
unfolding run
run-Inv b [] p v = v
run-Inv b (c ∷ cs) p v = run-Inv (step b c) cs p.1 (step-Inv b c p.0 v)

new-Inv : (threshold d : ℕ) → 0 < threshold → Inv (new_breakers threshold d)
unfolding new_breakers
new-Inv threshold d p = record { positive = p; each = λ u. ground arith }

-- After any calls on any targets, in any order and at any positive times, every breaker made with a
-- positive threshold is consistent: no closed breaker has reached the threshold, and no probe runs
-- on a closed one.
pub run-IsConsistent :
    (threshold d : ℕ) (cs : List (ℕ × Call)) (u : Target)
    → 0 < threshold
    → Ticking cs
    → IsConsistent
        (run (new_breakers threshold d) cs).threshold
        ((run (new_breakers threshold d) cs).states u)
run-IsConsistent threshold d cs u p q =
    (run-Inv (new_breakers threshold d) cs q (new-Inv threshold d p)).each u

-- The target that a call is about.
abbrev pub subject : Call → Target
subject (allows t) = t
subject (succeeds t) = t
subject (fails t) = t
subject (opens_for t d) = t

-- Targets fail independently: a call about one target leaves the state of every other as it was.
pub step_isolated :
    (b : Breakers) (now : ℕ) (c : Call) (u : Target)
    → subject c ≢ u
    → (step b (now, c)).states u ≡ b.states u
unfolding step allow success failure open_for
step_isolated b now (allows t) u h = ground (arith, target_eq_iff t u)
step_isolated b now (succeeds t) u h = ground (arith, target_eq_iff t u)
step_isolated b now (fails t) u h = ground (arith, target_eq_iff t u)
step_isolated b now (opens_for t d) u h = ground (arith, target_eq_iff t u)

-- `Failure` on one target at each of the times.
pub fail_all : Breakers → Target → List ℕ → Breakers
fail_all b t [] = b
fail_all b t (now ∷ rest) = fail_all (failure now b t) t rest

fail_below :
    (b : Breakers) (t : Target) (times : List ℕ)
    → (b.states t).open_until ≡ 0
    → (b.states t).probing ≡ false
    → (b.states t).failures + length times < b.threshold
    → (((fail_all b t times).states t).open_until ≡ 0)
      × (((fail_all b t times).states t).probing ≡ false)
      × (((fail_all b t times).states t).failures ≡ (b.states t).failures + length times)
      × ((fail_all b t times).threshold ≡ b.threshold)
      × ((fail_all b t times).open_for ≡ b.open_for)
unfolding fail_all failure
fail_below b t [] z p h = ground arith
fail_below b t (now ∷ rest) z p h =
    ground (arith, target_eq_refl t, fail_below (failure now b t) t rest)

-- A breaker made with a threshold is still closed behind one failure fewer, at any times, and the
-- failure behind those opens it until `open_for` after that failure.
pub opens_at_threshold :
    (threshold d : ℕ) (t : Target) (times : List ℕ) (now : ℕ)
    → length times + 1 ≡ threshold
    → let before = fail_all (new_breakers threshold d) t times in
      (state now before t ≡ closed) × (((failure now before t).states t).open_until ≡ now + d)
unfolding state failure new_breakers
opens_at_threshold threshold d t times now h =
    let b = new_breakers threshold d in ground (arith, target_eq_refl t, fail_below b t times)

-- `OpenFor` never shortens an open period, and with a positive duration it refuses calls until the
-- duration is over.
pub open_for_extends :
    (now later d : ℕ) (b : Breakers) (t : Target)
    → ((b.states t).open_until ≤ ((open_for now b t d).states t).open_until)
      × (0 < d → later < now + d → (allow later (open_for now b t d) t).0 ≡ false)
unfolding open_for allow
open_for_extends now later d b t =
    (ground (arith, target_eq_refl t), λ p q. ground (arith, target_eq_refl t))
