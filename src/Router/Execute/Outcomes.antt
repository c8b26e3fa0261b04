-- ===== src/Router/Execute/Outcomes.antt =====
-- What `Execute` (internal/router/execute.go) returns.
use proofgate.Base.{
  ℕ, zero, suc, ◌+◌, ◌≡◌, refl, Option, none, some, List, [], ◌∷◌, arith, max, Option-cases, inl,
  inr, if◌then◌else◌, Bool, true, false, not, ◌&&◌,
}
use mathlib.Core.List.{Memᴰ}
use proofgate.Router.Breaker.{Target, Breakers, zero_state, success}
use proofgate.Router.Breaker.Laws.{target_eq_refl}
use proofgate.Router.Route.{RetryPolicy}
use proofgate.Router.Execute.{
  Err, Decision, ContextError, World, backoff, Run, Step, returned, next, note_retry_after,
  note_failure, retry, after_error, round, rounds, refused, Outcome, targets_loop, start, execute,
  on_breakers, check_ctx, classify, done, retry_same, next_target, finish, is_last,
}

module _ {W : Type 0} (env : World W)
    (sleep_err : (d : ℕ) (w : W) (e : ContextError)
      → (env.sleep d w).0 ≡ some e
      → env.ctx_err (env.sleep d w).1 ≡ some e) where
  -- The run ends right behind an attempt at `t` that succeeded, with the breaker of `t` reset.
  pub record IsServed (t : Target) (r : Run env) : Type 0 where
    pub target : r.target ≡ some t
    pub before : W
    pub accepted : (env.attempt t before).0 ≡ none
    pub after : r.world ≡ (env.attempt t before).1
    pub reset : (b : Breakers) → r.breakers ≡ some b → b.states t ≡ zero_state

  abbrev Fine : Target → Step env → Type 0
  Fine t (returned r none) = IsServed t r
  Fine t (returned r (some e)) = Unit
  Fine t (next r) = Unit

  module _ (t : Target) (again : Run env → Step env) (fine : (s : Run env) → Fine t (again s)) where
    retry-Fine : (k base n : ℕ) (s : Run env) → Fine t (retry env k base n again s)
    unfolding retry
    retry-Fine zero base n s = tt
    retry-Fine (suc k) base n s =
        let (d, w) = backoff env base n s.world in
        let (slept, w') = env.sleep d w in
        elim (Option-cases slept) [
          | inl e ↦ rw (e, Fine) (fine (record s { world = w' }))
          | inr (x, e) ↦
              let s' = record s { world = w' } in
              elim (Option-cases (check_ctx env s')) [
                | inl c ↦ absurd (unfold check_ctx in ground (arith, sleep_err d w x e))
                | inr (y, c) ↦ rw (e, Fine, c) tt
              ]
        ]

    decision-Fine :
        (d : Decision) (r : Run env) (err : Err)
        → Fine t
            (elim d [ done ↦ returned r (some err) | next_target ↦ next r | retry_same ↦ again r ])
    decision-Fine done r err = tt
    decision-Fine next_target r err = tt
    decision-Fine retry_same r err = fine r

    after_error-Fine : (err : Err) (s : Run env) → Fine t (after_error env t err again s)
    unfolding after_error
    after_error-Fine err s =
        let s2 = note_retry_after env t err (record s { last_err = err }) in
        elim (Option-cases (check_ctx env s2)) [
          | inl e ↦ rw (e, Fine) (decision-Fine (classify err).0 (note_failure env t err s2) err)
          | inr (x, e) ↦ rw (e, Fine) tt
        ]

    success-IsServed :
        (s : Run env)
        → (env.attempt t s.world).0 ≡ none
        → IsServed t (
            on_breakers env
              (λ b. success b t)
              (record s {
                attempts = s.attempts + 1;
                target = some t;
                world = (env.attempt t s.world).1;
              }))
    unfolding on_breakers success
    success-IsServed s ok = record {
      target = ground arith;
      before = s.world;
      accepted = ok;
      after = ground arith;
      reset = λ b e. ground (arith, target_eq_refl t);
    }

    round-Fine : (s : Run env) → Fine t (round env t again s)
    unfolding round
    round-Fine s = elim (Option-cases (check_ctx env s)) [
      | inr (x, e) ↦ rw (e, Fine) tt
      | inl e ↦ elim (Option-cases (env.attempt t s.world).0) [
        | inl ok ↦ rw (e, Fine, ok) (success-IsServed s ok)
        | inr (err, failed) ↦ rw (e, Fine, failed) (after_error-Fine err _)
      ]
    ]

  rounds-Fine : (k base n : ℕ) (t : Target) (s : Run env) → Fine t (rounds env k base n t s)
  unfolding rounds
  rounds-Fine zero base n t s = tt
  rounds-Fine (suc k) base n t s =
      round-Fine t (retry env k base n (rounds env k base (n + 1) t))
        (retry-Fine t (rounds env k base (n + 1) t) (rounds-Fine k base (n + 1) t) k base n) s

  abbrev ServedBy : List Target → Outcome env → Type 0
  ServedBy ts o = o.err ≡ none → (t : Target) × Memᴰ t ts × IsServed t o.run

  ServedBy-cons :
      (t : Target) (ts : List Target) (o : Outcome env) → ServedBy ts o → ServedBy (t ∷ ts) o
  ServedBy-cons t ts o h e = let (u, m, served) = h e in (u, Memᴰ.tail m, served)

  ServedBy-if :
      (b : Bool) (ts : List Target) (o o' : Outcome env)
      → ServedBy ts o
      → ServedBy ts o'
      → ServedBy ts (if b then o else o')
  ServedBy-if true ts o o' h h' = h
  ServedBy-if false ts o o' h h' = h'

  ServedBy-step :
      (t : Target) (ts : List Target) (rest : Run env → Outcome env) (x : Step env)
      → Fine t x
      → ((r : Run env) → ServedBy ts (rest r))
      → ServedBy (t ∷ ts) (elim x [ returned r e ↦ record { run = r; err = e } | next r ↦ rest r ])
  ServedBy-step t ts rest (returned r none) fine h = λ e. (t, Memᴰ.head refl, fine)
  ServedBy-step t ts rest (returned r (some x)) fine h = λ e. absurd (ground arith)
  ServedBy-step t ts rest (next r) fine h = ServedBy-cons t ts (rest r) (h r)

  targets_loop-ServedBy :
      (rp : RetryPolicy) (ts : List Target) (s : Run env) → ServedBy ts (targets_loop env rp ts s)
  unfolding targets_loop
  targets_loop-ServedBy rp [] s = λ e. absurd (unfold finish in ground arith)
  targets_loop-ServedBy rp (t ∷ ts) s =
      let s' = (refused env t s).1 in
      ServedBy-if ((refused env t s).0 && not (is_last env ts)) (t ∷ ts) _ _
        (ServedBy-cons t ts (targets_loop env rp ts s') (targets_loop-ServedBy rp ts s'))
        (ServedBy-step t ts (targets_loop env rp ts)
          (rounds env (max rp.max_attempts 1) rp.base_delay 0 t s')
          (rounds-Fine (max rp.max_attempts 1) rp.base_delay 0 t s') (targets_loop-ServedBy rp ts))

  -- If `Execute` returns no error, a target of the plan was called and answered without one, that
  -- was the last call of the run, the result names that target, and its breaker is closed with no
  -- failures. (A sleep that reports an error leaves it in the context.)
  pub execute-IsServed :
      (rp : RetryPolicy) (br : Option Breakers) (deadline : ℕ) (plan : List Target) (w : W)
      → (execute env rp br deadline plan w).err ≡ none
      → (t : Target) × Memᴰ t plan × IsServed t (execute env rp br deadline plan w).run
  unfolding execute
  execute-IsServed rp br deadline plan w = targets_loop-ServedBy rp plan (start env br deadline w)
