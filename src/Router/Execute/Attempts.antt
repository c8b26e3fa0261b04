-- ===== src/Router/Execute/Attempts.antt =====
-- How often `Execute` (internal/router/execute.go) calls upstream, and how long it pauses.
use proofgate.Base.{ℕ, ◌+◌, ◌≤◌, ◌<◌, ◌≡◌, refl, arith, min}
use proofgate.Router.Breaker.{Target}
use proofgate.Router.Execute.{
  Err, provider_error, api_error, context_error, other_error, World, max_backoff, backoff, Run,
  Step, returned, next, note_retry_after, note_failure, shift_left,
}

module _ {W : Type 0} (env : World W) where
  -- With `rand.Int64N` below its argument, no pause between two attempts is longer than the ceiling
  -- that doubles with each attempt, nor than two seconds; also where the shift overflows.
  pub backoff_bounds :
      ((n : ℕ) (w : W) → 0 < n → (env.random_below n w).0 < n)
      → (base n : ℕ) (w : W)
      → ((backoff env base n w).0 ≤ shift_left base n) × ((backoff env base n w).0 ≤ max_backoff)
  unfolding backoff
  backoff_bounds below base n w =
      let ceiling = min (shift_left base n) max_backoff in ground (arith, below (ceiling + 1) w)

  abbrev attempts_of : Step env → ℕ
  attempts_of (returned r e) = r.attempts
  attempts_of (next r) = r.attempts

  pub note_retry_after-attempts :
      (t : Target) (err : Err) (s : Run env) → (note_retry_after env t err s).attempts ≡ s.attempts
  unfolding note_retry_after
  note_retry_after-attempts t (provider_error pe) s = ground arith
  note_retry_after-attempts t (api_error ae) s = refl
  note_retry_after-attempts t (context_error e) s = refl
  note_retry_after-attempts t other_error s = refl

  pub note_failure-attempts :
      (t : Target) (err : Err) (s : Run env) → (note_failure env t err s).attempts ≡ s.attempts
  unfolding note_failure
  note_failure-attempts t err s = ground arith
