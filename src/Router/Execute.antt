-- ===== src/Router/Execute.antt =====
-- internal/router/execute.go. What the loop meets outside it is a `World`: the attempts, the
-- request's context, the clock, the timer and the random numbers, over a state that they change.
pub mod Attempts
mod Examples
pub mod Outcomes
use proofgate.Base.{
  ℕ, zero, suc, ◌+◌, ◌*◌, ◌%◌, ◌^◌, ◌==◌, Bool, true, false, not, ◌&&◌, ◌||◌, Option, none, some,
  List, [], ◌∷◌, ltb, leb, min, max, if◌then◌else◌,
}
use proofgate.Api.Errors.{ApiError, no_healthy_target, gateway_timeout}
use proofgate.Router.Breaker.{Target, Breakers, allow, success, failure, open_for}
use proofgate.Router.Route.{RetryPolicy}

-- `provider.Error`, with the fields that the router reads.
pub record ProviderError : Type 0 where
  pub status : ℕ
  pub retryable : Bool
  pub retry_after : ℕ

pub data ContextError : Type 0 where
  deadline_exceeded canceled : ContextError

pub data Err : Type 0 where
  provider_error : ProviderError → Err
  api_error : ApiError → Err
  context_error : ContextError → Err
  other_error : Err

-- internal/provider/provider.go
unfoldable pub retryable_status : ℕ → Bool
retryable_status s =
    s == 408 || s == 409 || s == 429 || s == 500 || s == 502 || s == 503 || s == 504 || s == 529

pub data Decision : Type 0 where
  done retry_same next_target : Decision

unfoldable pub classify : Err → Decision × Bool
classify (provider_error pe) =
    if pe.status == 429
    then (next_target, false)
    else if pe.status == 401 || pe.status == 403
    then (next_target, true)
    else if pe.retryable
    then (retry_same, true)
    else (done, false)
classify (api_error ae) = (done, false)
classify (context_error e) = (retry_same, true)
classify other_error = (retry_same, true)

pub record World (W : Type 0) : Type 0 where
  pub attempt : Target → W → Option Err × W
  pub ctx_err : W → Option ContextError
  pub with_timeout : ℕ → W → W
  pub now : W → ℕ
  pub sleep : ℕ → W → Option ContextError × W
  pub random_below : ℕ → W → ℕ × W

-- `base<<n` in int64: a negative value counts as 0, since `backoff` tests the ceiling by `<= 0`.
unfoldable pub shift_left : ℕ → ℕ → ℕ
shift_left base n = let v = (base * 2 ^ n) % 2 ^ 64 in if ltb v (2 ^ 63) then v else 0

-- 2 seconds
abbrev pub max_backoff : ℕ
max_backoff = 2_000_000_000

module _ {W : Type 0} (env : World W) where
  open env use {attempt, ctx_err, with_timeout, now, sleep, random_below}

  unfoldable pub backoff : ℕ → ℕ → W → ℕ × W
  backoff base n w =
      let ceiling = min (shift_left base n) max_backoff in
      if ceiling == 0 then (0, w) else random_below (ceiling + 1) w

  pub record Run : Type 0 where
    pub attempts : ℕ
    pub target : Option Target
    pub last_err : Err
    pub shortest : ℕ
    pub breakers : Option Breakers
    pub world : W

  pub data Step : Type 0 where
    returned : Run → Option Err → Step
    next : Run → Step

  context_failure : Option ContextError → Option Err
  context_failure none = none
  context_failure (some deadline_exceeded) = some (api_error gateway_timeout)
  context_failure (some canceled) = some (context_error canceled)

  pub check_ctx : Run → Option Err
  unfolding context_failure
  check_ctx s = context_failure (ctx_err s.world)

  on_breakers : (Breakers → Breakers) → Run → Run
  on_breakers f s = elim s.breakers [ none ↦ s | some b ↦ record s { breakers = some (f b) } ]

  -- `pe.RetryAfter > 0` opens the breaker and lowers the shortest wait seen
  pub note_retry_after : Target → Err → Run → Run
  unfolding on_breakers
  note_retry_after t (provider_error pe) s =
      if pe.retry_after == 0
      then s
      else let s' = on_breakers (λ b. open_for (now s.world) b t pe.retry_after) s in
        record s' {
          shortest =
              if s'.shortest == 0 || ltb pe.retry_after s'.shortest
              then pe.retry_after
              else s'.shortest;
        }
  note_retry_after t _ s = s

  pub note_failure : Target → Err → Run → Run
  unfolding on_breakers
  note_failure t err s =
      if (classify err).1 then on_breakers (λ b. failure (now s.world) b t) s else s

  -- the end of a round: the pause, and the next round unless this was the last
  pub retry : ℕ → ℕ → ℕ → (Run → Step) → Run → Step
  retry zero base n again s = next s
  retry (suc rounds) base n again s =
      let (d, w) = backoff base n s.world in
      let (slept, w') = sleep d w in
      let s' = record s { world = w' } in
      elim slept [ some _ ↦ returned s' (check_ctx s') | none ↦ again s' ]

  -- behind a failed attempt; `again` is `retry`
  pub after_error : Target → Err → (Run → Step) → Run → Step
  unfolding note_retry_after note_failure
  after_error t err again s =
      let s2 = note_retry_after t err (record s { last_err = err }) in
      let s3 = note_failure t err s2 in
      elim (check_ctx s2) [
        | some e ↦ returned s2 (some e)
        | none ↦ elim (classify err).0 [
          | done ↦ returned s3 (some err)
          | next_target ↦ next s3
          | retry_same ↦ again s3
        ]
      ]

  -- one round of the inner loop
  pub round : Target → (Run → Step) → Run → Step
  unfolding on_breakers
  round t again s = elim (check_ctx s) [
    | some e ↦ returned s (some e)
    | none ↦
        let (result, w) = attempt t s.world in
        let s1 = record s { attempts = s.attempts + 1; target = some t; world = w } in
        elim result [
          | none ↦ returned (on_breakers (λ b. success b t) s1) none
          | some err ↦ after_error t err again s1
        ]
  ]

  -- `for n := 0; n < maxAttempts; n++`, with the rounds left
  unfoldable pub rounds : ℕ → ℕ → ℕ → Target → Run → Step
  unfolding retry after_error round check_ctx
  rounds zero base n t s = next s
  rounds (suc k) base n t s = round t (retry k base n (rounds k base (n + 1) t)) s

  is_last : List Target → Bool
  is_last [] = true
  is_last (_ ∷ _) = false

  -- `br != nil && !br.Allow(t)`
  pub refused : Target → Run → Bool × Run
  refused t s = elim s.breakers [
    | none ↦ (false, s)
    | some b ↦
        let (admitted, b') = allow (now s.world) b t in
        (not admitted, record s { breakers = some b' })
  ]

  pub record Outcome : Type 0 where
    pub run : Run
    pub err : Option Err

  surface : ℕ → Err → Err
  surface d (provider_error pe) = provider_error (record pe { retry_after = d })
  surface d (api_error ae) = api_error (record ae { retry_after = d })
  surface d err = err

  -- behind the loops
  finish : Run → Outcome
  unfolding surface
  finish s = record {
    run = s;
    err = some (if s.shortest == 0 then s.last_err else surface s.shortest s.last_err);
  }

  unfoldable pub targets_loop : RetryPolicy → List Target → Run → Outcome
  unfolding is_last refused finish
  targets_loop rp [] s = finish s
  targets_loop rp (t ∷ ts) s =
      let (closed_to_us, s') = refused t s in
      let skipped = targets_loop rp ts s' in
      let tried : Outcome = elim (rounds (max rp.max_attempts 1) rp.base_delay 0 t s') [
        | returned r e ↦ record { run = r; err = e }
        | next r ↦ targets_loop rp ts r
      ] in
      if closed_to_us && not (is_last ts) then skipped else tried

  pub start : Option Breakers → ℕ → W → Run
  start br deadline w = record {
    attempts = 0;
    target = none;
    last_err = api_error no_healthy_target;
    shortest = 0;
    breakers = br;
    world = if deadline == 0 then w else with_timeout deadline w;
  }

  unfoldable pub execute : RetryPolicy → Option Breakers → ℕ → List Target → W → Outcome
  unfolding start
  execute rp br deadline plan w = targets_loop rp plan (start br deadline w)
