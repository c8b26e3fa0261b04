-- ===== src/Router/Hedge.antt =====
-- internal/router/hedge.go. A race is the loop of `ExecuteHedged` on a plan of two targets or more:
-- its state between two events, and what it does with each. An event of the timer brings the answer
-- that `allow` would give; an attempt's outcome brings the time that the breakers read.
pub mod Budget
pub mod Settled
mod Examples
use proofgate.Base.{
  ℕ, zero, suc, ◌+◌, ◌-◌, ◌==◌, Bool, true, false, not, ◌&&◌, Option, none, some, List, [], ◌∷◌,
  ltb, if◌then◌else◌,
}
use proofgate.Api.Errors.{gateway_timeout}
use proofgate.Router.Breaker.{Target, Breakers, success, failure}
use proofgate.Router.Route.{RetryPolicy}
use proofgate.Router.Execute.{
  Err, api_error, context_error, ContextError, deadline_exceeded, canceled, Decision, done,
  retry_same, next_target, classify, World, Outcome, Run, execute,
}

pub record Race : Type 0 where
  pub hedged : Bool
  pub pending : ℕ
  pub last_err : Option Err
  pub breakers : Option Breakers

-- What the loop waits for: the timer, the outcome of an attempt, the end of the context.
pub data Event (V : Type 0) : Type 0 where
  timer : Bool → Event V
  succeeds : V → Target → Event V
  fails : Err → Target → ℕ → Event V
  ends : ContextError → Event V

-- What the race comes to: `won` with the value, its target, `Attempts`, `hedged` and the number of
-- outcomes that are still to be discarded; `lost` with the target and `Attempts` of the result; or
-- `falls_back` to `Execute` on the rest of the plan, with what is added to its `Attempts`.
pub data Answer (V : Type 0) : Type 0 where
  won : V → Target → ℕ → Bool → ℕ → Option Breakers → Answer V
  lost : Option Target → ℕ → Bool → Err → Option Breakers → Answer V
  falls_back : List Target → ℕ → Bool → Option Breakers → Answer V

pub data Move (V : Type 0) : Type 0 where
  answers : Answer V → Move V
  waits : Race → Move V

abbrev pub bool_int : Bool → ℕ
bool_int true = 1
bool_int false = 0

abbrev pub on_breakers : (Breakers → Breakers) → Option Breakers → Option Breakers
on_breakers f none = none
on_breakers f (some b) = some (f b)

-- the primary is launched
abbrev pub launched_first : Option Breakers → Race
launched_first br = record { hedged = false; pending = 1; last_err = none; breakers = br }

pub is_done : Decision → Bool
is_done done = true
is_done retry_same = false
is_done next_target = false

-- the breakers after a failed attempt
unfoldable pub note_failure : Err → Target → ℕ → Option Breakers → Option Breakers
note_failure err t now br = if (classify err).1 then on_breakers (λ b. failure now b t) br else br

module _ {V : Type 0} where
  unfoldable pub finish : Race → V → Target → Answer V
  finish r v t =
      won v t (if r.hedged then 2 else 1) r.hedged (r.pending - 1)
        (on_breakers (λ b. success b t) r.breakers)

  -- when no attempt is pending any more; `others` are the targets behind the first two
  unfoldable pub exhausted : Target → List Target → Race → Err → Target → Answer V
  unfolding is_done
  exhausted secondary others r err t =
      let rest = if r.hedged then others else secondary ∷ others in
      elim rest [
        | [] ↦ lost (some t) 2 r.hedged err r.breakers
        | u ∷ us ↦
            if is_done (classify err).0
            then lost (some t) 0 r.hedged err r.breakers
            else falls_back (u ∷ us) (1 + bool_int r.hedged) r.hedged r.breakers
      ]

  unfoldable pub step : Target → List Target → Race → Event V → Move V
  unfolding finish exhausted note_failure
  step secondary others r (timer allowed) =
      if not r.hedged && allowed
      then waits (record r { hedged = true; pending = r.pending + 1 })
      else waits r
  step secondary others r (succeeds v t) = answers (finish r v t)
  step secondary others r (fails err t now) =
      let r' = record r {
        last_err = some err;
        pending = r.pending - 1;
        breakers = note_failure err t now r.breakers;
      } in
      if r'.pending == 0 then answers (exhausted secondary others r' err t) else waits r'
  step secondary others r (ends deadline_exceeded) =
      answers (lost none 0 r.hedged (api_error gateway_timeout) r.breakers)
  step secondary others r (ends canceled) =
      answers (lost none 0 r.hedged (context_error canceled) r.breakers)

  -- the loop, over the events in their order
  unfoldable pub race : Target → List Target → Race → List (Event V) → Move V
  race secondary others r [] = waits r
  race secondary others r (e ∷ es) = elim (step secondary others r e) [
    | answers a ↦ answers a
    | waits r' ↦ race secondary others r' es
  ]

module _ {W : Type 0} (env : World W) where
  -- `run(rest)`, under the deadline that the world is in already, with the attempts of the race
  unfoldable pub fallback : RetryPolicy → Option Breakers → List Target → ℕ → W → Outcome env
  unfolding execute
  fallback rp br rest added w =
      let o = execute env rp br 0 rest w in
      record o { run = record o.run { attempts = o.run.attempts + added } }

  -- a plan of fewer than two targets
  unfoldable pub run_linear : RetryPolicy → Option Breakers → ℕ → List Target → W → Outcome env
  unfolding execute
  run_linear rp br deadline plan w =
      execute env rp br 0 plan (if deadline == 0 then w else env.with_timeout deadline w)
