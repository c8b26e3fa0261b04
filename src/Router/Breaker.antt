-- ===== src/Router/Breaker.antt =====
-- internal/router/breaker.go. A time is a number of nanoseconds and 0 is the zero `time.Time`; the
-- clock's reading is an argument of the methods that read it. `threshold` and the durations are
-- natural numbers: a negative one acts as 0 does in each test. The map from targets to states is a
-- function, where a target that is not there has the zero state that `get` would insert for it.
mod Examples
pub mod Laws
pub mod Probe
use proofgate.Base.{ℕ, ◌+◌, ◌==◌, Bool, true, false, not, ◌&&◌, ◌||◌, ltb, leb, if◌then◌else◌}
use proofgate.Base.Bytes.{Bytes, str_eq}

pub record Target : Type 0 where
  pub provider : Bytes
  pub model : Bytes

unfoldable pub target_eq : Target → Target → Bool
target_eq a b = str_eq a.provider b.provider && str_eq a.model b.model

pub record BreakerState : Type 0 where
  pub failures : ℕ
  pub open_until : ℕ
  pub probing : Bool

abbrev pub zero_state : BreakerState
zero_state = record { failures = 0; open_until = 0; probing = false }

pub record Breakers : Type 0 where
  pub threshold : ℕ
  pub open_for : ℕ
  pub states : Target → BreakerState

unfoldable pub new_breakers : ℕ → ℕ → Breakers
new_breakers threshold open_for = record {
  threshold = threshold;
  open_for = open_for;
  states = λ _. zero_state;
}

-- a write through the pointer that `b.get(t)` returns
unfoldable pub put : Breakers → Target → BreakerState → Breakers
put b t s = record b { states = λ u. if target_eq t u then s else b.states u }

allow_state : ℕ → BreakerState → Bool × BreakerState
allow_state now s =
    if s.open_until == 0
    then (true, s)
    else if ltb now s.open_until || s.probing
    then (false, s)
    else (true, record s { probing = true })

unfoldable pub allow : ℕ → Breakers → Target → Bool × Breakers
unfolding allow_state put
allow now b t = let (admitted, s) = allow_state now (b.states t) in (admitted, put b t s)

unfoldable pub success : Breakers → Target → Breakers
unfolding put
success b t = put b t zero_state

failure_state : ℕ → ℕ → ℕ → BreakerState → BreakerState
failure_state now threshold open_for s =
    let s' = record s { failures = s.failures + 1 } in
    if s.probing || leb threshold (s.failures + 1)
    then record s' { open_until = now + open_for; probing = false }
    else s'

unfoldable pub failure : ℕ → Breakers → Target → Breakers
unfolding failure_state put
failure now b t = put b t (failure_state now b.threshold b.open_for (b.states t))

open_for_state : ℕ → ℕ → BreakerState → BreakerState
open_for_state now d s =
    if ltb s.open_until (now + d) then record s { open_until = now + d; probing = false } else s

unfoldable pub open_for : ℕ → Breakers → Target → ℕ → Breakers
unfolding open_for_state put
open_for now b t d = if d == 0 then b else put b t (open_for_state now d (b.states t))

pub data Phase : Type 0 where
  closed half_open open_phase : Phase

unfoldable pub state : ℕ → Breakers → Target → Phase
state now b t =
    let s = b.states t in
    if s.open_until == 0
    then closed
    else if s.probing
    then half_open
    else if ltb now s.open_until
    then open_phase
    else half_open

unfoldable pub is_open : ℕ → Breakers → Target → Bool
is_open now b t =
    let s = b.states t in not (s.open_until == 0) && (ltb now s.open_until || s.probing)
