-- ===== src/Health/Tracker/Examples.antt =====
-- Runs of internal/health/tracker.go on natural numbers: a target that should answer within 100 ms.
use proofgate.Base.{ℕ, ◌≡◌, refl, true, false, [], ◌∷◌, arith}
use proofgate.Base.Bytes.{codes, str_eq}
use proofgate.Base.Maps.{Map, lookup}
use proofgate.Base.Float.{counting}
use proofgate.Router.Breaker.{Target, target_eq}
use proofgate.Router.Route.{to_string}
use proofgate.Base.Int.{pos, ◌+ℤ◌}
use proofgate.Api.{join}
use proofgate.Health.Stats.{
  observed, observe_outcome, observe_tps, observe_ttft, ewma, seconds, Sample, succeeded,
}
use proofgate.Health.Tracker.{
  Slo, HealthConfig, Tracker, new_tracker, is_degraded, observe, put_entry, evaluate, judge,
  reasons, entry_of, find_entry, err_known, tps_known, ttft_known,
}
use proofgate.Health.Tracker.Events.{Event, observes, step, run}
use proofgate.Health.Tracker.Recovery.{degraded_stays}

abbrev gpt : Target
gpt = record { provider = codes "openai"; model = codes "gpt" }

abbrev config : HealthConfig counting
config = record { alpha = 1; breaches = 2; recover = 30; min_samples = pos 1 }

abbrev slos : Map (Slo counting)
slos = (codes "openai/gpt", record { ttft_ms = 100; min_tps = 0; max_error_rate = 0 }) ∷ []

abbrev sample : ℕ → Sample
sample ms = record { target = gpt; ttft = ms; tokens = 0; gen = 0; outcome = succeeded }

abbrev slow : ℕ → Event counting
slow now = observes now (sample 200_000_000)

abbrev first : Tracker counting
first = step counting (new_tracker counting config slos) (slow 10)

is_marked : is_degraded counting (step counting first (slow 20)) gpt ≡ true
unfolding is_degraded step observe put_entry new_tracker target_eq str_eq evaluate lookup to_string
    judge reasons observed observe_outcome observe_tps observe_ttft ◌+ℤ◌ join ewma seconds entry_of
    err_known find_entry tps_known ttft_known
is_marked = refl

is_unmarked : is_degraded counting first gpt ≡ false
unfolding is_degraded step observe put_entry new_tracker target_eq str_eq evaluate lookup to_string
    judge reasons observed observe_outcome observe_tps observe_ttft ◌+ℤ◌ join ewma seconds entry_of
    err_known find_entry tps_known ttft_known
is_unmarked = refl

degraded_stays_example :
    is_degraded counting
      (run counting (step counting first (slow 20)) (observes 40 (sample 1_000_000) ∷ []))
      gpt
    ≡ true
unfolding step observe new_tracker
degraded_stays_example =
    degraded_stays counting first (slow 20) (observes 40 (sample 1_000_000) ∷ []) gpt 20 refl
      ((omega arith, omega arith), tt) is_unmarked is_marked
