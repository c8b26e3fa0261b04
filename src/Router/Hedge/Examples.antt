-- ===== src/Router/Hedge/Examples.antt =====
-- A run of internal/router/hedge.go: the primary is slow, the hedge fails, and the primary wins.
use proofgate.Base.{◌≡◌, refl, true, none, List, [], ◌∷◌}
use proofgate.Base.Bytes.{Bytes, codes}
use proofgate.Router.Breaker.{Target}
use proofgate.Router.Execute.{other_error, classify}
use proofgate.Router.Hedge.{
  Event, timer, succeeds, fails, race, launched_first, step, answers, won, finish, note_failure,
}
use proofgate.Router.Hedge.Settled.{IsSound, received, race_settled}

abbrev primary : Target
primary = record { provider = codes "openai"; model = codes "gpt" }

abbrev secondary : Target
secondary = record { provider = codes "anthropic"; model = codes "claude" }

abbrev events : List (Event Bytes)
events = timer true ∷ fails other_error secondary 5 ∷ succeeds (codes "hi") primary ∷ []

wins :
    race secondary [] (launched_first none) events
    ≡ answers (won (codes "hi") primary 2 true 0 none)
unfolding race step finish note_failure classify
wins = refl

race_settled_example :
    IsSound primary secondary []
      (received secondary [] (launched_first none) events)
      (race secondary [] (launched_first none) events)
race_settled_example = race_settled primary secondary [] none events
