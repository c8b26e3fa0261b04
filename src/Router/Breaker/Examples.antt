-- ===== src/Router/Breaker/Examples.antt =====
-- Runs of internal/router/breaker.go.
use proofgate.Base.{ℕ, ◌+◌, ◌≤◌, ◌≡◌, ◌≢◌, refl, true, false, List, [], ◌∷◌, arith}
use proofgate.Base.Bytes.{codes, str_eq}
use proofgate.Router.Breaker.{
  Target, target_eq, Breakers, new_breakers, allow, failure, closed, half_open, state,
}
use proofgate.Router.Breaker.Laws.{
  target_eq_iff, fail_all, opens_at_threshold, IsConsistent, Call, succeeds, fails, allows, run,
  run-IsConsistent,
}
use proofgate.Router.Breaker.Probe.{allow_single_probe}

abbrev gpt : Target
gpt = record { provider = codes "openai"; model = codes "gpt" }

abbrev claude : Target
claude = record { provider = codes "anthropic"; model = codes "claude" }

abbrev calls : List (ℕ × Call)
calls =
    (1, fails gpt) ∷ (2, allows claude) ∷ (3, fails gpt) ∷ (9, allows gpt) ∷ (10, succeeds gpt) ∷ []

run-IsConsistent_example :
    IsConsistent
      (run (new_breakers 2 5) calls).threshold
      ((run (new_breakers 2 5) calls).states gpt)
run-IsConsistent_example =
    run-IsConsistent 2 5 calls gpt (omega arith)
      (omega arith, (omega arith, (omega arith, (omega arith, (omega arith, tt)))))

abbrev opened : Breakers
opened = failure 3 (new_breakers 1 5) gpt

state-opened : state 9 opened gpt ≢ closed
unfolding state failure new_breakers target_eq str_eq
state-opened = ground arith

allow-opened : (allow 9 opened gpt).0 ≡ true
unfolding allow failure new_breakers target_eq str_eq
allow-opened = refl

-- Behind the probe: two more callers, and a failure and a success of another target.
abbrev meanwhile : List (ℕ × Call)
meanwhile = (9, allows gpt) ∷ (10, fails claude) ∷ (11, allows gpt) ∷ (12, succeeds claude) ∷ []

claude_apart : claude ≢ gpt
unfolding target_eq str_eq
claude_apart = λ h. ground (arith, (target_eq_iff claude gpt).1 h)

allow_single_probe_example :
    ((opened.states gpt).open_until ≤ 9)
    × ((allow 40 (run (allow 9 opened gpt).1 meanwhile) gpt).0 ≡ false)
    × (state 40 (run (allow 9 opened gpt).1 meanwhile) gpt ≡ half_open)
allow_single_probe_example =
    allow_single_probe 9 40 opened gpt meanwhile state-opened allow-opened
      (claude_apart, (claude_apart, tt))

opens_at_threshold_example :
    (state 7 (fail_all (new_breakers 3 5) gpt (2 ∷ 4 ∷ [])) gpt ≡ closed)
    × (((failure 7 (fail_all (new_breakers 3 5) gpt (2 ∷ 4 ∷ [])) gpt).states gpt).open_until
        ≡ 7 + 5)
opens_at_threshold_example = opens_at_threshold 3 5 gpt (2 ∷ 4 ∷ []) 7 refl
