-- ===== src/Router/Execute/Examples.antt =====
-- Runs of internal/router/execute.go: the first attempt meets an overloaded provider.
use proofgate.Base.{ℕ, ◌+◌, ◌==◌, ◌≡◌, refl, Bool, true, none, some, [], ◌∷◌, arith, if◌then◌else◌}
use mathlib.Core.List.{Memᴰ}
use proofgate.Base.Bytes.{codes}
use proofgate.Router.Breaker.{Target}
use proofgate.Router.Route.{RetryPolicy}
use proofgate.Router.Execute.{
  World, Err, ContextError, provider_error, execute, targets_loop, rounds, classify,
}
use proofgate.Router.Execute.Outcomes.{IsServed, execute-IsServed}

abbrev gpt : Target
gpt = record { provider = codes "openai"; model = codes "gpt" }

abbrev claude : Target
claude = record { provider = codes "anthropic"; model = codes "claude" }

abbrev overloaded : Err
overloaded = provider_error (record { status = 429; retryable = true; retry_after = 0 })

abbrev invalid : Err
invalid = provider_error (record { status = 400; retryable = Bool.false; retry_after = 0 })

-- The state counts the attempts; the first one fails.
abbrev first_fails : Err → World ℕ
first_fails err = record {
  attempt = λ t w. (if w == 0 then some err else none, w + 1);
  ctx_err = λ w. none;
  with_timeout = λ d w. w;
  now = λ w. w + 1;
  sleep = λ d w. (none, w);
  random_below = λ n w. (0, w);
}

abbrev twice : RetryPolicy
twice = record { max_attempts = 2; base_delay = 1000 }

never_woken :
    (d w : ℕ) (e : ContextError)
    → ((first_fails overloaded).sleep d w).0 ≡ some e
    → (first_fails overloaded).ctx_err ((first_fails overloaded).sleep d w).1 ≡ some e
never_woken d w e h = ground arith

served : (execute (first_fails overloaded) twice none 0 (gpt ∷ claude ∷ []) 0).err ≡ none
unfolding execute targets_loop rounds classify
served = refl

execute-IsServed_example :
    (t : Target) × Memᴰ t (gpt ∷ claude ∷ [])
    × IsServed
        (first_fails overloaded)
        never_woken
        t
        (execute (first_fails overloaded) twice none 0 (gpt ∷ claude ∷ []) 0).run
execute-IsServed_example =
    execute-IsServed (first_fails overloaded) never_woken twice none 0 (gpt ∷ claude ∷ []) 0 served
