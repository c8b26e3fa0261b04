-- ===== src/Pipeline/Examples.antt =====
-- Runs of internal/pipeline/pipeline.go: the second of three stages refuses the call.
use proofgate.Base.{ℕ, ◌+◌, ◌≡◌, none, some, List, [], ◌∷◌, ◌++◌}
use proofgate.Base.Bytes.{codes}
use proofgate.Pipeline.{Stage, Verdict, go_on, failed, before, after}
use proofgate.Pipeline.Order.{Enters, unwind, error_of, before_after_balanced}

-- A call is the log of the hooks that saw it; an error is a status.
abbrev stage : ℕ → Verdict ℕ → Stage (List ℕ) ℕ
stage n v = record {
  name = codes "stage";
  before = λ log. (n ∷ log, v);
  after = λ log. (n + 10) ∷ log;
  respond = some (λ log. (n + 20) ∷ log);
}

abbrev stages : List (Stage (List ℕ) ℕ)
stages = stage 1 go_on ∷ stage 2 (failed 402) ∷ stage 3 go_on ∷ []

before_after_balanced_example :
    let (c, v) = before stages (record { call = []; ran = 0; err = none }) in
    (ran : List (Stage (List ℕ) ℕ)) × (rest : List (Stage (List ℕ) ℕ)) × (stages ≡ ran ++ rest)
    × Enters ran rest [] c.call v
    × (c.err ≡ error_of v none)
    × (after stages c ≡ some (unwind ran c.call))
before_after_balanced_example = before_after_balanced stages []
