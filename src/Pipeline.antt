-- ===== src/Pipeline.antt =====
-- internal/pipeline/pipeline.go. A stage is what its methods do to the call, which also carries all
-- that they change outside it; `ran` and `err`, which the pipeline itself keeps, stand beside it.
mod Examples
pub mod Order
use proofgate.Base.{
  ℕ, zero, suc, ◌+◌, ◌-◌, Bool, true, false, Option, none, some, List, [], ◌∷◌, length, map,
  get_elem?,
}
use proofgate.Base.Bytes.{Bytes}

-- What `Before` returns: `(false, nil)`, `(true, nil)` or an error.
pub data Verdict (E : Type 0) : Type 0 where
  go_on : Verdict E
  handled : Verdict E
  failed : E → Verdict E

-- `respond` is `none` for a stage that is no `Responder`.
pub record Stage (C E : Type 0) : Type 0 where
  pub name : Bytes
  pub before : C → C × Verdict E
  pub after : C → C
  pub respond : Option (C → C)

pub record Call (C E : Type 0) : Type 0 where
  pub call : C
  pub ran : ℕ
  pub err : Option E

abbrev pub apply {ℓ} : {C : Type ℓ} → Option (C → C) → C → C
apply none c = c
apply (some f) c = f c

module _ {C E : Type 0} where
  unfoldable pub names : List (Stage C E) → List Bytes
  names = map (λ s. s.name)

  unfoldable pub before : List (Stage C E) → Call C E → Call C E × Verdict E
  before [] c = (c, go_on)
  before (s ∷ ss) c =
      let (call, verdict) = s.before c.call in
      let c' = record c { call = call; ran = c.ran + 1 } in
      elim verdict [
        | failed e ↦ (record c' { err = some e }, failed e)
        | handled ↦ (c', handled)
        | go_on ↦ before ss c'
      ]

  -- `for i := len(p.stages) - 1; i >= 0; i--`, with the stages below `i` left
  unfoldable pub respond_below : List (Stage C E) → ℕ → C → Option C
  respond_below stages zero c = some c
  respond_below stages (suc i) c = elim (get_elem? stages i) [
    | none ↦ none
    | some s ↦ respond_below stages i (apply s.respond c)
  ]

  unfoldable pub respond : List (Stage C E) → C → Option C
  respond stages c = respond_below stages (length stages) c

  -- `for i := c.ran - 1; i >= 0; i--`; an index past the stages would panic: `none`
  unfoldable pub after_below : List (Stage C E) → ℕ → C → Option C
  after_below stages zero c = some c
  after_below stages (suc i) c = elim (get_elem? stages i) [
    | none ↦ none
    | some s ↦ after_below stages i (s.after c)
  ]

  unfoldable pub after : List (Stage C E) → Call C E → Option C
  after stages c = after_below stages c.ran c.call
