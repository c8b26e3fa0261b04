-- ===== src/Budget/Pricing.antt =====
-- internal/budget/pricing.go. The prices by target are a function into `Option`.
pub mod Estimates
use proofgate.Base.{ℕ, min, Bool, true, false, Option, none, some, List, [], ◌∷◌, if◌then◌else◌}
use proofgate.Base.Int.{ℤ, pos, ◌-ℤ◌, pos_part, ltb_ℤ}
use proofgate.Base.Bytes.{Bytes}
use proofgate.Base.Float.{Floats}
use proofgate.Api.{Usage}
use proofgate.Router.Route.{Price}

-- `Usage.CachedTokens`
unfoldable pub cached_tokens : Usage → ℤ
cached_tokens u = elim u.prompt_tokens_details [ none ↦ pos 0 | some n ↦ n ]

-- `if n < 0 { n = 0 }`
abbrev pub at_least_zero : ℤ → ℕ
at_least_zero n = pos_part n

module _ (fl : Floats) where
  open fl use {of_ℕ, of_ℤ, add, mul, is_zero, ceil, round}

  unfoldable pub cost_micros : (Bytes → Option (Price fl)) → Bytes → Usage → Option ℤ
  unfolding cached_tokens
  cost_micros prices target u = elim (prices target) [
    | none ↦ none
    | some pr ↦
        let cached = cached_tokens u in
        let cached_price = if is_zero pr.cached_input then pr.input else pr.cached_input in
        let prompt = pos (at_least_zero u.prompt_tokens) -ℤ cached in
        some (
          round (
            add (add (mul (of_ℤ prompt) pr.input) (mul (of_ℤ cached) cached_price))
              (mul (of_ℕ (at_least_zero u.completion_tokens)) pr.output)))
  ]

  -- the worst case on one target
  unfoldable pub worst_case : Price fl → ℕ → ℕ → ℤ
  worst_case pr prompt most = ceil (add (mul (of_ℕ prompt) pr.input) (mul (of_ℕ most) pr.output))

  unfoldable pub max_micros : (Bytes → Option (Price fl)) → ℕ → ℕ → ℤ → List Bytes → Option ℤ
  max_micros prices prompt most best [] = some best
  max_micros prices prompt most best (t ∷ ts) = elim (prices t) [
    | none ↦ none
    | some pr ↦
        let est = worst_case pr prompt most in
        max_micros prices prompt most (if ltb_ℤ best est then est else best) ts
  ]

  -- `(0, false)` is `none`; no pricing at all is `none` for `prices`
  unfoldable pub estimate_max_micros :
      Option (Bytes → Option (Price fl)) → List Bytes → ℤ → ℤ → Option ℤ
  unfolding max_micros
  estimate_max_micros none targets prompt_tokens max_tokens = none
  estimate_max_micros (some prices) [] prompt_tokens max_tokens = none
  estimate_max_micros (some prices) (t ∷ ts) prompt_tokens max_tokens =
      max_micros prices (at_least_zero prompt_tokens) (min (at_least_zero max_tokens) 10_000_000)
        (pos 0) (t ∷ ts)

  -- `HasPricing`, on an oracle that may be missing
  unfoldable pub has_pricing : Option (Bytes → Option (Price fl)) → Bytes → Bool
  has_pricing none target = false
  has_pricing (some prices) target = elim (prices target) [ none ↦ false | some _ ↦ true ]
