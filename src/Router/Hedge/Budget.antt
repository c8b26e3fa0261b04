-- ===== src/Router/Hedge/Budget.antt =====
-- `HedgeBudget` of internal/router/hedge.go, over any floating-point numbers.
use proofgate.Base.{Bool, true, false, if◌then◌else◌}
use proofgate.Base.Float.{Floats}

module _ (fl : Floats) where
  open fl use {Float, of_ℕ, add, mul, div, lt}

  pub record HedgeBudget : Type 0 where
    pub max_extra : Float
    pub requests : Float
    pub hedges : Float

  abbrev pub new_hedge_budget : Float → HedgeBudget
  new_hedge_budget max_extra = record { max_extra = max_extra; requests = of_ℕ 0; hedges = of_ℕ 0 }

  unfoldable pub decay : HedgeBudget → HedgeBudget
  decay b =
      if lt (of_ℕ 1_000) b.requests
      then record b { requests = of_ℕ 1_000; hedges = mul b.hedges (div (of_ℕ 1_000) b.requests) }
      else b

  unfoldable pub request : HedgeBudget → HedgeBudget
  unfolding decay
  request b = decay (record b { requests = add b.requests (of_ℕ 1) })

  unfoldable pub allow : HedgeBudget → Bool × HedgeBudget
  allow b =
      if lt (mul b.max_extra b.requests) (add b.hedges (of_ℕ 1))
      then (false, b)
      else (true, record b { hedges = add b.hedges (of_ℕ 1) })
