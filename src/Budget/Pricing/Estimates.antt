-- ===== src/Budget/Pricing/Estimates.antt =====
-- What `EstimateMaxMicros` (internal/budget/pricing.go) promises: the worst case over all targets.
use proofgate.Base.{
  ℕ, min, ◌≡◌, refl, sym, ◌∙◌, Option, some, List, [], ◌∷◌, inl, inr, arith, All, if◌then◌else◌,
  Option-cases,
}
use proofgate.Base.Int.{ℤ, pos, ltb_ℤ, ◌≤ℤ◌}
use proofgate.Base.Bytes.{Bytes}
use proofgate.Base.Float.{Floats}
use proofgate.Router.Route.{Price}
use proofgate.Budget.Pricing.{worst_case, max_micros, estimate_max_micros, at_least_zero}

module _ (fl : Floats) where
  -- The target has a price, and its worst case is at most `est`.
  abbrev pub IsCovered : (Bytes → Option (Price fl)) → ℕ → ℕ → ℤ → Bytes → Type 0
  IsCovered prices prompt most est t =
      (pr : Price fl) × (prices t ≡ some pr) × (worst_case fl pr prompt most ≤ℤ est)

  larger : (a b : ℤ) → ℤ
  larger a b = if ltb_ℤ a b then b else a

  larger_ge : (a b c : ℤ) → larger a b ≤ℤ c → (a ≤ℤ c) × (b ≤ℤ c)
  unfolding larger
  larger_ge (pos a) (pos b) (pos c) h = ground arith
  larger_ge a b c h = ground arith

  max_micros_step :
      (prices : Bytes → Option (Price fl)) (prompt most : ℕ) (best : ℤ) (t : Bytes)
      (ts : List Bytes) (pr : Price fl)
      → prices t ≡ some pr
      → max_micros fl prices prompt most best (t ∷ ts)
        ≡ max_micros fl prices prompt most (larger best (worst_case fl pr prompt most)) ts
  unfolding max_micros larger
  max_micros_step prices prompt most best t ts pr e = rw (e, max_micros) refl

  max_micros_covers :
      (prices : Bytes → Option (Price fl)) (prompt most : ℕ) (best est : ℤ) (ts : List Bytes)
      → max_micros fl prices prompt most best ts ≡ some est
      → (best ≤ℤ est) × All (IsCovered prices prompt most est) ts
  unfolding max_micros
  max_micros_covers prices prompt most best est [] h = ground arith
  max_micros_covers prices prompt most best est (t ∷ ts) h = elim (Option-cases (prices t)) [
    | inl e ↦ ground arith
    | inr (pr, e) ↦
        let worst = worst_case fl pr prompt most in
        let ih =
          max_micros_covers prices prompt most (larger best worst) est ts
            (sym (max_micros_step prices prompt most best t ts pr e) ∙ h) in
        let bounds = larger_ge best worst est ih.0 in (bounds.0, ((pr, e, bounds.1), ih.1))
  ]

  -- Where an estimate is given, it is not negative, every target has a price, and no target's worst
  -- case exceeds it, with the most tokens capped at ten million.
  pub estimate_covers :
      (prices : Bytes → Option (Price fl)) (targets : List Bytes) (prompt_tokens max_tokens est : ℤ)
      → estimate_max_micros fl (some prices) targets prompt_tokens max_tokens ≡ some est
      → (pos 0 ≤ℤ est)
        × All
            (IsCovered prices
              (at_least_zero prompt_tokens)
              (min (at_least_zero max_tokens) 10_000_000)
              est)
            targets
  unfolding estimate_max_micros
  estimate_covers prices [] prompt_tokens max_tokens est h = ground arith
  estimate_covers prices (t ∷ ts) prompt_tokens max_tokens est h =
      max_micros_covers prices (at_least_zero prompt_tokens)
        (min (at_least_zero max_tokens) 10_000_000) (pos 0) est (t ∷ ts) h
