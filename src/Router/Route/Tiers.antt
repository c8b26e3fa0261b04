-- ===== src/Router/Route/Tiers.antt =====
-- `Order` (internal/router/route.go): a stable partition of the plan into three tiers.
use mathlib.Core.List.{Perm, perm_middle}
use mathlib.Core.List.Perm
use proofgate.Base.{
  ℕ, ◌≤◌, ◌==◌, ◌≡◌, refl, List, [], ◌∷◌, ◌++◌, append_assoc, append-nil, arith, All, All-append,
  All-map, ◌<◌, Bool-cases, inl, inr, if◌then◌else◌,
}
use proofgate.Base.Float.{Floats}
use proofgate.Router.Breaker.{Target}
use proofgate.Router.Route.{Router, order_loop, order}

module _ (fl : Floats) (r : Router fl) where
  -- 0 for a healthy target, 1 for a degraded one, 2 for one whose breaker is open
  abbrev pub tier : Target → ℕ
  tier t = if r.is_open t then 2 else if r.degraded t then 1 else 0

  abbrev pub pick : ℕ → List Target → List Target
  pick k [] = []
  pick k (t ∷ ts) = if tier t == k then t ∷ pick k ts else pick k ts

  pick-append : (k : ℕ) (xs ys : List Target) → pick k (xs ++ ys) ≡ pick k xs ++ pick k ys
  pick-append k [] ys = refl
  pick-append k (x ∷ xs) ys = ground (arith, pick-append k xs ys)

  pick-pick : (j k : ℕ) (ts : List Target) → pick j (pick k ts) ≡ (if j == k then pick k ts else [])
  pick-pick j k [] = ground arith
  pick-pick j k (t ∷ ts) = ground (arith, pick-pick j k ts)

  order_loop-pick :
      (ts h s o : List Target)
      → order_loop fl r ts h s o ≡ ((h ++ pick 0 ts) ++ (s ++ pick 1 ts)) ++ (o ++ pick 2 ts)
  unfolding order_loop
  order_loop-pick [] h s o = rw (append-nil, append-nil, append-nil)
  order_loop-pick (t ∷ ts) h s o = ground (
    arith,
    order_loop-pick ts h s (o ++ t ∷ []),
    order_loop-pick ts h (s ++ t ∷ []) o,
    order_loop-pick ts (h ++ t ∷ []) s o,
    append_assoc h (t ∷ []) (pick 0 ts),
    append_assoc s (t ∷ []) (pick 1 ts),
    append_assoc o (t ∷ []) (pick 2 ts),
  )

  pub order-pick : (ts : List Target) → order fl r ts ≡ (pick 0 ts ++ pick 1 ts) ++ pick 2 ts
  unfolding order
  order-pick ts = order_loop-pick ts [] [] []

  -- No target stands behind one of a later tier.
  abbrev pub IsTiered : List Target → Type 0
  IsTiered [] = Unit
  IsTiered (t ∷ ts) = All (λ u. tier t ≤ tier u) ts × IsTiered ts

  pick-All : (k : ℕ) (ts : List Target) → All (λ u. tier u ≡ k) (pick k ts)
  pick-All k [] = tt
  pick-All k (t ∷ ts) = elim (Bool-cases (tier t == k)) [
    | inl e ↦ rw e (ground arith, pick-All k ts)
    | inr e ↦ rw e (pick-All k ts)
  ]

  uniform-IsTiered : (k : ℕ) (ts : List Target) → All (λ u. tier u ≡ k) ts → IsTiered ts
  uniform-IsTiered k [] h = tt
  uniform-IsTiered k (t ∷ ts) h =
      (All-map ts (λ u e. omega (arith, h.0, e)) h.1, uniform-IsTiered k ts h.1)

  IsTiered-append :
      (k : ℕ) (xs ys : List Target)
      → All (λ u. tier u ≤ k) xs
      → All (λ u. k ≤ tier u) ys
      → IsTiered xs
      → IsTiered ys
      → IsTiered (xs ++ ys)
  IsTiered-append k [] ys hx hy tx ty = ty
  IsTiered-append k (x ∷ xs) ys hx hy tx ty = (
    All-append _ xs ys tx.0 (All-map ys (λ u h. omega (arith, hx.0, h)) hy),
    IsTiered-append k xs ys hx.1 hy tx.1 ty,
  )

  pick-IsTiered : (k : ℕ) (ts : List Target) → IsTiered (pick k ts)
  pick-IsTiered k ts = uniform-IsTiered k (pick k ts) (pick-All k ts)

  pick-le : (k j : ℕ) (ts : List Target) → k ≤ j → All (λ u. tier u ≤ j) (pick k ts)
  pick-le k j ts h = All-map (pick k ts) (λ u e. omega (arith, e)) (pick-All k ts)

  le-pick : (k j : ℕ) (ts : List Target) → j ≤ k → All (λ u. j ≤ tier u) (pick k ts)
  le-pick k j ts h = All-map (pick k ts) (λ u e. omega (arith, e)) (pick-All k ts)

  pick_above : (k : ℕ) (ts : List Target) → 2 < k → pick k ts ≡ []
  pick_above k [] h = refl
  pick_above k (t ∷ ts) h = ground (arith, pick_above k ts)

  -- Healthy targets stand in front of degraded ones, and those in front of targets whose breaker is
  -- open; within a tier the plan's order is kept, and no target is lost or added.
  pub order_stable_partition :
      (ts : List Target) → IsTiered (order fl r ts) × ((k : ℕ) → pick k (order fl r ts) ≡ pick k ts)
  order_stable_partition ts = (tiered, stable)
    where
      tiered : IsTiered (order fl r ts)
      tiered = rw order-pick (
          IsTiered-append 1 (pick 0 ts ++ pick 1 ts) (pick 2 ts)
            (All-append _ (pick 0 ts) (pick 1 ts) (pick-le 0 1 ts (omega arith))
              (pick-le 1 1 ts (omega arith)))
            (le-pick 2 1 ts (omega arith))
            (IsTiered-append 0 (pick 0 ts) (pick 1 ts) (pick-le 0 0 ts (omega arith))
              (le-pick 1 0 ts (omega arith)) (pick-IsTiered 0 ts) (pick-IsTiered 1 ts))
            (pick-IsTiered 2 ts))

      stable : (k : ℕ) → pick k (order fl r ts) ≡ pick k ts
      stable k =
          rw (order-pick, pick-append, pick-append, pick-pick, pick-pick, pick-pick)
            (ground (arith, pick_above k ts, append-nil (pick 0 ts), append-nil (pick 1 ts)))

  picks-perm : (ts : List Target) → Perm ((pick 0 ts ++ pick 1 ts) ++ pick 2 ts) ts
  picks-perm [] = Perm.refl []
  picks-perm (t ∷ ts) = elim (Bool-cases (r.is_open t)) [
    | inl e ↦ rw e (
        Perm.trans (perm_middle (pick 0 ts ++ pick 1 ts) (pick 2 ts)) (Perm.cons t (picks-perm ts)))
    | inr e ↦ elim (Bool-cases (r.degraded t)) [
      | inl d ↦
          rw (e, d)
            (Perm.trans (Perm.append_right (pick 2 ts) (perm_middle (pick 0 ts) (pick 1 ts)))
              (Perm.cons t (picks-perm ts)))
      | inr d ↦ rw (e, d) (Perm.cons t (picks-perm ts))
    ]
  ]

  pub order-perm : (ts : List Target) → Perm (order fl r ts) ts
  order-perm ts = rw order-pick (picks-perm ts)
