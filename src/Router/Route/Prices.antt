-- ===== src/Router/Route/Prices.antt =====
-- `Plan` under the strategy `cheapest` (internal/router/route.go).
use proofgate.Base.{
  ℕ, ◌==◌, ◌≡◌, true, false, Option, List, [], ◌∷◌, All, All-map, Bool-cases, inl, inr,
}
use proofgate.Base.Bytes.{codes, str_eq_refl}
use proofgate.Base.Float.{Floats}
use proofgate.Api.{ChatRequest}
use proofgate.Router.Breaker.{Target}
use proofgate.Router.Route.{
  Route, Router, blended_price, admits, filter_compatible, insert_stable, sort_stable, candidates,
  plan, is_empty,
}
use proofgate.Router.Route.Tiers.{tier, pick, order_stable_partition}

module _ (fl : Floats) (r : Router fl) where
  -- No target stands behind a dearer one.
  abbrev pub IsCheapestFirst : List Target → Type 0
  IsCheapestFirst [] = Unit
  IsCheapestFirst (t ∷ ts) =
      All (λ u. fl.lt (blended_price fl r u) (blended_price fl r t) ≡ false) ts × IsCheapestFirst ts

  -- The prices of the targets are numbers.
  abbrev pub Priced : List Target → Type 0
  Priced ts = All (λ t. fl.is_nan (blended_price fl r t) ≡ false) ts

  All-filter_compatible {κ} :
      (P : Target → Type κ) (request : Option ChatRequest) (ts : List Target)
      → All P ts
      → All P (filter_compatible fl r request ts)
  unfolding filter_compatible
  All-filter_compatible P request [] h = tt
  All-filter_compatible P request (t ∷ ts) h = elim (Bool-cases (admits fl r request t)) [
    | inl e ↦ rw e (h.0, All-filter_compatible P request ts h.1)
    | inr e ↦ rw e (All-filter_compatible P request ts h.1)
  ]

  All-candidates {κ} :
      (P : Target → Type κ) (rt : Route) (request : Option ChatRequest)
      → All P rt.targets
      → All P (candidates fl r rt request)
  unfolding candidates
  All-candidates P rt request h =
      elim (Bool-cases (is_empty (filter_compatible fl r request rt.targets))) [
        | inl e ↦ rw e h
        | inr e ↦ rw e (All-filter_compatible P request rt.targets h)
      ]

  insert_stable-All {κ} :
      (P : Target → Type κ) (t : Target) (ts : List Target)
      → P t
      → All P ts
      → All P (insert_stable fl r t ts)
  unfolding insert_stable
  insert_stable-All P t [] h hs = (h, tt)
  insert_stable-All P t (v ∷ vs) h hs =
      elim (Bool-cases (fl.lt (blended_price fl r v) (blended_price fl r t))) [
        | inl e ↦ rw e (hs.0, insert_stable-All P t vs h hs.1)
        | inr e ↦ rw e (h, hs)
      ]

  sort_stable-All {κ} :
      (P : Target → Type κ) (ts : List Target) → All P ts → All P (sort_stable fl r ts)
  unfolding sort_stable
  sort_stable-All P [] h = tt
  sort_stable-All P (t ∷ ts) h =
      insert_stable-All P t (sort_stable fl r ts) h.0 (sort_stable-All P ts h.1)

  module _ (asym : (a b : fl.Float) → fl.lt a b ≡ true → fl.lt b a ≡ false)
      (neg_trans : (a b c : fl.Float)
        → fl.is_nan b ≡ false
        → fl.lt a b ≡ false
        → fl.lt b c ≡ false
        → fl.lt a c ≡ false) where
    insert_stable-IsCheapestFirst :
        (t : Target) (ts : List Target)
        → Priced ts
        → IsCheapestFirst ts
        → IsCheapestFirst (insert_stable fl r t ts)
    unfolding insert_stable
    insert_stable-IsCheapestFirst t [] p h = (tt, tt)
    insert_stable-IsCheapestFirst t (u ∷ us) p h =
        elim (Bool-cases (fl.lt (blended_price fl r u) (blended_price fl r t))) [
          | inl e ↦ rw e (
            insert_stable-All _ t us (asym _ _ e) h.0,
            insert_stable-IsCheapestFirst t us p.1 h.1,
          )
          | inr e ↦ rw e ((e, All-map us (λ v k. neg_trans _ _ _ p.0 k e) h.0), h)
        ]

    sort_stable-IsCheapestFirst :
        (ts : List Target) → Priced ts → IsCheapestFirst (sort_stable fl r ts)
    unfolding sort_stable
    sort_stable-IsCheapestFirst [] p = tt
    sort_stable-IsCheapestFirst (t ∷ ts) p =
        insert_stable-IsCheapestFirst t (sort_stable fl r ts) (sort_stable-All _ ts p.1)
          (sort_stable-IsCheapestFirst ts p.1)

    pick-sub {κ} :
        (P : Target → Type κ) (k : ℕ) (ts : List Target) → All P ts → All P (pick fl r k ts)
    pick-sub P k [] h = tt
    pick-sub P k (t ∷ ts) h = elim (Bool-cases (tier fl r t == k)) [
      | inl e ↦ rw e (h.0, pick-sub P k ts h.1)
      | inr e ↦ rw e (pick-sub P k ts h.1)
    ]

    pick-IsCheapestFirst :
        (k : ℕ) (ts : List Target) → IsCheapestFirst ts → IsCheapestFirst (pick fl r k ts)
    pick-IsCheapestFirst k [] h = tt
    pick-IsCheapestFirst k (t ∷ ts) h = elim (Bool-cases (tier fl r t == k)) [
      | inl e ↦ rw e (pick-sub _ k ts h.0, pick-IsCheapestFirst k ts h.1)
      | inr e ↦ rw e (pick-IsCheapestFirst k ts h.1)
    ]

    -- Under the strategy `cheapest`, when no price of a target of the route is NaN, the targets of each
    -- tier of a plan come cheapest first: over floats where no two are below each other, and where `a` is not
    -- below `c` when `a` is not below a number `b` and `b` not below `c`.
    pub plan_cheapest :
        (rt : Route) (request : Option ChatRequest) (k : ℕ)
        → rt.strategy ≡ codes "cheapest"
        → Priced rt.targets
        → IsCheapestFirst (pick fl r k (plan fl r rt request))
    unfolding plan
    plan_cheapest rt request k e p =
        let ts = candidates fl r rt request in
        let priced = All-candidates _ rt request p in
        rw (e, str_eq_refl)
          (rw ((order_stable_partition fl r (sort_stable fl r ts)).1 k)
            (pick-IsCheapestFirst k (sort_stable fl r ts) (sort_stable-IsCheapestFirst ts priced)))
