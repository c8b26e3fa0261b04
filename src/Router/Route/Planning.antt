-- ===== src/Router/Route/Planning.antt =====
-- `Plan` (internal/router/route.go): which targets it keeps, and in which order.
use mathlib.Core.List.{Perm, foldr}
use mathlib.Core.List.Perm
use native.Mathlib.Nat.{ℕ_set}
use proofgate.Base.{
  ℕ, suc, ◌≡◌, ◌∙◌, refl, ap, Bool, false, not, ◌&&◌, ◌||◌, Option, List, [], ◌∷◌, arith,
  Bool-cases, inl, inr, if◌then◌else◌,
}
use proofgate.Base.Bytes.{codes, str_eq}
use proofgate.Base.Float.{Floats}
use proofgate.Api.{ChatRequest}
use proofgate.Router.Breaker.{Target, target_eq}
use proofgate.Router.Breaker.Laws.{target_eq_iff}
use proofgate.Router.Route.{
  Route, Router, blended_price, admits, filter_compatible, insert_stable, sort_stable, candidates,
  plan, is_empty,
}
use proofgate.Router.Route.Tiers.{IsTiered, order_stable_partition, order-perm}

module _ (fl : Floats) (r : Router fl) where
  insert_stable-perm : (t : Target) (ts : List Target) → Perm (insert_stable fl r t ts) (t ∷ ts)
  unfolding insert_stable
  insert_stable-perm t [] = Perm.refl (t ∷ [])
  insert_stable-perm t (u ∷ us) =
      elim (Bool-cases (fl.lt (blended_price fl r u) (blended_price fl r t))) [
        | inl e ↦ rw e (Perm.trans (Perm.cons u (insert_stable-perm t us)) (Perm.swap t u us))
        | inr e ↦ rw e (Perm.refl (t ∷ u ∷ us))
      ]

  sort_stable-perm : (ts : List Target) → Perm (sort_stable fl r ts) ts
  unfolding sort_stable
  sort_stable-perm [] = Perm.refl []
  sort_stable-perm (t ∷ ts) =
      Perm.trans (insert_stable-perm t (sort_stable fl r ts)) (Perm.cons t (sort_stable-perm ts))

  -- How often a target stands in a list, and whether the router admits one of its targets.
  abbrev pub counts : Target → Target → ℕ → ℕ
  counts u t n = if target_eq t u then suc n else n

  abbrev pub listed : Target → List Target → ℕ
  listed u ts = foldr (counts u) 0 ts

  abbrev pub any_admitted : Option ChatRequest → List Target → Bool
  any_admitted request [] = false
  any_admitted request (t ∷ ts) = admits fl r request t || any_admitted request ts

  listed-perm : (u : Target) (xs ys : List Target) → Perm xs ys → listed u xs ≡ listed u ys
  listed-perm u xs ys p = Perm.foldr-eq ℕ_set (counts u) (λ a b n. ground arith) p 0

  listed-filter_compatible :
      (request : Option ChatRequest) (u : Target) (ts : List Target)
      → listed u (filter_compatible fl r request ts)
        ≡ (if admits fl r request u then listed u ts else 0)
  unfolding filter_compatible
  listed-filter_compatible request u [] = ground arith
  listed-filter_compatible request u (t ∷ ts) = elim (Bool-cases (target_eq t u)) [
    | inl e ↦
        let same : admits fl r request t ≡ admits fl r request u =
          ap (admits fl r request) ((target_eq_iff t u).0 e) in
        ground (arith, e, same, listed-filter_compatible request u ts)
    | inr e ↦ ground (arith, e, listed-filter_compatible request u ts)
  ]

  is_empty-filter_compatible :
      (request : Option ChatRequest) (ts : List Target)
      → is_empty (filter_compatible fl r request ts) ≡ not (any_admitted request ts)
  unfolding filter_compatible
  is_empty-filter_compatible request [] = refl
  is_empty-filter_compatible request (t ∷ ts) =
      ground (arith, is_empty-filter_compatible request ts)

  listed-candidates :
      (rt : Route) (request : Option ChatRequest) (u : Target)
      → listed u (candidates fl r rt request) ≡ (
          if any_admitted request rt.targets && not (admits fl r request u)
          then 0
          else listed u rt.targets)
  unfolding candidates
  listed-candidates rt request u = ground (
    arith,
    is_empty-filter_compatible request rt.targets,
    listed-filter_compatible request u rt.targets,
  )

  plan-perm :
      (rt : Route) (request : Option ChatRequest)
      → Perm (plan fl r rt request) (candidates fl r rt request)
  unfolding plan
  plan-perm rt request = elim (Bool-cases (str_eq rt.strategy (codes "cheapest"))) [
    | inl e ↦ rw e (
        Perm.trans (order-perm fl r (sort_stable fl r (candidates fl r rt request)))
          (sort_stable-perm (candidates fl r rt request)))
    | inr e ↦ rw e (order-perm fl r (candidates fl r rt request))
  ]

  plan-IsTiered : (rt : Route) (request : Option ChatRequest) → IsTiered fl r (plan fl r rt request)
  unfolding plan
  plan-IsTiered rt request = (order_stable_partition fl r _).0

  -- A plan holds every target as often as the route lists it, but for the targets that are not
  -- compatible with the request where some target of the route is: these it does not hold. Healthy
  -- targets come first and those with an open breaker last.
  pub plan_sound :
      (rt : Route) (request : Option ChatRequest)
      → ((u : Target)
          → listed u (plan fl r rt request) ≡ (
              if any_admitted request rt.targets && not (admits fl r request u)
              then 0
              else listed u rt.targets))
        × IsTiered fl r (plan fl r rt request)
  plan_sound rt request = (
    λ u. listed-perm u _ _ (plan-perm rt request) ∙ listed-candidates rt request u,
    plan-IsTiered rt request,
  )
