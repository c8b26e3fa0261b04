-- ===== src/SmartRoute/Choice.antt =====
-- When a call goes to the cheap target, and that the chosen target is tried first.
use proofgate.Base.{
  ℕ, ◌≤◌, ◌≡◌, refl, ◌∙◌, true, false, ◌||◌, Option, some, List, ◌∷◌, ◌++◌, if◌then◌else◌, arith,
  Bool-cases, inl, inr, ◌==◌,
}
use proofgate.Base.Bytes.{Bytes, codes, str_eq}
use proofgate.Base.Float.{Floats}
use proofgate.Api.{ChatRequest, estimate_prompt_tokens}
use proofgate.Router.Breaker.{Target}
use proofgate.Router.Route.{parse_target, is_empty, Route, Router, plan, order}
use proofgate.Router.Route.Tiers.{pick, order-pick}
use proofgate.SmartRoute.{
  strong, Classification, Texts, prompt_text, classify, is_uncertain, is_cheap, SmartConfig, decide,
  SmartCall, before, without, plan_for,
}

-- The limit of tokens for the cheap target, with its default.
abbrev pub token_limit : ℕ → ℕ
token_limit most = if most == 0 then 1_500 else most

-- A prompt that the cheap target may get: short enough, and without code or mathematics.
pub record IsEasy (x : Texts) (req : ChatRequest) (most : ℕ) : Type 0 where
  pub short : estimate_prompt_tokens req ≤ token_limit most
  pub no_code : x.is_code (prompt_text req) ≡ false
  pub no_math : x.is_math (prompt_text req) ≡ false

not_strong :
    (x : Texts) (req : ChatRequest) (most : ℕ)
    → is_cheap (classify x req most).decision || is_uncertain (classify x req most).decision ≡ true
    → IsEasy x req most
unfolding classify
not_strong x req most h = ground arith

module _ (fl : Floats) where
  decide_strong :
      (x : Texts) (cfg : SmartConfig fl) (knn : Option (Bytes → Option (Classification × fl.Float)))
      (req : ChatRequest)
      → is_cheap (classify x req cfg.max_tokens_for_cheap).decision
          || is_uncertain (classify x req cfg.max_tokens_for_cheap).decision
        ≡ false
      → is_cheap (decide fl x cfg knn req).0.decision ≡ false
  unfolding decide
  decide_strong x cfg knn req h = ground arith

  certain :
      (class : Classification) (s t : fl.Float)
      → let r : Classification × fl.Float =
          if is_uncertain class.decision
          then (record class { decision = strong }, t)
          else (class, s) in
        is_uncertain r.0.decision ≡ false
  certain class s t = ground arith

  decide_certain :
      (x : Texts) (cfg : SmartConfig fl) (knn : Option (Bytes → Option (Classification × fl.Float)))
      (req : ChatRequest)
      → is_uncertain (decide fl x cfg knn req).0.decision ≡ false
  unfolding decide
  decide_certain x cfg knn req = certain _ _ _

  -- A call is decided cheap only when its prompt is within the limit of tokens and no rule finds code
  -- or mathematics in it, whatever the vote of the neighbours says; and no decision is left
  -- uncertain.
  pub decide_cheap :
      (x : Texts) (cfg : SmartConfig fl) (knn : Option (Bytes → Option (Classification × fl.Float)))
      (req : ChatRequest)
      → (is_cheap (decide fl x cfg knn req).0.decision ≡ true
          → IsEasy x req cfg.max_tokens_for_cheap)
        × (is_uncertain (decide fl x cfg knn req).0.decision ≡ false)
  decide_cheap x cfg knn req =
      let rule = classify x req cfg.max_tokens_for_cheap in
      (
        elim (Bool-cases (is_cheap rule.decision || is_uncertain rule.decision)) [
          | inl h ↦ λ e. not_strong x req cfg.max_tokens_for_cheap h
          | inr h ↦ λ e. absurd (ground (arith, decide_strong x cfg knn req h))
        ],
        decide_certain x cfg knn req,
      )

  before_target :
      (x : Texts) (knn : Option (Bytes → Option (Classification × fl.Float))) (c : SmartCall fl)
      (cfg : SmartConfig fl) (t : Target)
      → c.config ≡ some cfg
      → cfg.mode ≡ codes "on"
      → parse_target (
          if is_cheap (decide fl x cfg knn c.request).0.decision
          then cfg.cheap_target
          else cfg.strong_target)
        ≡ some t
      → (before fl x knn c).target ≡ t
  unfolding before str_eq
  before_target x knn c cfg t e on p = rw (e, before) (ground (arith, on, p))

  pick_first :
      (r : Router fl) (t : Target) (ts : List Target)
      → r.is_open t ≡ false
      → r.degraded t ≡ false
      → (rest : List Target) × (order fl r (t ∷ ts) ≡ t ∷ rest)
  pick_first r t ts o d = (
    (pick fl r 0 ts ++ pick fl r 1 (t ∷ ts)) ++ pick fl r 2 (t ∷ ts),
    order-pick fl r (t ∷ ts) ∙ rw (o, d) refl,
  )

  -- In a route whose mode is on, when the target of the decision is the name of a provider and a model,
  -- its breaker is not open and it is not degraded, the call's plan starts with it: with the
  -- cheap target only for a prompt within the limit of tokens and without code or mathematics, and
  -- with the strong one otherwise.
  pub chosen_first :
      (x : Texts) (knn : Option (Bytes → Option (Classification × fl.Float))) (c : SmartCall fl)
      (cfg : SmartConfig fl) (r : Router fl) (rt : Route) (t : Target)
      → c.config ≡ some cfg
      → cfg.mode ≡ codes "on"
      → parse_target (
          if is_cheap (decide fl x cfg knn c.request).0.decision
          then cfg.cheap_target
          else cfg.strong_target)
        ≡ some t
      → is_empty t.provider || is_empty t.model ≡ false
      → r.is_open t ≡ false
      → r.degraded t ≡ false
      → ((rest : List Target) × (plan_for fl r rt (before fl x knn c).target c.request ≡ t ∷ rest))
        × (is_cheap (decide fl x cfg knn c.request).0.decision ≡ true
            → IsEasy x c.request cfg.max_tokens_for_cheap)
  unfolding before plan_for
  chosen_first x knn c cfg r rt t e on p full o d =
      let target : (before fl x knn c).target ≡ t = before_target x knn c cfg t e on p in
      let (rest, first) = pick_first r t (without fl t (plan fl r rt (some c.request))) o d in
      ((rest, rw target (rw full first)), (decide_cheap x cfg knn c.request).0)
