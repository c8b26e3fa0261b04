-- ===== src/SmartRoute.antt =====
-- internal/smartroute/rules.go and stage.go: the choice between a cheap and a strong target. The regular
-- expressions, the texts' trimming and lower case and the nearest-neighbour vote are parameters;
-- a score is a float. The shadow of a decision and the metrics are left out.
mod Examples
pub mod Choice
use proofgate.Base.{
  ℕ, ◌+◌, ◌*◌, ◌==◌, Bool, true, false, not, ◌&&◌, ◌||◌, Option, none, some, List, [], ◌∷◌, ltb,
  if◌then◌else◌,
}
use proofgate.Base.Int.{ℤ, ◌+ℤ◌}
use proofgate.Base.Bytes.{Bytes, codes, str_eq}
use proofgate.Base.Float.{Floats}
use proofgate.Api.{Message, ChatRequest, plain_text, estimate_prompt_tokens}
use proofgate.RateLimit.Stage.{has_prefix}
use proofgate.Router.Breaker.{Target, target_eq}
use proofgate.Router.Route.{parse_target, is_empty, Route, Router, plan, order}

pub data Decision : Type 0 where
  cheap strong uncertain : Decision

pub data Reason : Type 0 where
  rule_code rule_math rule_long_context rule_simple_factual rule_greeting rule_none knn_confident :
      Reason

pub record Classification : Type 0 where
  pub decision : Decision
  pub reason : Reason

-- Code of other packages: regexp and strings
pub record Texts : Type 0 where
  pub is_code : Bytes → Bool
  pub is_math : Bytes → Bool
  pub is_greeting : Bytes → Bool
  pub is_factual : Bytes → Bool
  pub trim_space : Bytes → Bytes
  pub to_lower : Bytes → Bytes

-- The text of the last message of the user, where `found` is the last one so far
unfoldable pub last_user : Bytes → List Message → Bytes
last_user found [] = found
last_user found (m ∷ ms) =
    last_user (if str_eq m.role (codes "user") then plain_text m.content else found) ms

unfoldable pub prompt_text : ChatRequest → Bytes
unfolding last_user
prompt_text r = last_user [] r.messages

unfoldable pub is_short_question : Texts → ℕ → Bytes → Bool
is_short_question x tokens trimmed =
    ltb tokens 100
    && (has_prefix (x.to_lower trimmed) (codes "what is ")
        || has_prefix (x.to_lower trimmed) (codes "define "))

unfoldable pub classify : Texts → ChatRequest → ℕ → Classification
unfolding is_short_question
classify x req max_tokens_for_cheap =
    let most = if max_tokens_for_cheap == 0 then 1_500 else max_tokens_for_cheap in
    let tokens = estimate_prompt_tokens req in
    let text = prompt_text req in
    let trimmed = x.trim_space text in
    if ltb most tokens
    then record { decision = strong; reason = rule_long_context }
    else if x.is_code text
    then record { decision = strong; reason = rule_code }
    else if x.is_math text
    then record { decision = strong; reason = rule_math }
    else if x.is_greeting trimmed
    then record { decision = cheap; reason = rule_greeting }
    else if x.is_factual trimmed
    then record { decision = cheap; reason = rule_simple_factual }
    else if is_short_question x tokens trimmed
    then record { decision = cheap; reason = rule_simple_factual }
    else record { decision = uncertain; reason = rule_none }

abbrev pub is_uncertain : Decision → Bool
is_uncertain uncertain = true
is_uncertain _ = false

abbrev pub is_cheap : Decision → Bool
is_cheap cheap = true
is_cheap _ = false

unfoldable pub times_four : ℤ → ℤ
times_four n = (n +ℤ n) +ℤ (n +ℤ n)

module _ (fl : Floats) where
  open fl use {Float, of_ℕ, div, le}

  pub record SmartConfig : Type 0 where
    pub mode : Bytes
    pub cheap_target : Bytes
    pub strong_target : Bytes
    pub max_tokens_for_cheap : ℕ
    pub knn_enabled : Bool
    pub confidence_threshold : Float

  -- The classification and the score; the vote is there when the stage has one, and may fail.
  unfoldable pub decide :
      Texts
      → SmartConfig
      → Option (Bytes → Option (Classification × Float))
      → ChatRequest
      → Classification × Float
  decide x cfg knn req =
      let rule = classify x req cfg.max_tokens_for_cheap in
      let voted : Option (Classification × Float) = elim knn [
        | none ↦ none
        | some vote ↦ vote (prompt_text req)
      ] in
      let (class, score) : Classification × Float =
        if is_uncertain rule.decision && cfg.knn_enabled
        then elim voted [
          | none ↦ (rule, of_ℕ 1)
          | some (vote, s) ↦ if le cfg.confidence_threshold s then (vote, s) else (rule, of_ℕ 1)
        ]
        else (rule, of_ℕ 1) in
      if is_uncertain class.decision
      then (record class { decision = strong }, div (of_ℕ 1) (of_ℕ 2))
      else (class, score)

  -- What the stage reads and writes of a call. `routing` is the three values of the decision, and
  -- `cost` is `CostMicros`.
  pub record SmartCall : Type 0 where
    pub request : ChatRequest
    pub config : Option SmartConfig  -- none without a route
    pub target : Target
    pub routing : Option (Classification × Float)
    pub cache_status : Bytes
    pub cost : ℤ

  unfoldable pub before :
      Texts → Option (Bytes → Option (Classification × Float)) → SmartCall → SmartCall
  unfolding decide
  before x knn c = elim c.config [
    | none ↦ c
    | some cfg ↦
        let (class, score) = decide x cfg knn c.request in
        let noted = record c { routing = some (class, score) } in
        let wanted = if is_cheap class.decision then cfg.cheap_target else cfg.strong_target in
        if is_empty cfg.mode || str_eq cfg.mode (codes "off")
        then c
        else if str_eq cfg.mode (codes "on")
        then elim (parse_target wanted) [ none ↦ noted | some t ↦ record noted { target = t } ]
        else noted
  ]

  pub record RoutingDecision : Type 0 where
    pub decision : Decision
    pub reason : Reason
    pub score : Float
    pub cost : ℤ
    pub counterfactual : ℤ

  -- The decision that `After` emits, if any
  unfoldable pub after : SmartCall → Option RoutingDecision
  after c = elim c.routing [
    | none ↦ none
    | some (class, score) ↦ elim c.config [
      | none ↦ none
      | some cfg ↦
          if has_prefix c.cache_status (codes "hit-")
          then none
          else some (record {
            decision = class.decision;
            reason = class.reason;
            score = score;
            cost = c.cost;
            counterfactual = if is_cheap class.decision then times_four c.cost else c.cost;
          })
    ]
  ]

  unfoldable pub without : Target → List Target → List Target
  without t [] = []
  without t (u ∷ us) = let rest = without t us in if target_eq u t then rest else u ∷ rest

  -- `planFor` of internal/server/exec.go
  unfoldable pub plan_for : Router fl → Route → Target → ChatRequest → List Target
  unfolding without
  plan_for r rt t req =
      let planned = plan fl r rt (some req) in
      if is_empty t.provider || is_empty t.model
      then planned
      else order fl r (t ∷ without t planned)
