-- ===== src/Budget/Stage.antt =====
-- The pipeline's stage of internal/budget/budget.go, over any ledger. A call carries the fields that
-- the stage reads and writes: `reserved` and `month` are its entries of `Values`, `remaining` is the
-- response header in micros, and `failed_open` tells that `onFailOpen` was called. The limit is
-- `BudgetMicros` of the tenant, and the month is that of the stage's clock.
pub mod Books
pub mod Amounts
pub mod Balance
use proofgate.Base.{
  ◌==◌, ℕ, Bool, true, false, not, ◌&&◌, ◌||◌, Option, none, some, List, [], ◌∷◌, ◌++◌, map,
  if◌then◌else◌,
}
use proofgate.Base.Int.{ℤ, pos, ◌+ℤ◌, ◌-ℤ◌, leb_ℤ, ltb_ℤ}
use proofgate.Base.Bytes.{Bytes, codes, str_eq}
use proofgate.Base.Float.{Floats}
use proofgate.Api.{ChatRequest, estimate_prompt_tokens, effective_max_tokens}
use proofgate.Api.Errors.{ApiError, budget_exceeded}
use proofgate.Pipeline.{Verdict, go_on, failed}
use proofgate.Router.Breaker.{Target}
use proofgate.Router.Route.{Route, SmartRouteConfig, Price, to_string, is_empty}
use proofgate.Budget.Pricing.{estimate_max_micros}
use proofgate.Budget.Ledger.{Ledger, clamped}

pub record BudgetCall : Type 0 where
  pub tenant_id : Bytes
  pub strict : Bool
  pub limit : ℤ
  pub target : Target
  pub route : Option Route
  pub request : Option ChatRequest
  pub cost_micros : ℤ
  pub hedge_cost_micros : ℤ
  pub reserved : Option ℤ
  pub month : Bytes
  pub remaining : Option ℤ
  pub failed_open : Bool

abbrev pub unpriced_target : ApiError
unpriced_target = record {
  status = 500;
  kind = codes "api_error";
  code = codes "unpriced_target";
  retry_after = 0;
}

abbrev pub budget_unavailable : ApiError
budget_unavailable = record {
  status = 503;
  kind = codes "api_error";
  code = codes "budget_unavailable";
  retry_after = 0;
}

pub is_seen : Bytes → List Bytes → Bool
is_seen s [] = false
is_seen s (t ∷ ts) = str_eq s t || is_seen s ts

-- `if !seen[ts] { seen[ts] = true; targets = append(targets, ts) }`
pub add_unseen : List Bytes → Bytes → List Bytes
unfolding is_seen
add_unseen targets s = if is_seen s targets then targets else targets ++ s ∷ []

pub add_all_unseen : List Bytes → List Bytes → List Bytes
unfolding add_unseen
add_all_unseen targets [] = targets
add_all_unseen targets (s ∷ ss) = add_all_unseen (add_unseen targets s) ss

pub add_configured : List Bytes → Bytes → List Bytes
unfolding add_unseen
add_configured targets s = if is_empty s then targets else add_unseen targets s

unfoldable pub route_targets : Route → List Bytes
unfolding add_all_unseen add_configured
route_targets rt =
    let targets = add_all_unseen [] (map to_string rt.targets) in
    let smart = rt.smart_route in
    if str_eq smart.mode (codes "off") || is_empty smart.mode
    then targets
    else add_configured (add_configured targets smart.cheap_target) smart.strong_target

unfoldable pub call_targets : BudgetCall → List Bytes
unfolding route_targets
call_targets c =
    if not (is_empty c.target.provider) && not (is_empty c.target.model)
    then to_string c.target ∷ []
    else elim c.route [
      | some rt ↦ route_targets rt
      | none ↦ elim c.request [ none ↦ [] | some r ↦ if is_empty r.model then [] else r.model ∷ [] ]
    ]

unfoldable pub call_tokens : BudgetCall → ℕ → ℕ × ℕ
call_tokens c default_max = elim c.request [
  | none ↦ (0, default_max)
  | some r ↦ (estimate_prompt_tokens r, effective_max_tokens r default_max)
]

module _ (fl : Floats) where
  pub record Settings : Type 0 where
    pub pricing : Option (Bytes → Option (Price fl))
    pub reserve_strict : Bool
    pub require_pricing : Bool
    pub default_max : ℕ

  -- `NewStage`; a default that is not positive is 0 here
  unfoldable pub new_stage : Option Settings → Settings
  new_stage none = record {
    pricing = none;
    reserve_strict = true;
    require_pricing = false;
    default_max = 8192;
  }
  new_stage (some opt) = record opt {
    default_max = if opt.default_max == 0 then 8192 else opt.default_max;
  }

  -- the estimate; `none` where the stage refuses an unpriced target
  unfoldable pub estimate : Settings → BudgetCall → Option ℤ
  unfolding call_targets call_tokens
  estimate st c =
      let targets = call_targets c in
      let (prompt_tokens, max_tokens) = call_tokens c st.default_max in
      elim st.pricing [
        | none ↦ some (pos 0)
        | some prices ↦
            if is_empty targets
            then some (pos 0)
            else elim (estimate_max_micros fl (some prices) targets (pos prompt_tokens)
                (pos max_tokens)) [
                  | some est ↦ some est
                  | none ↦ if st.require_pricing then none else some (pos 0)
                ]
      ]

-- `limit == 0`
abbrev pub is_unlimited : BudgetCall → Bool
is_unlimited c = leb_ℤ c.limit (pos 0) && leb_ℤ (pos 0) c.limit

abbrev pub total_cost : BudgetCall → ℤ
total_cost c = c.cost_micros +ℤ c.hedge_cost_micros

module _ (L : Ledger) where
  -- what `Before` does with the answer of `Reserve`
  unfoldable pub reserved_call :
      Bytes → ℤ → BudgetCall → Option (Bool × ℤ) × L.World → Verdict ApiError × BudgetCall × L.World
  reserved_call month est c (none, w) =
      if c.strict
      then (failed budget_unavailable, c, w)
      else (go_on, record c { failed_open = true }, w)
  reserved_call month est c (some (false, spent), w) =
      (failed budget_exceeded, record c { remaining = some (clamped (c.limit -ℤ spent)) }, w)
  reserved_call month est c (some (true, spent), w) = (
    go_on,
    record c { reserved = some est; month = month; remaining = some (c.limit -ℤ spent) },
    w,
  )

  -- `reserve: off`
  unfoldable pub check_spent :
      L.World → Bytes → BudgetCall → Verdict ApiError × BudgetCall × L.World
  check_spent w month c =
      let c' = record c { month = month } in
      elim (L.spent w c.tenant_id month) [
        | none ↦ if c.strict then (failed budget_unavailable, c', w) else (go_on, c', w)
        | some spent ↦
            if leb_ℤ c.limit spent
            then (failed budget_exceeded, c', w)
            else (go_on, record c' { remaining = some (c.limit -ℤ spent) }, w)
      ]

  unfoldable pub before :
      (fl : Floats)
      → Settings fl
      → L.World
      → Bytes
      → BudgetCall
      → Verdict ApiError × BudgetCall × L.World
  unfolding reserved_call check_spent
  before fl st w month c =
      if is_unlimited c
      then (go_on, c, w)
      else if st.reserve_strict
      then elim (estimate fl st c) [
        | none ↦ (failed unpriced_target, c, w)
        | some est ↦ reserved_call month est c (L.reserve w c.tenant_id month est c.limit)
      ]
      else check_spent w month c

  -- `true` unless the ledger returned an error, which is only logged
  unfoldable pub after : L.World → Bytes → BudgetCall → Bool × L.World
  after w now_month c =
      let month = if is_empty c.month then now_month else c.month in
      let total = total_cost c in
      elim c.reserved [
        | some reserved ↦
            let delta = total -ℤ reserved in
            if leb_ℤ delta (pos 0) && leb_ℤ (pos 0) delta
            then (true, w)
            else L.add w c.tenant_id month delta
        | none ↦ if leb_ℤ total (pos 0) then (true, w) else L.add w c.tenant_id month total
      ]
