-- ===== src/Router/Route.antt =====
-- internal/router/route.go. Maps keyed by a name are functions into `Option`; prices are floats.
-- The breakers and the health tracker are seen through the two tests that `Order` makes of them.
mod Examples
pub mod Parsing
pub mod Tiers
pub mod Planning
pub mod Prices
use proofgate.Base.{
  ℕ, ◌+◌, ◌*◌, ◌==◌, Bool, true, false, not, ◌&&◌, ◌||◌, Option, none, some, List, [], ◌∷◌, ◌++◌,
  length, ltb, if◌then◌else◌,
}
use proofgate.Base.Bytes.{Bytes, codes, str_eq}
use proofgate.Base.Float.{Floats}
use proofgate.Api.{ChatRequest}
use proofgate.Router.Breaker.{Target, target_eq}
use proofgate.Router.Capabilities.{Capability, compatible}

-- `Target.String`
unfoldable pub to_string : Target → Bytes
to_string t = t.provider ++ b'/' ∷ t.model

-- `strings.Cut(s, "/")`
unfoldable pub cut : ℕ → Bytes → Option (Bytes × Bytes)
cut sep [] = none
cut sep (c ∷ s) =
    if c == sep
    then some ([], s)
    else elim (cut sep s) [ none ↦ none | some (before, after) ↦ some (c ∷ before, after) ]

abbrev pub is_empty {ℓ} : {A : Type ℓ} → List A → Bool
is_empty [] = true
is_empty (_ ∷ _) = false

unfoldable pub parse_target : Bytes → Option Target
unfolding cut
parse_target s = elim (cut b'/' s) [
  | none ↦ none
  | some (p, m) ↦
      if is_empty p || is_empty m then none else some (record { provider = p; model = m })
]

pub record RetryPolicy : Type 0 where
  pub max_attempts : ℕ
  pub base_delay : ℕ

pub record SmartRouteConfig : Type 0 where
  pub mode : Bytes
  pub cheap_target : Bytes
  pub strong_target : Bytes

-- A route, and the configuration that it is made of. Durations are nanoseconds; the settings of the
-- cache, the guard and the hedge are passed through and left out.
pub record Route : Type 0 where
  pub name : Bytes
  pub targets : List Target
  pub strategy : Bytes
  pub retry : RetryPolicy
  pub timeout : ℕ
  pub deadline : ℕ
  pub first_token_timeout : ℕ
  pub stream_idle_timeout : ℕ
  pub embeddings : Bool
  pub smart_route : SmartRouteConfig

abbrev pub second : ℕ
second = 1_000_000_000

module _ (fl : Floats) where
  open fl use {Float, of_ℕ, add, mul, div, lt}

  pub record Price : Type 0 where
    pub input : Float
    pub output : Float
    pub cached_input : Float

  pub record Router : Type 0 where
    pub routes : Bytes → Option Route
    pub order : List Route
    pub providers : Bytes → Bool
    pub pricing : Bytes → Price
    pub capabilities : Bytes → Option Capability
    pub capability_count : ℕ
    pub is_open : Target → Bool
    pub degraded : Target → Bool

  or_default : ℕ → ℕ → ℕ
  or_default d n = if n == 0 then d else n

  -- one round of the loop over `cfg.Routes` in `New`
  unfoldable pub add_route : Router → Route → Router
  unfolding or_default
  add_route r rc =
      let rt = record rc {
        deadline = or_default (90 * second) rc.deadline;
        first_token_timeout = or_default (15 * second) rc.first_token_timeout;
      } in
      record r {
        routes = λ n. if str_eq rt.name n then some rt else r.routes n;
        order = r.order ++ rt ∷ [];
      }

  unfoldable pub add_routes : Router → List Route → Router
  add_routes r [] = r
  add_routes r (rc ∷ rcs) = add_routes (add_route r rc) rcs

  seen : Target → List Target → Bool
  seen t [] = false
  seen t (u ∷ us) = target_eq t u || seen t us

  -- the loops of `Targets`: `out` holds the targets collected, which are those seen
  unfoldable pub collect : List Target → List Target → List Target
  unfolding seen
  collect out [] = out
  collect out (t ∷ ts) = collect (if seen t out then out else out ++ t ∷ []) ts

  collect_routes : List Target → List Route → List Target
  collect_routes out [] = out
  collect_routes out (rt ∷ rts) = collect_routes (collect out rt.targets) rts

  unfoldable pub targets : Router → List Target
  unfolding collect_routes
  targets r = collect_routes [] r.order

  pub data ResolveError : Type 0 where
    route_forbidden unknown_provider unknown_route : ResolveError

  pub data Resolution : Type 0 where
    resolved : Route → Resolution
    failed : ResolveError → Resolution

  direct_route : Bytes → Target → Route
  direct_route model t = record {
    name = model;
    targets = t ∷ [];
    strategy = codes "fallback";
    retry = record { max_attempts = 2; base_delay = 200_000_000 };
    timeout = 120 * second;
    deadline = 90 * second;
    first_token_timeout = 15 * second;
    stream_idle_timeout = 30 * second;
    embeddings = true;
    smart_route = record { mode = []; cheap_target = []; strong_target = [] };
  }

  unfoldable pub resolve : Router → Bytes → Bool → Resolution
  unfolding direct_route
  resolve r model allow_direct = elim (r.routes model) [
    | some rt ↦ resolved rt
    | none ↦ elim (parse_target model) [
      | none ↦ failed unknown_route
      | some t ↦
          if not allow_direct
          then failed route_forbidden
          else if not (r.providers t.provider)
          then failed unknown_provider
          else resolved (direct_route model t)
    ]
  ]

  unfoldable pub blended_price : Router → Target → Float
  blended_price r t =
      let p = r.pricing (to_string t) in div (add (mul (of_ℕ 3) p.input) p.output) (of_ℕ 4)

  -- the three slices of `Order`, and the loop that fills them
  unfoldable pub order_loop :
      Router → List Target → List Target → List Target → List Target → List Target
  order_loop r [] healthy slow open_targets = (healthy ++ slow) ++ open_targets
  order_loop r (t ∷ ts) healthy slow open_targets =
      let as_open = order_loop r ts healthy slow (open_targets ++ t ∷ []) in
      let as_slow = order_loop r ts healthy (slow ++ t ∷ []) open_targets in
      let as_healthy = order_loop r ts (healthy ++ t ∷ []) slow open_targets in
      if r.is_open t then as_open else if r.degraded t then as_slow else as_healthy

  unfoldable pub order : Router → List Target → List Target
  unfolding order_loop
  order r plan = order_loop r plan [] [] []

  -- the test that lets the filter of `Plan` keep a target
  pub admits : Router → Option ChatRequest → Target → Bool
  admits r none t = true
  admits r (some request) t =
      if ltb 0 r.capability_count
      then elim (r.capabilities (to_string t)) [ none ↦ true | some c ↦ compatible request c ]
      else true

  unfoldable pub filter_compatible : Router → Option ChatRequest → List Target → List Target
  unfolding admits
  filter_compatible r request [] = []
  filter_compatible r request (t ∷ ts) =
      let rest = filter_compatible r request ts in if admits r request t then t ∷ rest else rest

  -- `sort.SliceStable` by the blended price: insertion in front of the first dearer target
  unfoldable pub insert_stable : Router → Target → List Target → List Target
  insert_stable r t [] = t ∷ []
  insert_stable r t (u ∷ us) =
      if lt (blended_price r u) (blended_price r t) then u ∷ insert_stable r t us else t ∷ u ∷ us

  unfoldable pub sort_stable : Router → List Target → List Target
  unfolding insert_stable
  sort_stable r [] = []
  sort_stable r (t ∷ ts) = insert_stable r t (sort_stable r ts)

  -- the targets that the strategy orders: the compatible ones, or all where none is
  unfoldable pub candidates : Router → Route → Option ChatRequest → List Target
  unfolding filter_compatible
  candidates r rt request =
      let kept = filter_compatible r request rt.targets in
      if is_empty kept then rt.targets else kept

  unfoldable pub plan : Router → Route → Option ChatRequest → List Target
  unfolding candidates sort_stable order
  plan r rt request =
      let ts = candidates r rt request in
      order r (if str_eq rt.strategy (codes "cheapest") then sort_stable r ts else ts)
