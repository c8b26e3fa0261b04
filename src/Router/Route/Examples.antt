-- ===== src/Router/Route/Examples.antt =====
-- Runs of internal/router/route.go.
use proofgate.Base.{
  ℕ, ◌*◌, ◌≡◌, ◌⊎◌, refl, true, false, not, ◌&&◌, none, some, [], ◌∷◌, arith, ltb, if◌then◌else◌,
}
use proofgate.Base.Bytes.{codes, str_eq}
use proofgate.Base.Float.{counting}
use proofgate.Router.Breaker.{Target, target_eq}
use proofgate.Router.Route.{Route, Router, to_string, resolve, plan, admits, second}
use proofgate.Router.Route.Parsing.{resolve_sound}
use proofgate.Router.Route.Tiers.{pick, IsTiered}
use proofgate.Router.Route.Planning.{plan_sound, listed, any_admitted}
use proofgate.Router.Route.Prices.{plan_cheapest, IsCheapestFirst}

abbrev gpt : Target
gpt = record { provider = codes "openai"; model = codes "gpt" }

abbrev claude : Target
claude = record { provider = codes "anthropic"; model = codes "claude" }

abbrev chat : Route
chat = record {
  name = codes "chat";
  targets = gpt ∷ claude ∷ [];
  strategy = codes "cheapest";
  retry = record { max_attempts = 2; base_delay = 1000 };
  timeout = 0;
  deadline = 90 * second;
  first_token_timeout = 15 * second;
  stream_idle_timeout = 0;
  embeddings = false;
  smart_route = record { mode = []; cheap_target = []; strong_target = [] };
}

-- `gpt` is open and dearer.
abbrev router : Router counting
router = record {
  routes = λ n. if str_eq n (codes "chat") then some chat else none;
  order = chat ∷ [];
  providers = λ p. str_eq p (codes "openai");
  pricing = λ t.
      if str_eq t (codes "openai/gpt")
      then record { input = 8; output = 8; cached_input = 0 }
      else record { input = 4; output = 4; cached_input = 0 };
  capabilities = λ t. none;
  capability_count = 0;
  is_open = λ t. target_eq t gpt;
  degraded = λ t. false;
}

resolve_sound_example :
    (router.routes (codes "chat") ≡ some chat)
    ⊎ ((router.routes (codes "chat") ≡ none)
        × (false ≡ true)
        × ((t : Target) × (chat.targets ≡ t ∷ [])
            × (chat.name ≡ codes "chat")
            × (to_string t ≡ codes "chat")
            × (router.providers t.provider ≡ true)))
unfolding resolve str_eq
resolve_sound_example = resolve_sound counting router (codes "chat") false chat refl

plan_sound_example :
    ((u : Target)
      → listed counting router u (plan counting router chat none) ≡ (
          if any_admitted counting router none chat.targets && not (admits counting router none u)
          then 0
          else listed counting router u chat.targets))
    × IsTiered counting router (plan counting router chat none)
plan_sound_example = plan_sound counting router chat none

ltb_asym : (a b : ℕ) → ltb a b ≡ true → ltb b a ≡ false
ltb_asym a b h = ground arith

ltb_neg_trans : (a b c : ℕ) → false ≡ false → ltb a b ≡ false → ltb b c ≡ false → ltb a c ≡ false
ltb_neg_trans a b c n h k = ground arith

plan_cheapest_example :
    IsCheapestFirst counting router (pick counting router 0 (plan counting router chat none))
plan_cheapest_example =
    plan_cheapest counting router ltb_asym ltb_neg_trans chat none 0 refl (refl, (refl, tt))
