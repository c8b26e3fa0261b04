-- ===== src/SmartRoute/Examples.antt =====
-- A run of internal/smartroute: a greeting goes to the cheap target.
use proofgate.Base.{◌≡◌, refl, true, false, none, some, List, [], ◌∷◌, if◌then◌else◌}
use proofgate.Base.Int.{pos}
use proofgate.Base.Bytes.{codes, str_eq}
use proofgate.Base.Float.{counting}
use proofgate.Api.{ChatRequest, Message, Content, estimate_prompt_tokens, estimate_tokens}
use proofgate.Router.Breaker.{Target}
use proofgate.Router.Route.{Route, Router, parse_target}
use proofgate.SmartRoute.{
  Texts, SmartConfig, SmartCall, decide, classify, before, plan_for, is_cheap, prompt_text,
}
use proofgate.SmartRoute.Choice.{IsEasy, chosen_first}

abbrev texts : Texts
texts = record {
  is_code = λ s. false;
  is_math = λ s. false;
  is_greeting = λ s. str_eq s (codes "hi");
  is_factual = λ s. false;
  trim_space = λ s. s;
  to_lower = λ s. s;
}

abbrev hi : ChatRequest
hi = record {
  model = codes "auto";
  messages =
      record {
        role = codes "user";
        content = record { text = codes "hi"; parts = none };
        tool_calls = [];
      }
      ∷ [];
  stream = false;
  max_tokens = none;
  max_completion_tokens = none;
  tools = [];
  tool_choice = [];
}

abbrev claude : Target
claude = record { provider = codes "anthropic"; model = codes "claude" }

abbrev config : SmartConfig counting
config = record {
  mode = codes "on";
  cheap_target = codes "anthropic/claude";
  strong_target = codes "openai/gpt";
  max_tokens_for_cheap = 0;
  knn_enabled = false;
  confidence_threshold = 1;
}

abbrev call : SmartCall counting
call = record {
  request = hi;
  config = some config;
  target = record { provider = []; model = [] };
  routing = none;
  cache_status = [];
  cost = pos 0;
}

abbrev chat : Route
chat = record {
  name = codes "chat";
  targets = claude ∷ [];
  strategy = [];
  retry = record { max_attempts = 2; base_delay = 1000 };
  timeout = 0;
  deadline = 90;
  first_token_timeout = 15;
  stream_idle_timeout = 0;
  embeddings = false;
  smart_route = record { mode = []; cheap_target = []; strong_target = [] };
}

abbrev router : Router counting
router = record {
  routes = λ n. some chat;
  order = chat ∷ [];
  providers = λ p. true;
  pricing = λ t. record { input = 4; output = 4; cached_input = 0 };
  capabilities = λ t. none;
  capability_count = 0;
  is_open = λ t. false;
  degraded = λ t. false;
}

parsed :
    parse_target (
      if is_cheap (decide counting texts config none hi).0.decision
      then codes "anthropic/claude"
      else codes "openai/gpt")
    ≡ some claude
unfolding parse_target decide classify estimate_prompt_tokens estimate_tokens
    proofgate.Api.prompt_text str_eq prompt_text
parsed = refl

chosen_first_example :
    ((rest : List Target) × (plan_for counting router chat
          (before counting texts none call).target
          hi
        ≡ claude ∷ rest))
    × (is_cheap (decide counting texts config none hi).0.decision ≡ true → IsEasy texts hi 0)
chosen_first_example =
    chosen_first counting texts none call config router chat claude refl refl parsed refl refl refl
