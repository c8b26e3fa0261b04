-- ===== src/Router/Capabilities.antt =====
-- internal/router/capabilities.go. A nil request is the caller's `none`.
use proofgate.Base.{
  ℕ, ◌+◌, Bool, true, false, not, ◌&&◌, ◌||◌, Option, none, some, List, [], ◌∷◌, length, ltb,
  if◌then◌else◌,
}
use proofgate.Base.Bytes.{codes, str_eq}
use proofgate.Api.{ContentPart, Message, ChatRequest, estimate_prompt_tokens, effective_max_tokens}

pub record Capability : Type 0 where
  pub max_context_tokens : ℕ
  pub supports_vision : Bool
  pub supports_tools : Option Bool

abbrev is_some {ℓ} : {A : Type ℓ} → Option A → Bool
is_some none = false
is_some (some _) = true

image_part : List ContentPart → Bool
image_part [] = false
image_part (p ∷ ps) = (str_eq p.kind (codes "image_url") || is_some p.image_url) || image_part ps

vision_message : Message → Bool
vision_message m = elim m.content.parts [ none ↦ false | some ps ↦ image_part ps ]

vision_messages : List Message → Bool
vision_messages [] = false
vision_messages (m ∷ ms) = vision_message m || vision_messages ms

unfoldable pub has_vision_content : ChatRequest → Bool
unfolding image_part vision_message vision_messages
has_vision_content r = vision_messages r.messages

tool_messages : List Message → Bool
tool_messages [] = false
tool_messages (m ∷ ms) =
    (str_eq m.role (codes "tool") || ltb 0 (length m.tool_calls)) || tool_messages ms

unfoldable pub has_tool_content : ChatRequest → Bool
unfolding tool_messages
has_tool_content r =
    if ltb 0 (length r.tools) || ltb 0 (length r.tool_choice)
    then true
    else tool_messages r.messages

fits_context : ChatRequest → Capability → Bool
fits_context r c = not (
    ltb 0 c.max_context_tokens
    && ltb c.max_context_tokens (estimate_prompt_tokens r + effective_max_tokens r 0))

refuses_tools : Option Bool → Bool
refuses_tools none = false
refuses_tools (some b) = not b

unfoldable pub compatible : ChatRequest → Capability → Bool
unfolding fits_context refuses_tools
compatible r c =
    if not (fits_context r c)
    then false
    else if has_vision_content r && not c.supports_vision
    then false
    else if has_tool_content r && refuses_tools c.supports_tools
    then false
    else true
