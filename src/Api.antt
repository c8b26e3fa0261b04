-- ===== src/Api.antt =====
-- internal/api/types.go, content.go and estimate.go: the OpenAI-compatible request and response
-- types with the fields that the modelled code reads. A `*T` is an `Option`, a Go string its bytes.
-- `json.RawMessage` is kept as its bytes; the sampling parameters of a request are passed through
-- untouched by the modelled code and have no field here.
mod Examples
pub mod Assemble
pub mod Errors
mod Laws
use proofgate.Base.{
  ℕ, suc, ◌+◌, ◌*◌, ◌/◌, Bool, true, false, Option, none, some, List, [], ◌∷◌, ◌++◌, length,
  if◌then◌else◌,
}
use proofgate.Base.Int.{ℤ, pos, negsuc}
use proofgate.Base.Bytes.{Bytes, codes, str_eq}

pub record ContentPart : Type 0 where
  pub kind : Bytes  -- `Type`
  pub text : Bytes
  pub image_url : Option Bytes

-- `parts ≡ none` is a nil slice: the content is then the plain `text`.
pub record Content : Type 0 where
  pub text : Bytes
  pub parts : Option (List ContentPart)

pub record FunctionCall : Type 0 where
  pub name : Bytes
  pub arguments : Bytes

pub record ToolCall : Type 0 where
  pub index : Option ℤ
  pub id : Bytes
  pub kind : Bytes  -- `Type`
  pub function : FunctionCall

pub record Message : Type 0 where
  pub role : Bytes
  pub content : Content
  pub tool_calls : List ToolCall

pub record ChatRequest : Type 0 where
  pub model : Bytes
  pub messages : List Message
  pub stream : Bool
  pub max_tokens : Option ℤ
  pub max_completion_tokens : Option ℤ
  pub tools : List Bytes
  pub tool_choice : Bytes

pub record Usage : Type 0 where
  pub prompt_tokens : ℤ
  pub completion_tokens : ℤ
  pub total_tokens : ℤ
  pub prompt_tokens_details : Option ℤ

pub record Choice : Type 0 where
  pub index : ℕ
  pub message : Message
  pub finish_reason : Bytes

pub record ChatResponse : Type 0 where
  pub id : Bytes
  pub object : Bytes
  pub created : ℕ
  pub model : Bytes
  pub choices : List Choice
  pub usage : Option Usage

pub record ChunkDelta : Type 0 where
  pub role : Bytes
  pub content : Bytes
  pub tool_calls : List ToolCall

pub record ChunkChoice : Type 0 where
  pub index : ℕ
  pub delta : ChunkDelta
  pub finish_reason : Option Bytes

pub record ChatChunk : Type 0 where
  pub id : Bytes
  pub object : Bytes
  pub created : ℕ
  pub model : Bytes
  pub choices : List ChunkChoice
  pub usage : Option Usage

-- `strings.Join`
unfoldable pub join : Bytes → List Bytes → Bytes
join sep [] = []
join sep (s ∷ []) = s
join sep (s ∷ t ∷ rest) = s ++ (sep ++ join sep (t ∷ rest))

unfoldable pub text_parts : List ContentPart → List Bytes
text_parts [] = []
text_parts (p ∷ ps) =
    let rest = text_parts ps in if str_eq p.kind (codes "text") then p.text ∷ rest else rest

unfoldable pub plain_text : Content → Bytes
unfolding join text_parts
plain_text c = elim c.parts [ none ↦ c.text | some ps ↦ join (codes "\n") (text_parts ps) ]

tool_call_text : List ToolCall → Bytes
tool_call_text [] = []
tool_call_text (tc ∷ tcs) =
    codes " [tool_call "
    ++ (tc.function.name
        ++ (codes " " ++ (tc.function.arguments ++ (codes "]" ++ tool_call_text tcs))))

message_text : Message → Bytes
unfolding tool_call_text plain_text
message_text m = m.role ++ (codes ": " ++ (plain_text m.content ++ tool_call_text m.tool_calls))

-- the loop of `PromptText`; every message but the first is put behind a newline
prompt_lines : Bool → List Message → Bytes
prompt_lines first [] = []
prompt_lines first (m ∷ ms) =
    (if first then [] else codes "\n") ++ (message_text m ++ prompt_lines false ms)

unfoldable pub prompt_text : ChatRequest → Bytes
unfolding prompt_lines message_text
prompt_text r = prompt_lines true r.messages

unfoldable pub estimate_tokens : Bytes → ℕ
estimate_tokens s = (length s + 3) / 4

unfoldable pub estimate_prompt_tokens : ChatRequest → ℕ
estimate_prompt_tokens r = estimate_tokens (prompt_text r) + 4 * length r.messages

-- `p != nil && *p > 0`
abbrev pub positive? : Option ℤ → Option ℕ
positive? none = none
positive? (some (pos ℕ.zero)) = none
positive? (some (pos (ℕ.suc n))) = some (suc n)
positive? (some (negsuc n)) = none

unfoldable pub effective_max_tokens : ChatRequest → ℕ → ℕ
effective_max_tokens r def = elim (positive? r.max_completion_tokens) [
  | some n ↦ n
  | none ↦ elim (positive? r.max_tokens) [ some n ↦ n | none ↦ def ]
]
