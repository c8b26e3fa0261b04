-- ===== src/Api/Assemble.antt =====
-- internal/api/assemble.go: `Assembler` and `ChunksFromResponse`.
pub mod Laws
use proofgate.Base.{
  ℕ, zero, suc, ◌+◌, ◌-◌, ◌==◌, ◌<◌, Bool, true, false, not, ◌&&◌, Option, none, some, List, [],
  ◌∷◌, ◌++◌, length, take, drop, min, leb, if◌then◌else◌,
}
use proofgate.Base.Int.{ℤ, pos, negsuc}
use proofgate.Base.Bytes.{Bytes, codes, str_eq}
use proofgate.Api.{
  Content, FunctionCall, ToolCall, Message, Usage, Choice, ChatResponse, ChunkDelta, ChunkChoice,
  ChatChunk, plain_text,
}

pub record Assembler : Type 0 where
  pub id : Bytes
  pub model : Bytes
  pub created : ℕ
  pub text : Bytes
  pub tools : List ToolCall
  pub finish : Bytes
  pub usage : Option Usage

abbrev pub empty : Assembler
empty = record {
  id = [];
  model = [];
  created = 0;
  text = [];
  tools = [];
  finish = [];
  usage = none;
}

abbrev pub blank_tool : ToolCall
blank_tool = record {
  index = none;
  id = [];
  kind = codes "function";
  function = record { name = []; arguments = [] };
}

abbrev is_empty : Bytes → Bool
is_empty [] = true
is_empty (_ ∷ _) = false

abbrev pub or_else : Bytes → Bytes → Bytes
or_else [] old = old
or_else (c ∷ s) old = c ∷ s

-- what one delta writes to `a.tools[i]`
merge_tool : ToolCall → ToolCall → ToolCall
merge_tool old tc = record old {
  id = or_else tc.id old.id;
  function = record {
    name = or_else tc.function.name old.function.name;
    arguments = old.function.arguments ++ tc.function.arguments;
  };
}

-- `for len(a.tools) <= i { append }`, then the writes to `a.tools[i]`
pub write_tool : List ToolCall → ℕ → ToolCall → List ToolCall
unfolding merge_tool
write_tool [] zero tc = merge_tool blank_tool tc ∷ []
write_tool [] (suc i) tc = blank_tool ∷ write_tool [] i tc
write_tool (t ∷ ts) zero tc = merge_tool t tc ∷ ts
write_tool (t ∷ ts) (suc i) tc = t ∷ write_tool ts i tc

-- A negative index makes `a.tools[i]` panic: `none`.
pub add_tool : List ToolCall → ToolCall → Option (List ToolCall)
add_tool tools tc = elim tc.index [
  | none ↦ some (write_tool tools 0 tc)
  | some (pos i) ↦ some (write_tool tools i tc)
  | some (negsuc i) ↦ none
]

infixl 5 ◌>>=◌
abbrev ◌>>=◌ {ℓ κ} : {A : Type ℓ} {B : Type κ} → Option A → (A → Option B) → Option B
none >>= f = none
some a >>= f = f a

pub add_tools : List ToolCall → List ToolCall → Option (List ToolCall)
add_tools tools [] = some tools
add_tools tools (tc ∷ tcs) = do tools' ← add_tool tools tc; add_tools tools' tcs

-- one round of the loop over `c.Choices`
add_choice : Assembler → ChunkChoice → Option Assembler
add_choice a ch = if not (ch.index == 0) then some a else do
  tools ← add_tools a.tools ch.delta.tool_calls
  some (record a {
    text = a.text ++ ch.delta.content;
    tools = tools;
    finish = elim ch.finish_reason [ none ↦ a.finish | some f ↦ f ];
  })

add_choices : Assembler → List ChunkChoice → Option Assembler
add_choices a [] = some a
add_choices a (ch ∷ chs) = do a' ← add_choice a ch; add_choices a' chs

start : Assembler → ChatChunk → Assembler
start a c =
    if not (is_empty c.id) && is_empty a.id
    then record a { id = c.id; model = c.model; created = c.created }
    else a

unfoldable pub add : Assembler → ChatChunk → Option Assembler
unfolding start add_choices add_choice add_tools add_tool write_tool
add a c =
    let b = start a c in
    add_choices (record b { usage = elim c.usage [ none ↦ b.usage | some u ↦ some u ] }) c.choices

unfoldable pub response : Assembler → ChatResponse
response a = record {
  id = a.id;
  object = codes "chat.completion";
  created = a.created;
  model = a.model;
  choices =
      record {
        index = 0;
        message = record {
          role = codes "assistant";
          content = record { text = a.text; parts = none };
          tool_calls = a.tools;
        };
        finish_reason = a.finish;
      }
      ∷ [];
  usage = a.usage;
}

unfoldable pub add_all : Assembler → List ChatChunk → Option Assembler
add_all a [] = some a
add_all a (c ∷ cs) = do a' ← add a c; add_all a' cs

-- `base` with one choice: the closure `mk`
pub mk : ChatResponse → ChunkDelta → Option Bytes → ChatChunk
mk r d finish = record {
  id = r.id;
  object = codes "chat.completion.chunk";
  created = r.created;
  model = r.model;
  choices = record { index = 0; delta = d; finish_reason = finish } ∷ [];
  usage = none;
}

-- `for len(text) > 0 || first`; the fuel is one more than the bytes left, and `n` is positive
pub text_chunks : ℕ → ℕ → Bool → Bytes → List ChunkDelta
text_chunks zero n first text = []
text_chunks (suc fuel) n first [] =
    if first then record { role = codes "assistant"; content = []; tool_calls = [] } ∷ [] else []
text_chunks (suc fuel) n first (c ∷ text) =
    record {
      role = if first then codes "assistant" else [];
      content = take n (c ∷ text);
      tool_calls = [];
    }
    ∷ text_chunks fuel n false (drop n (c ∷ text))

pub tool_chunks : ℕ → List ToolCall → List ChunkDelta
tool_chunks i [] = []
tool_chunks i (tc ∷ tcs) =
    record { role = []; content = []; tool_calls = record tc { index = some (pos i) } ∷ [] }
    ∷ tool_chunks (i + 1) tcs

pub mk_all : ChatResponse → List ChunkDelta → List ChatChunk
mk_all r [] = []
mk_all r (d ∷ ds) = mk r d none ∷ mk_all r ds

usage_chunk : ChatResponse → List ChatChunk
usage_chunk r = elim r.usage [
  | none ↦ []
  | some u ↦
      record {
        id = r.id;
        object = codes "chat.completion.chunk";
        created = r.created;
        model = r.model;
        choices = [];
        usage = some u;
      }
      ∷ []
]

abbrev pub chunk_size : ℕ → ℕ
chunk_size n = if n == 0 then 64 else n

choice_chunks : ChatResponse → ℕ → List Choice → List ChatChunk
unfolding mk mk_all text_chunks tool_chunks usage_chunk
choice_chunks r n [] = []
choice_chunks r n (ch ∷ chs) =
    let text = plain_text ch.message.content in
    let last : ChunkDelta = record { role = []; content = []; tool_calls = [] } in
    mk_all r (text_chunks (length text + 1) n true text)
    ++ (mk_all r (tool_chunks 0 ch.message.tool_calls)
        ++ (mk r last (some ch.finish_reason) ∷ usage_chunk r))

-- A size that is not positive is 64; here it is 0.
unfoldable pub chunks_from_response : ChatResponse → ℕ → List ChatChunk
unfolding choice_chunks
chunks_from_response r chunk_chars = choice_chunks r (chunk_size chunk_chars) r.choices
