-- ===== src/Api/Assemble/Laws.antt =====
-- Chunking a response and assembling the chunks (internal/api/assemble.go).
use proofgate.Base.{
  ℕ, zero, suc, ◌+◌, ◌<◌, ◌≡◌, ◌≢◌, refl, ap, ◌∙◌, true, false, Option, none, some, List, [], ◌∷◌,
  ◌++◌, map, append_assoc, append-nil, length, length-append, length-drop, take, drop,
  take-append-drop, arith, Option-cases, inl, inr,
}
use proofgate.Base.Int.{pos}
use proofgate.Base.Bytes.{Bytes, codes}
use proofgate.Api.{ToolCall, Choice, ChatResponse, ChunkDelta, ChatChunk, plain_text}
use proofgate.Api.Assemble.{
  Assembler, empty, or_else, write_tool, add, response, add_all, mk, text_chunks, tool_chunks,
  mk_all, chunk_size, chunks_from_response, ◌>>=◌, usage_chunk, choice_chunks,
}

add_all-append :
    (a : Assembler) (xs ys : List ChatChunk)
    → add_all a (xs ++ ys) ≡ (add_all a xs >>= λ b. add_all b ys)
unfolding add_all
add_all-append a [] ys = refl
add_all-append a (c ∷ xs) ys = elim (Option-cases (add a c)) [
  | inl e ↦ rw e
  | inr (b, e) ↦ rw e (add_all-append b xs ys)
]

or_else-nil : (s : Bytes) → or_else s [] ≡ s
or_else-nil [] = refl
or_else-nil (c ∷ s) = refl

-- A tool call as it comes back: of kind `function`, with no index.
abbrev pub restored : ToolCall → ToolCall
restored tc = record tc { index = none; kind = codes "function" }

write_tool_end :
    (ts : List ToolCall) (tc : ToolCall) → write_tool ts (length ts) tc ≡ ts ++ restored tc ∷ []
unfolding write_tool
write_tool_end [] tc = rw (or_else-nil tc.id, or_else-nil tc.function.name)
write_tool_end (t ∷ ts) tc = ap (◌∷◌ t) (write_tool_end ts tc)

-- The empty assembler, and any other, with the id, the model and the time of `r`.
abbrev begin : ChatResponse → Assembler
begin r = record empty { id = r.id; model = r.model; created = r.created }

abbrev started : ChatResponse → Assembler → Assembler
started r a = record a { id = r.id; model = r.model; created = r.created }

-- The chunks of `r` on an assembler that has taken its id already.
module _ (r : ChatResponse) (named : r.id ≢ []) where
  abbrev Started : Assembler → Type 0
  Started a = a.id ≡ r.id

  add_first :
      (a : Assembler) (d : ChunkDelta) (f : Option Bytes)
      → a.id ≡ []
      → add a (mk r d f) ≡ add (started r a) (mk r d f)
  unfolding add mk
  add_first a d f e = ground arith

  add_text :
      (a : Assembler) (role s : Bytes)
      → Started a
      → add a (mk r (record { role = role; content = s; tool_calls = [] }) none)
        ≡ some (record a { text = a.text ++ s })
  unfolding add mk
  add_text a role s e = ground arith

  add_all-text_chunks :
      (fuel n : ℕ) (a : Assembler) (s : Bytes)
      → length s < fuel
      → Started a
      → 0 < n
      → add_all a (mk_all r (text_chunks fuel n false s)) ≡ some (record a { text = a.text ++ s })
  unfolding add_all mk_all text_chunks
  add_all-text_chunks zero n a s h e p = absurd (omega arith)
  add_all-text_chunks (suc fuel) n a [] h e p = rw append-nil
  add_all-text_chunks (suc fuel) zero a (c ∷ s) h e p = absurd (omega arith)
  add_all-text_chunks (suc fuel) (suc n) a (c ∷ s) h e p =
      rw (add_text a [] (take (suc n) (c ∷ s)) e) (
        add_all-text_chunks fuel (suc n) (record a { text = a.text ++ take (suc n) (c ∷ s) })
          (drop (suc n) (c ∷ s)) (omega (arith, length-drop n s)) e p
        ∙ rw (append_assoc, take-append-drop))

  add_tool_chunk :
      (a : Assembler) (tc : ToolCall) (i : ℕ)
      → Started a
      → length a.tools ≡ i
      → add a (
          mk r
            (record {
              role = [];
              content = [];
              tool_calls = record tc { index = some (pos i) } ∷ [];
            })
            none)
        ≡ some (record a { tools = a.tools ++ restored tc ∷ [] })
  unfolding add mk
  add_tool_chunk a tc i e l = rw (← l) (
      ground (
        arith,
        append-nil a.text,
        write_tool_end a.tools (record tc { index = some (pos (length a.tools)) }),
      ))

  add_all-tool_chunks :
      (tcs : List ToolCall) (i : ℕ) (a : Assembler)
      → Started a
      → length a.tools ≡ i
      → add_all a (mk_all r (tool_chunks i tcs))
        ≡ some (record a { tools = a.tools ++ map restored tcs })
  unfolding add_all mk_all tool_chunks
  add_all-tool_chunks [] i a e l = rw append-nil
  add_all-tool_chunks (tc ∷ tcs) i a e l = rw (add_tool_chunk a tc i e l) (
      add_all-tool_chunks tcs (i + 1) (record a { tools = a.tools ++ restored tc ∷ [] }) e
        (omega (arith, length-append a.tools (restored tc ∷ [])))
      ∙ rw append_assoc)

  -- the first text chunk names the assembler; the others add to it
  add_all-first_text :
      (fuel n : ℕ) (s : Bytes)
      → length s < fuel
      → 0 < n
      → add_all empty (mk_all r (text_chunks fuel n true s)) ≡ some (record (begin r) { text = s })
  unfolding add_all mk_all text_chunks
  add_all-first_text zero n s h p = absurd (omega arith)
  add_all-first_text (suc fuel) n [] h p =
      rw (add_first empty _ none refl) (rw (add_text (begin r) (codes "assistant") [] refl))
  add_all-first_text (suc fuel) zero (c ∷ s) h p = absurd (omega arith)
  add_all-first_text (suc fuel) (suc n) (c ∷ s) h p = rw (add_first empty _ none refl) (
      rw (add_text (begin r) (codes "assistant") (take (suc n) (c ∷ s)) refl) (
        add_all-text_chunks fuel (suc n) (record (begin r) { text = take (suc n) (c ∷ s) })
          (drop (suc n) (c ∷ s)) (omega (arith, length-drop n s)) refl p
        ∙ rw take-append-drop))

  add_last :
      (a : Assembler) (f : Bytes)
      → Started a
      → add_all a
          (mk r (record { role = []; content = []; tool_calls = [] }) (some f) ∷ usage_chunk r)
        ≡ some (record a { finish = f; usage = elim r.usage [ none ↦ a.usage | some u ↦ some u ] })
  unfolding add_all add mk usage_chunk
  add_last a f e = ground (arith, append-nil a.text)

-- What comes back of a response: its first choice, at index 0, as one text of the assistant.
abbrev pub canonical : ChatResponse → Choice → ChatResponse
canonical r ch = record r {
  object = codes "chat.completion";
  choices =
      record {
        index = 0;
        message = record {
          role = codes "assistant";
          content = record { text = plain_text ch.message.content; parts = none };
          tool_calls = map restored ch.message.tool_calls;
        };
        finish_reason = ch.finish_reason;
      }
      ∷ [];
}

abbrev final : ChatResponse → Choice → Assembler
final r ch = record {
  id = r.id;
  model = r.model;
  created = r.created;
  text = plain_text ch.message.content;
  tools = map restored ch.message.tool_calls;
  finish = ch.finish_reason;
  usage = r.usage;
}

add_all-choice_chunks :
    (r : ChatResponse) (n : ℕ) (ch : Choice) (rest : List Choice)
    → r.id ≢ []
    → 0 < n
    → add_all empty (choice_chunks r n (ch ∷ rest)) ≡ some (final r ch)
unfolding choice_chunks
add_all-choice_chunks r n ch rest named p =
    let s = plain_text ch.message.content in
    rw (add_all-append, add_all-first_text r named (length s + 1) n s (omega arith) p)
      (rw
        (
          add_all-append,
          add_all-tool_chunks r named ch.message.tool_calls 0 (record (begin r) { text = s }) refl
              refl,
        )
        (rw
          (add_last r named
            (record (begin r) { text = s; tools = map restored ch.message.tool_calls })
            ch.finish_reason refl)
          (ground arith)))

chunk_size_pos : (n : ℕ) → 0 < chunk_size n
chunk_size_pos n = ground arith

-- A response with an id and at least one choice that is cut into chunks, of any chunk size, and
-- assembled again comes back with its id, model, time, usage, and the whole text, the tool calls
-- and the finish reason of its first choice.
pub assemble-chunks :
    (r : ChatResponse) (n : ℕ) (ch : Choice) (rest : List Choice)
    → r.id ≢ []
    → r.choices ≡ ch ∷ rest
    → (a : Assembler) × (add_all empty (chunks_from_response r n) ≡ some a)
      × (response a ≡ canonical r ch)
unfolding chunks_from_response response
assemble-chunks r n ch rest named e = (
  final r ch,
  ap (λ l. add_all empty (choice_chunks r (chunk_size n) l)) e
      ∙ add_all-choice_chunks r (chunk_size n) ch rest named (chunk_size_pos n),
  refl,
)
