-- ===== src/Sse/Writer.antt =====
-- internal/sse/writer.go. A writer's state is what its response has received: how often its header
-- was written, the bytes of the body, and how many of them were flushed. What a `Write` comes to is an
-- argument: it may write a part of its bytes and fail.
pub mod Lines
pub mod Fields
pub mod Roundtrip
pub mod Stream
use proofgate.Base.{
  ℕ, suc, ◌+◌, ◌==◌, Bool, true, false, Option, none, some, List, [], ◌∷◌, ◌++◌, length, take,
  if◌then◌else◌,
}
use proofgate.Base.Bytes.{Bytes, codes}
use proofgate.Router.Route.{is_empty}
use proofgate.Sse.Reader.{Event, newline}

pub record Writer : Type 0 where
  pub started : Bool
  pub headers : ℕ
  pub body : Bytes
  pub flushed : ℕ

-- `NewWriter`, `none` for a response writer that cannot flush
unfoldable pub new_writer : Bool → Option Writer
new_writer can_flush =
    if can_flush
    then some (record { started = false; headers = 0; body = []; flushed = 0 })
    else none

unfoldable pub start : Writer → Writer
start w = if w.started then w else record w { started = true; headers = w.headers + 1 }

-- a byte in front of the lines that follow it, of which there is one at least
unfoldable pub prepend : ℕ → List Bytes → List Bytes
prepend c [] = []
prepend c (line ∷ rest) = if c == newline then [] ∷ line ∷ rest else (c ∷ line) ∷ rest

-- `bytes.Split(s, "\n")`
unfoldable pub split_lines : Bytes → List Bytes
unfolding prepend
split_lines [] = [] ∷ []
split_lines (c ∷ s) = prepend c (split_lines s)

unfoldable pub data_bytes : List Bytes → Bytes
data_bytes [] = []
data_bytes (line ∷ rest) = codes "data: " ++ (line ++ newline ∷ data_bytes rest)

-- a line of `id` or `event`, unless it is empty
unfoldable pub field_bytes : Bytes → Bytes → Bytes
field_bytes field value = if is_empty value then [] else field ++ (value ++ newline ∷ [])

unfoldable pub event_bytes : Event → Bytes
unfolding data_bytes split_lines field_bytes
event_bytes e =
    field_bytes (codes "id: ") e.id
    ++ (field_bytes (codes "event: ") e.name
        ++ (data_bytes (split_lines e.payload) ++ newline ∷ []))

unfoldable pub raw_bytes : Bytes → Bytes
raw_bytes b = codes "data: " ++ (b ++ codes "\n\n")

-- What a `Write` comes to: all its bytes, or an error behind some of them.
pub data Wrote : Type 0 where
  whole : Wrote
  cut_after : ℕ → Wrote

-- `Write`, and `Flush` when it succeeds; `true` for no error
unfoldable pub send : Wrote → Bytes → Writer → Bool × Writer
send whole b w = (true, record w { body = w.body ++ b; flushed = length (w.body ++ b) })
send (cut_after n) b w = (false, record w { body = w.body ++ take n b })

unfoldable pub event : Wrote → Event → Writer → Bool × Writer
unfolding event_bytes send start
event out e w = send out (event_bytes e) (start w)

unfoldable pub raw : Wrote → Bytes → Writer → Bool × Writer
unfolding raw_bytes send start
raw out b w = send out (raw_bytes b) (start w)

unfoldable pub done : Wrote → Writer → Bool × Writer
unfolding raw
done out w = raw out (codes "[DONE]") w

-- `Data`, over `json.Marshal`, which may fail before anything is started
unfoldable pub write_data {ℓ} :
    {V : Type ℓ} → (V → Option Bytes) → Wrote → V → Writer → Bool × Writer
unfolding raw
write_data marshal out v w = elim (marshal v) [ none ↦ (false, w) | some b ↦ raw out b w ]
