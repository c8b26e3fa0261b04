-- ===== src/Guard/Restorer.antt =====
-- internal/guard/restore.go: `StreamRestorer`. The mapping from placeholders to originals is a list
-- of pairs with distinct keys, in the order in which `Restore` happens to walk the Go map.
-- `strings.ReplaceAll` is a parameter.
mod Examples
pub mod Steps
pub mod Chunks
pub mod Stream
use proofgate.Base.{
  ℕ, zero, suc, ◌+◌, ◌==◌, Option, none, some, List, [], ◌∷◌, ◌++◌, length, take, drop, ltb,
  if◌then◌else◌,
}
use proofgate.Base.Bytes.{Bytes, str_eq}

abbrev pub Mapping : Type 0
Mapping = List (Bytes × Bytes)

unfoldable pub lookup : Bytes → Mapping → Option Bytes
lookup k [] = none
lookup k ((j, v) ∷ m) = if str_eq j k then some v else lookup k m

-- `strings.Index` of a one-byte needle
unfoldable pub index : ℕ → Bytes → Option ℕ
index c [] = none
index c (b ∷ s) =
    let later : Option ℕ = elim (index c s) [ none ↦ none | some i ↦ some (suc i) ] in
    if b == c then some 0 else later

abbrev pub max_placeholder_len : ℕ
max_placeholder_len = 40

abbrev pub open_bracket : ℕ
open_bracket = b'<'

abbrev pub close_bracket : ℕ
close_bracket = b'>'

-- What a round writes, in front of what the later rounds write; and the buffer that stays.
abbrev pub emit : Bytes → Bytes × Bytes → Bytes × Bytes
emit s (out, buffer) = (s ++ out, buffer)

-- a round on a buffer that starts with `<`; `again` is the loop
unfoldable pub opened : Mapping → (Bytes → Bytes × Bytes) → Bytes → Bytes × Bytes
opened m again b = elim (index close_bracket b) [
  | none ↦
      let shorter = emit (take 1 b) (again (drop 1 b)) in
      if ltb max_placeholder_len (length b) then shorter else ([], b)
  | some j ↦ elim (lookup (take (suc j) b) m) [
    | some original ↦ emit original (again (drop (suc j) b))
    | none ↦ emit (open_bracket ∷ []) (again (drop 1 b))
  ]
]

-- the loop of `Process`; a round takes at least one byte off the buffer, so `length b + 1` rounds
-- are enough
unfoldable pub loop : ℕ → Mapping → Bytes → Bytes × Bytes
loop zero m b = ([], b)
loop (suc fuel) m b = elim (index open_bracket b) [
  | none ↦ (b, [])
  | some i ↦ emit (take i b) (opened m (loop fuel m) (drop i b))
]

unfoldable pub scan : Mapping → Bytes → Bytes × Bytes
scan m b = loop (suc (length b)) m b

-- `Process`: the text that is sent on, and the new buffer
unfoldable pub process : Mapping → Bytes → Bytes → Bytes × Bytes
process [] buffer chunk = (chunk, buffer)
process (e ∷ m) buffer chunk = scan (e ∷ m) (buffer ++ chunk)

module _ (replace_all : Bytes → Bytes → Bytes → Bytes) where
  unfoldable pub restore : Bytes → Mapping → Bytes
  restore text [] = text
  restore text ((placeholder, original) ∷ m) = restore (replace_all text placeholder original) m

  -- `Flush`; the buffer is empty afterwards
  unfoldable pub flush : Mapping → Bytes → Bytes
  flush m [] = []
  flush m (c ∷ b) = restore (c ∷ b) m

  -- All that a client receives of a stream: each chunk processed, and the flush.
  unfoldable pub stream : Mapping → Bytes → List Bytes → Bytes
  stream m buffer [] = flush m buffer
  stream m buffer (chunk ∷ chunks) =
      let (out, buffer') = process m buffer chunk in out ++ stream m buffer' chunks
