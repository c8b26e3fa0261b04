-- ===== src/Guard/Restorer/Stream.antt =====
-- What a client receives of a stream (internal/guard/restore.go).
use mathlib.Core.List.{flatten}
use proofgate.Base.{
  ℕ, zero, suc, ◌≤◌, ◌==◌, ◌≡◌, ◌≢◌, refl, sym, ap, ◌∙◌, none, List, [], ◌∷◌, ◌++◌, length,
  length-append, length-drop, take, drop, ltb, arith, All, append_assoc, append-nil, Option-cases,
  Bool-cases, inl, inr, ==_iff, subst,
}
use proofgate.Base.Bytes.{Bytes}
use proofgate.Guard.Restorer.{
  Mapping, lookup, index, max_placeholder_len, open_bracket, close_bracket, emit, scan, process,
  restore, flush, stream,
}
use proofgate.Guard.Restorer.Steps.{scan-nil, scan_skip}
use proofgate.Guard.Restorer.Chunks.{
  IsShort, scan-append, scan_hit, scan_miss, scan_passed, scan_held,
}

nil_of_append : (s t : Bytes) → s ++ t ≡ s → t ≡ []
nil_of_append s [] h = refl
nil_of_append s (c ∷ t) h = absurd (omega (arith, ap length h, length-append s (c ∷ t)))

-- the whole text in one chunk, flushed
abbrev total : (Bytes → Bytes → Bytes → Bytes) → Mapping → Bytes → Bytes
total replace_all m x = (scan m x).0 ++ flush replace_all m (scan m x).1

module _ (m : Mapping) (short : IsShort m) where
  -- what a scan leaves in the buffer is left again by the next scan
  scan-leftover : (x : Bytes) → scan m (scan m x).1 ≡ ([], (scan m x).1)
  scan-leftover x =
      let (o, b) = scan m x in
      let again : scan m x ≡ emit o (scan m b) =
        sym (ap (scan m) (append-nil x))
        ∙ scan-append m short (length x) x [] (omega arith)
        ∙ rw append-nil in
      let written = nil_of_append o (scan m b).0 (sym (ap (λ r. r.0) again)) in ground arith

  module _ (replace_all : Bytes → Bytes → Bytes → Bytes) where
    total-append :
        (x y : Bytes)
        → total replace_all m (x ++ y) ≡ (scan m x).0 ++ total replace_all m ((scan m x).1 ++ y)
    total-append x y = rw (scan-append m short (length x) x y (omega arith), append_assoc)

stream_scan :
    (replace_all : Bytes → Bytes → Bytes → Bytes) (e : Bytes × Bytes) (m : Mapping)
    → IsShort (e ∷ m)
    → (chunks : List Bytes) (b : Bytes) → scan (e ∷ m) b ≡ ([], b)
    → stream replace_all (e ∷ m) b chunks ≡ total replace_all (e ∷ m) (b ++ flatten chunks)
unfolding stream process flatten
stream_scan replace_all e m short [] b fixed = rw (append-nil, fixed)
stream_scan replace_all e m short (c ∷ cs) b fixed =
    let (o, b') = scan (e ∷ m) (b ++ c) in
    ap (λ t. o ++ t)
      (stream_scan replace_all e m short cs b' (scan-leftover (e ∷ m) short (b ++ c)))
    ∙ sym (total-append (e ∷ m) short replace_all (b ++ c) (flatten cs))
    ∙ ap (total replace_all (e ∷ m)) (append_assoc b c (flatten cs))

pub stream_unmapped :
    (replace_all : Bytes → Bytes → Bytes → Bytes) (chunks : List Bytes)
    → stream replace_all [] [] chunks ≡ flatten chunks
unfolding stream process flush flatten
stream_unmapped replace_all [] = refl
stream_unmapped replace_all (c ∷ cs) = ap (λ t. c ++ t) (stream_unmapped replace_all cs)

-- The text that a client receives, flush included, does not depend on how the provider cut the
-- answer into chunks: it is what one chunk with the whole answer gives. (No placeholder is longer
-- than 41 bytes.)
pub stream_chunking :
    (replace_all : Bytes → Bytes → Bytes → Bytes) (m : Mapping) (chunks : List Bytes)
    → IsShort m
    → stream replace_all m [] chunks ≡ stream replace_all m [] (flatten chunks ∷ [])
unfolding flatten
stream_chunking replace_all [] chunks short =
    stream_unmapped replace_all chunks
    ∙ sym (stream_unmapped replace_all (flatten chunks ∷ []) ∙ append-nil (flatten chunks))
stream_chunking replace_all (e ∷ m) chunks short =
    stream_scan replace_all e m short chunks [] (scan-nil (e ∷ m))
    ∙ sym (
        stream_scan replace_all e m short (flatten chunks ∷ []) [] (scan-nil (e ∷ m))
        ∙ ap (total replace_all (e ∷ m)) (append-nil (flatten chunks)))

-- A buffer between two chunks: empty, or an unfinished `<` with at most 40 bytes and no `>`.
abbrev pub IsHeld : Bytes → Type 0
IsHeld b = (index close_bracket b ≡ none) × (length b ≤ max_placeholder_len)

scan-IsHeld : (m : Mapping) (n : ℕ) (x : Bytes) → length x ≤ n → IsHeld (scan m x).1
scan-IsHeld m n [] h = rw scan-nil (unfold index in refl, omega arith)
scan-IsHeld m zero (c ∷ x) h = elim h [ ]
scan-IsHeld m (suc n) (c ∷ x) h = elim (Bool-cases (c == open_bracket)) [
  | inr e ↦ rw (scan_skip m c x (ground arith)) (scan-IsHeld m n x (omega arith))
  | inl e ↦
      subst (λ b. IsHeld (scan m (b ∷ x)).1) (sym ((==_iff c open_bracket).0 e))
        (elim (Option-cases (index close_bracket (open_bracket ∷ x))) [
          | inr (j, f) ↦ elim (Option-cases (lookup (take (suc j) (open_bracket ∷ x)) m)) [
            | inl l ↦ rw (scan_miss m x j f l) (scan-IsHeld m n x (omega arith))
            | inr (v, l) ↦
                rw (scan_hit m x j v f l)
                  (scan-IsHeld m n (drop j x) (omega (arith, length-drop j x)))
          ]
          | inl f ↦ elim (Bool-cases (ltb max_placeholder_len (length (open_bracket ∷ x)))) [
            | inl l ↦ rw (scan_passed m x f (ground arith)) (scan-IsHeld m n x (omega arith))
            | inr l ↦ rw (scan_held m x f (ground arith)) (f, ground arith)
          ]
        ])
]

-- `Process` never holds back more than 40 bytes, and nothing that has a `>`.
pub process-IsHeld :
    (m : Mapping) (buffer chunk : Bytes) → m ≢ [] → IsHeld (process m buffer chunk).1
unfolding process
process-IsHeld [] buffer chunk h = absurd (h refl)
process-IsHeld (e ∷ m) buffer chunk h =
    scan-IsHeld (e ∷ m) (length (buffer ++ chunk)) (buffer ++ chunk) (omega arith)

-- `old` stands somewhere in `s`.
abbrev pub Occurs : Bytes → Bytes → Type 0
Occurs old s = (u : Bytes) × (v : Bytes) × (s ≡ u ++ (old ++ v))

-- A placeholder ends with `>`.
abbrev pub IsClosed : Mapping → Type 0
IsClosed = All (λ e. (k : Bytes) × (e.0 ≡ k ++ close_bracket ∷ []))

index_found : (u v : Bytes) → index close_bracket (u ++ close_bracket ∷ v) ≢ none
unfolding index
index_found [] v h = ground arith
index_found (c ∷ u) v h = ground (arith, index_found u v)

restore_held :
    (replace_all : Bytes → Bytes → Bytes → Bytes) (m : Mapping) (b : Bytes)
    → ((s old new : Bytes) → ¬ Occurs old s → replace_all s old new ≡ s)
    → IsClosed m
    → index close_bracket b ≡ none
    → restore replace_all b m ≡ b
unfolding restore
restore_held replace_all [] b absent closed h = refl
restore_held replace_all ((key, v) ∷ m) b absent ((k, e), closed) h =
    let gone : ¬ Occurs key b = λ o.
      let (u, w, at) = o in
      index_found (u ++ k) w (
        ap (index close_bracket) (
          append_assoc u k (close_bracket ∷ w)
          ∙ sym (
              at
              ∙ ap (λ t. u ++ (t ++ w)) e
              ∙ ap (λ t. u ++ t) (append_assoc k (close_bracket ∷ []) w)))
        ∙ h) in
    rw (absent b key v gone) (restore_held replace_all m b absent closed h)

-- With placeholders that end in `>` and hold at most 41 bytes, a client receives what the scan of
-- the whole answer writes and then, as it stands, what the scan holds back: the flush restores
-- nothing more. (`strings.ReplaceAll` leaves a text alone that does not hold what it replaces.)
pub stream_restored :
    (replace_all : Bytes → Bytes → Bytes → Bytes) (m : Mapping) (chunks : List Bytes)
    → ((s old new : Bytes) → ¬ Occurs old s → replace_all s old new ≡ s)
    → m ≢ []
    → IsShort m
    → IsClosed m
    → stream replace_all m [] chunks ≡ (scan m (flatten chunks)).0 ++ (scan m (flatten chunks)).1
stream_restored replace_all [] chunks absent ne short closed = absurd (ne refl)
stream_restored replace_all (e ∷ m) chunks absent ne short closed =
    let x = flatten chunks in
    stream_scan replace_all e m short chunks [] (scan-nil (e ∷ m))
    ∙ ap (λ t. (scan (e ∷ m) x).0 ++ t)
        (flush_verbatim (scan (e ∷ m) x).1 (scan-IsHeld (e ∷ m) (length x) x (omega arith)).0)
  where
    flush_verbatim : (b : Bytes) → index close_bracket b ≡ none → flush replace_all (e ∷ m) b ≡ b
    flush_verbatim [] h = unfold flush in refl
    flush_verbatim (c ∷ b) h =
        unfold flush in restore_held replace_all (e ∷ m) (c ∷ b) absent closed h
