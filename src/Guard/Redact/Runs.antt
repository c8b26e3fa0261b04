-- ===== src/Guard/Redact/Runs.antt =====
-- What the loop of internal/guard/redact.go gives.
use proofgate.Base.{
  ℕ, zero, suc, ◌-◌, ◌≤◌, ◌≡◌, ◌≢◌, refl, false, some, List, [], ◌∷◌, ◌++◌, length, take, drop, ltb,
  arith, All, Bool-cases, inl, inr,
}
use proofgate.Base.Bytes.{Bytes}
use proofgate.Guard.Restorer.{Mapping, open_bracket}
use proofgate.Guard.Redact.{
  PiiMatch, Numberer, count_up, placeholder, put, slice, gap, Redacted, redact_loop,
}

-- Text with no `<`.
abbrev pub IsPlain : Bytes → Type 0
IsPlain = All (λ c. c ≢ open_bracket)

-- Matches as they are found in a text from a place on: one behind the other, with their values, and
-- no `<` in what is between them.
abbrev pub Matched : Bytes → ℕ → List PiiMatch → Type 0
Matched text last [] = IsPlain (drop last text)
Matched text last (m ∷ ms) =
    (last ≤ m.start)
    × (m.start ≤ m.stop)
    × (m.stop ≤ length text)
    × (m.value ≡ take (m.stop - m.start) (drop m.start text))
    × IsPlain (take (m.start - last) (drop last text))
    × Matched text m.stop ms

-- What a run of the loop gives when the matches are in place: its numbers, mapping and text.
unfoldable pub counted : Numberer → List PiiMatch → Numberer
counted counts [] = counts
counted counts (m ∷ ms) = counted (count_up m.kind counts) ms

abbrev pub new_key : Numberer → PiiMatch → Bytes
new_key counts m = placeholder m.kind (count_up m.kind counts m.kind)

unfoldable pub assigned : Numberer → Mapping → List PiiMatch → Mapping
assigned counts mapping [] = mapping
assigned counts mapping (m ∷ ms) =
    assigned (count_up m.kind counts) (put (new_key counts m) m.value mapping) ms

unfoldable pub shown : Bytes → ℕ → Numberer → List PiiMatch → Bytes
shown text last counts [] = drop last text
shown text last counts (m ∷ ms) =
    take (m.start - last) (drop last text)
    ++ (new_key counts m ++ shown text m.stop (count_up m.kind counts) ms)

drop_all : (n : ℕ) (s : Bytes) → length s ≤ n → drop n s ≡ []
drop_all zero [] h = refl
drop_all zero (c ∷ s) h = absurd (omega arith)
drop_all (suc n) [] h = refl
drop_all (suc n) (c ∷ s) h = drop_all n s (omega arith)

gap_matched :
    (text : Bytes) (last start : ℕ)
    → last ≤ start
    → start ≤ length text
    → gap text last start ≡ some (take (start - last) (drop last text))
unfolding gap slice
gap_matched text last start h k = elim (Bool-cases (ltb last start)) [
  | inl e ↦ ground arith
  | inr e ↦ let none_left : start - last ≡ 0 = ground arith in rw (e, none_left) refl
]

redact_loop_step :
    (text : Bytes) (last : ℕ) (counts : Numberer) (mapping : Mapping) (m : PiiMatch)
    (ms : List PiiMatch) (between : Bytes) (r : Redacted)
    → gap text last m.start ≡ some between
    → redact_loop false text m.stop
        (count_up m.kind counts)
        (put (new_key counts m) m.value mapping)
        ms
      ≡ some r
    → redact_loop false text last counts mapping (m ∷ ms)
      ≡ some (record r { text = between ++ (new_key counts m ++ r.text) })
unfolding redact_loop
redact_loop_step text last counts mapping m ms between r e f = rw (redact_loop, e) (rw f refl)

pub redact_loop-Matched :
    (text : Bytes) (last : ℕ) (counts : Numberer) (mapping : Mapping) (ms : List PiiMatch)
    → Matched text last ms
    → redact_loop false text last counts mapping ms
      ≡ some (record {
        text = shown text last counts ms;
        mapping = assigned counts mapping ms;
        counts = counted counts ms;
      })
unfolding redact_loop shown assigned counted
redact_loop-Matched text last counts mapping [] h = elim (Bool-cases (ltb last (length text))) [
  | inl e ↦ rw e refl
  | inr e ↦ rw (e, drop_all last text (ground arith)) refl
]
redact_loop-Matched text last counts mapping (m ∷ ms) (a, b, c, v, p, q) =
    let key = new_key counts m in
    let counts' = count_up m.kind counts in
    redact_loop_step text last counts mapping m ms (take (m.start - last) (drop last text))
      (record {
        text = shown text m.stop counts' ms;
        mapping = assigned counts' (put key m.value mapping) ms;
        counts = counted counts' ms;
      })
      (gap_matched text last m.start a (omega arith))
      (redact_loop-Matched text m.stop counts' (put key m.value mapping) ms q)
