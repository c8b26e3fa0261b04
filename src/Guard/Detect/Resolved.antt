-- ===== src/Guard/Detect/Resolved.antt =====
-- What `DetectPII` of internal/guard/detect.go keeps of the matches that it finds.
use proofgate.Base.{
  ℕ, zero, suc, ◌-◌, ◌≤◌, ◌≡◌, refl, List, [], ◌∷◌, length, take, drop, ltb, arith, All, All-append,
  Bool-cases, inl, inr,
}
use proofgate.Base.Bytes.{Bytes}
use proofgate.Guard.Redact.{
  PiiType, email, ip_v4, ip_v6, credit_card, us_ssn, aadhaar, phone, PiiMatch,
}
use proofgate.Guard.Redact.Runs.{IsPlain, Matched}
use proofgate.Guard.Detect.{
  Patterns, between, overlaps, resolve_from, resolve, matches_of, all_of, detect_pii, counts_as,
}

-- A match within a text, with its value.
abbrev InText : Bytes → PiiMatch → Type 0
InText text m =
    (m.start ≤ m.stop)
    × (m.stop ≤ length text)
    × (m.value ≡ take (m.stop - m.start) (drop m.start text))

abbrev pub Ascending : List PiiMatch → Type 0
Ascending [] = Unit
Ascending (m ∷ ms) = All (λ m'. m.start ≤ m'.start) ms × Ascending ms

-- The sort only rearranges, and orders by the start; the expressions match within the text.
pub record PatternLaws (P : Patterns) : Type 1 where
  pub keeps : (Q : PiiMatch → Type 0) (ms : List PiiMatch) → All Q ms → All Q (P.sort ms)
  pub ascends : (ms : List PiiMatch) → Ascending (P.sort ms)
  pub within :
      (k : PiiType) (text : Bytes)
      → All (λ ij. (ij.0 ≤ ij.1) × (ij.1 ≤ length text)) (P.find k text)

take-IsPlain : (n : ℕ) (s : Bytes) → IsPlain s → IsPlain (take n s)
take-IsPlain zero s h = tt
take-IsPlain (suc n) [] h = tt
take-IsPlain (suc n) (c ∷ s) (h, k) = (h, take-IsPlain n s k)

drop-IsPlain : (n : ℕ) (s : Bytes) → IsPlain s → IsPlain (drop n s)
drop-IsPlain zero s h = h
drop-IsPlain (suc n) [] h = tt
drop-IsPlain (suc n) (c ∷ s) (h, k) = drop-IsPlain n s k

resolve_from-Matched :
    (text : Bytes) (from : ℕ) (last : PiiMatch) (ms : List PiiMatch)
    → IsPlain text
    → from ≤ last.start
    → InText text last
    → All (InText text) ms
    → Ascending (last ∷ ms)
    → Matched text from (resolve_from last ms)
unfolding resolve_from overlaps
resolve_from-Matched text from last [] plain h (a, b, c) k s = (
  h,
  a,
  b,
  c,
  take-IsPlain (last.start - from) (drop from text) (drop-IsPlain from text plain),
  drop-IsPlain last.stop text plain,
)
resolve_from-Matched text from last (m ∷ ms) plain h (a, b, c) (i, k) ((l, ls), (s, t)) =
    elim (Bool-cases (overlaps last m)) [
      | inl e ↦ elim (Bool-cases (ltb (last.stop - last.start) (m.stop - m.start))) [
        | inl f ↦ rw (e, f) (resolve_from-Matched text from m ms plain (omega arith) i k (s, t))
        | inr f ↦ rw (e, f) (resolve_from-Matched text from last ms plain h (a, b, c) k (ls, t))
      ]
      | inr e ↦
          let behind : last.stop ≤ m.start = ground arith in
          rw e (
            h,
            a,
            b,
            c,
            take-IsPlain (last.start - from) (drop from text) (drop-IsPlain from text plain),
            resolve_from-Matched text last.stop m ms plain behind i k (s, t),
          )
    ]

resolve-Matched :
    (text : Bytes) (ms : List PiiMatch)
    → IsPlain text
    → All (InText text) ms
    → Ascending ms
    → Matched text 0 (resolve ms)
unfolding resolve
resolve-Matched text [] plain k s = plain
resolve-Matched text (m ∷ ms) plain (i, k) s =
    resolve_from-Matched text 0 m ms plain (omega arith) i k s

module _ (P : Patterns) (laws : PatternLaws P) where
  matches_of-InText :
      (k : PiiType) (text : Bytes) (idx : List (ℕ × ℕ))
      → All (λ ij. (ij.0 ≤ ij.1) × (ij.1 ≤ length text)) idx
      → All (InText text) (matches_of P k text idx)
  unfolding matches_of
  matches_of-InText k text [] h = tt
  matches_of-InText k text ((i, j) ∷ idx) ((a, b), h) =
      elim (Bool-cases (counts_as P k (between text (i, j)))) [
        | inl e ↦ rw e ((a, b, refl), matches_of-InText k text idx h)
        | inr e ↦ rw e (matches_of-InText k text idx h)
      ]

  all_of-InText : (text : Bytes) (ks : List PiiType) → All (InText text) (all_of P text ks)
  all_of-InText text [] = tt
  all_of-InText text (k ∷ ks) =
      All-append (InText text) (matches_of P k text (P.find k text)) (all_of P text ks)
        (matches_of-InText k text (P.find k text) (laws.within k text)) (all_of-InText text ks)

  -- The matches that are kept stand in the text one behind the other, none reaching into the next,
  -- each with the text that it covers as its value: in a text with no `<`, where the expressions
  -- match within the text and the sort rearranges what it is given in the order of the starts.
  pub detect_pii-Matched : (text : Bytes) → IsPlain text → Matched text 0 (detect_pii P text)
  unfolding detect_pii
  detect_pii-Matched text plain =
      let found =
        all_of P text (email ∷ ip_v4 ∷ ip_v6 ∷ us_ssn ∷ aadhaar ∷ credit_card ∷ phone ∷ []) in
      resolve-Matched text (P.sort found) plain
        (laws.keeps (InText text) found (
          all_of-InText text (email ∷ ip_v4 ∷ ip_v6 ∷ us_ssn ∷ aadhaar ∷ credit_card ∷ phone ∷ [])))
        (laws.ascends found)
