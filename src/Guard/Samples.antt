-- ===== src/Guard/Samples.antt =====
-- Stand-ins for the parameters of the guard, for runs at concrete inputs.
use proofgate.Base.{
  ℕ, ◌-◌, ◌==◌, ◌≤◌, ◌≡◌, refl, sym, ◌∙◌, Bool, true, false, not, ◌&&◌, ◌||◌, List, [], ◌∷◌, length,
  ltb, leb, append-nil, arith, All, All-map, if◌then◌else◌, Bool-cases, inl, inr,
}
use proofgate.Base.Bytes.{Bytes, str_eq, str_eq_iff}
use proofgate.Guard.Restorer.{open_bracket}
use proofgate.Guard.Restorer.Stream.{Occurs}
use proofgate.Guard.Redact.Runs.{IsPlain}
use proofgate.Guard.Redact.{
  PiiType, email, ip_v4, ip_v6, credit_card, us_ssn, aadhaar, phone, PiiMatch,
}
use proofgate.Guard.Detect.{Patterns}
use proofgate.Guard.Detect.Resolved.{PatternLaws, Ascending}

-- replaces a text that is `old` as a whole
abbrev pub replace_whole : Bytes → Bytes → Bytes → Bytes
replace_whole s old new = if str_eq s old then new else s

pub replace_whole_absent : (s old new : Bytes) → ¬ Occurs old s → replace_whole s old new ≡ s
replace_whole_absent s old new h = elim (Bool-cases (str_eq s old)) [
  | inl e ↦ absurd (h ([], [], (str_eq_iff s old).0 e ∙ sym (append-nil old)))
  | inr e ↦ rw e refl
]

-- by start, a longer match first
abbrev goes_first : PiiMatch → PiiMatch → Bool
goes_first m n =
    ltb m.start n.start || ((m.start == n.start) && leb (n.stop - n.start) (m.stop - m.start))

pub insert : PiiMatch → List PiiMatch → List PiiMatch
insert m [] = m ∷ []
insert m (n ∷ ns) = let rest = insert m ns in if goes_first m n then m ∷ n ∷ ns else n ∷ rest

pub insertion_sort : List PiiMatch → List PiiMatch
unfolding insert
insertion_sort [] = []
insertion_sort (m ∷ ms) = insert m (insertion_sort ms)

All-insert :
    (Q : PiiMatch → Type 0) (m : PiiMatch) (ms : List PiiMatch)
    → Q m
    → All Q ms
    → All Q (insert m ms)
unfolding insert
All-insert Q m [] q h = (q, tt)
All-insert Q m (n ∷ ns) q (p, h) = elim (Bool-cases (goes_first m n)) [
  | inl e ↦ rw e (q, (p, h))
  | inr e ↦ rw e (p, All-insert Q m ns q h)
]

All-insertion_sort :
    (Q : PiiMatch → Type 0) (ms : List PiiMatch) → All Q ms → All Q (insertion_sort ms)
unfolding insertion_sort
All-insertion_sort Q [] h = tt
All-insertion_sort Q (m ∷ ms) (q, h) =
    All-insert Q m (insertion_sort ms) q (All-insertion_sort Q ms h)

insert-Ascending : (m : PiiMatch) (ms : List PiiMatch) → Ascending ms → Ascending (insert m ms)
unfolding insert
insert-Ascending m [] h = (tt, tt)
insert-Ascending m (n ∷ ns) (h, k) = elim (Bool-cases (goes_first m n)) [
  | inl e ↦
      let first : m.start ≤ n.start = ground arith in
      rw e ((first, All-map ns (λ x l. omega (arith, l)) h), (h, k))
  | inr e ↦
      let behind : n.start ≤ m.start = ground arith in
      rw e (All-insert (λ x. n.start ≤ x.start) m ns behind h, insert-Ascending m ns k)
]

insertion_sort-Ascending : (ms : List PiiMatch) → Ascending (insertion_sort ms)
unfolding insertion_sort
insertion_sort-Ascending [] = tt
insertion_sort-Ascending (m ∷ ms) =
    insert-Ascending m (insertion_sort ms) (insertion_sort-Ascending ms)

-- finds one address, at the places 3 to 8
pub find_address : PiiType → Bytes → List (ℕ × ℕ)
find_address email text = if leb 8 (length text) then (3, 8) ∷ [] else []
find_address _ text = []

abbrev pub patterns : Patterns
patterns = record { find = find_address; is_ip_v6 = λ s. false; sort = insertion_sort }

address_within :
    (k : PiiType) (text : Bytes)
    → All (λ ij. (ij.0 ≤ ij.1) × (ij.1 ≤ length text)) (find_address k text)
unfolding find_address
address_within email text = elim (Bool-cases (leb 8 (length text))) [
  | inl e ↦ rw e ((omega arith, ground arith), tt)
  | inr e ↦ rw e tt
]
address_within ip_v4 text = tt
address_within ip_v6 text = tt
address_within credit_card text = tt
address_within us_ssn text = tt
address_within aadhaar text = tt
address_within phone text = tt

pub patterns-PatternLaws : PatternLaws patterns
patterns-PatternLaws = record {
  keeps = All-insertion_sort;
  ascends = insertion_sort-Ascending;
  within = address_within;
}

unfoldable pub is_plain : Bytes → Bool
is_plain [] = true
is_plain (c ∷ s) = not (c == open_bracket) && is_plain s

pub is_plain-IsPlain : (s : Bytes) → is_plain s ≡ true → IsPlain s
unfolding is_plain
is_plain-IsPlain [] h = tt
is_plain-IsPlain (c ∷ s) h = (ground arith, is_plain-IsPlain s (ground arith))
