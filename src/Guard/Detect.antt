-- ===== src/Guard/Detect.antt =====
-- internal/guard/detect.go. The regular expressions, `net.ParseIP` and the order in which `sort.Slice`
-- leaves equal elements are parameters; a match of an expression is a pair of places in the text.
pub mod Resolved
pub mod Tables
pub mod CheckDigits
use mathlib.Core.List.{flatten, reverse}
use proofgate.Base.{
  ℕ, zero, suc, ◌+◌, ◌-◌, ◌*◌, ◌%◌, ◌==◌, Bool, true, false, not, ◌&&◌, ◌||◌, Option, none, some,
  List, [], ◌∷◌, ◌++◌, map, length, take, drop, get_elem?, ltb, leb, if◌then◌else◌,
}
use proofgate.Base.Bytes.{Bytes, codes, str_eq}
use proofgate.Guard.Redact.{
  PiiType, email, ip_v4, ip_v6, credit_card, us_ssn, aadhaar, phone, PiiMatch,
}

-- `FindAllStringIndex` of each expression; whether `ParseIP` reads a text as an address that is
-- not one of IPv4; and the sort by start, a longer match first.
pub record Patterns : Type 0 where
  pub find : PiiType → Bytes → List (ℕ × ℕ)
  pub is_ip_v6 : Bytes → Bool
  pub sort : List PiiMatch → List PiiMatch

-- `text[idx[0]:idx[1]]` of a match, which lies in the text
abbrev pub between : Bytes → ℕ × ℕ → Bytes
between text (i, j) = take (j - i) (drop i text)

-- the digits of a text, `none` at a byte that is neither a digit nor skipped
unfoldable pub digits_of : (ℕ → Bool) → Bytes → Option (List ℕ)
digits_of skips [] = some []
digits_of skips (c ∷ s) = elim (digits_of skips s) [
  | none ↦ none
  | some ds ↦
      if leb b'0' c && leb c b'9' then some ((c - b'0') ∷ ds) else if skips c then some ds else none
]

-- from the last digit on; `alt` tells whether the next digit is doubled
unfoldable pub luhn_sum : Bool → List ℕ → ℕ
luhn_sum alt [] = 0
luhn_sum alt (d ∷ ds) =
    (if alt then (if ltb 9 (d * 2) then d * 2 - 9 else d * 2) else d) + luhn_sum (not alt) ds

unfoldable pub luhn_valid : Bytes → Bool
unfolding digits_of luhn_sum
luhn_valid s = elim (digits_of (λ c. (c == b' ') || (c == b'-')) s) [
  | none ↦ false
  | some ds ↦
      if ltb (length ds) 13 || ltb 19 (length ds)
      then false
      else luhn_sum false (reverse ds) % 10 == 0
]

abbrev pub verhoeff_d : List (List ℕ)
verhoeff_d =
    (0 ∷ 1 ∷ 2 ∷ 3 ∷ 4 ∷ 5 ∷ 6 ∷ 7 ∷ 8 ∷ 9 ∷ [])
    ∷ (1 ∷ 2 ∷ 3 ∷ 4 ∷ 0 ∷ 6 ∷ 7 ∷ 8 ∷ 9 ∷ 5 ∷ [])
    ∷ (2 ∷ 3 ∷ 4 ∷ 0 ∷ 1 ∷ 7 ∷ 8 ∷ 9 ∷ 5 ∷ 6 ∷ [])
    ∷ (3 ∷ 4 ∷ 0 ∷ 1 ∷ 2 ∷ 8 ∷ 9 ∷ 5 ∷ 6 ∷ 7 ∷ [])
    ∷ (4 ∷ 0 ∷ 1 ∷ 2 ∷ 3 ∷ 9 ∷ 5 ∷ 6 ∷ 7 ∷ 8 ∷ [])
    ∷ (5 ∷ 9 ∷ 8 ∷ 7 ∷ 6 ∷ 0 ∷ 4 ∷ 3 ∷ 2 ∷ 1 ∷ [])
    ∷ (6 ∷ 5 ∷ 9 ∷ 8 ∷ 7 ∷ 1 ∷ 0 ∷ 4 ∷ 3 ∷ 2 ∷ [])
    ∷ (7 ∷ 6 ∷ 5 ∷ 9 ∷ 8 ∷ 2 ∷ 1 ∷ 0 ∷ 4 ∷ 3 ∷ [])
    ∷ (8 ∷ 7 ∷ 6 ∷ 5 ∷ 9 ∷ 3 ∷ 2 ∷ 1 ∷ 0 ∷ 4 ∷ [])
    ∷ (9 ∷ 8 ∷ 7 ∷ 6 ∷ 5 ∷ 4 ∷ 3 ∷ 2 ∷ 1 ∷ 0 ∷ [])
    ∷ []

abbrev pub verhoeff_p : List (List ℕ)
verhoeff_p =
    (0 ∷ 1 ∷ 2 ∷ 3 ∷ 4 ∷ 5 ∷ 6 ∷ 7 ∷ 8 ∷ 9 ∷ [])
    ∷ (1 ∷ 5 ∷ 7 ∷ 6 ∷ 2 ∷ 8 ∷ 3 ∷ 0 ∷ 9 ∷ 4 ∷ [])
    ∷ (5 ∷ 8 ∷ 0 ∷ 3 ∷ 7 ∷ 9 ∷ 6 ∷ 1 ∷ 4 ∷ 2 ∷ [])
    ∷ (8 ∷ 9 ∷ 1 ∷ 6 ∷ 0 ∷ 4 ∷ 3 ∷ 5 ∷ 2 ∷ 7 ∷ [])
    ∷ (9 ∷ 4 ∷ 5 ∷ 3 ∷ 1 ∷ 2 ∷ 6 ∷ 8 ∷ 7 ∷ 0 ∷ [])
    ∷ (4 ∷ 2 ∷ 8 ∷ 6 ∷ 5 ∷ 7 ∷ 3 ∷ 9 ∷ 0 ∷ 1 ∷ [])
    ∷ (2 ∷ 7 ∷ 9 ∷ 3 ∷ 8 ∷ 0 ∷ 6 ∷ 4 ∷ 1 ∷ 5 ∷ [])
    ∷ (7 ∷ 0 ∷ 4 ∷ 6 ∷ 9 ∷ 1 ∷ 3 ∷ 2 ∷ 5 ∷ 8 ∷ [])
    ∷ []

-- `table[i][j]`, `none` out of range
unfoldable pub entry : List (List ℕ) → ℕ → ℕ → Option ℕ
entry table i j = elim (get_elem? table i) [ none ↦ none | some row ↦ get_elem? row j ]

unfoldable pub verhoeff_step : ℕ → ℕ → ℕ → Option ℕ
verhoeff_step i c d = elim (entry verhoeff_p (i % 8) d) [
  | none ↦ none
  | some p ↦ entry verhoeff_d c p
]

-- the loop, from the last digit on, at `i` and with `c`
unfoldable pub verhoeff_loop : ℕ → ℕ → List ℕ → Option ℕ
verhoeff_loop i c [] = some c
verhoeff_loop i c (d ∷ ds) = elim (verhoeff_step i c d) [
  | none ↦ none
  | some c' ↦ verhoeff_loop (suc i) c' ds
]

-- `none` if an index is out of range
unfoldable pub verhoeff_valid : Bytes → Option Bool
verhoeff_valid s = elim (digits_of (λ c. c == b' ') s) [
  | none ↦ some false
  | some ds ↦
      if not (length ds == 12)
      then some false
      else elim (verhoeff_loop 0 0 (reverse ds)) [ none ↦ none | some c ↦ some (c == 0) ]
]

-- the byte at a place of a text that has it
unfoldable pub has_byte : ℕ → ℕ → Bytes → Bool
has_byte i c s = elim (get_elem? s i) [ none ↦ false | some d ↦ d == c ]

unfoldable pub valid_ssn : Bytes → Bool
unfolding has_byte
valid_ssn s =
    let area = between s (0, 3) in
    if not (length s == 11) || (not (has_byte 3 b'-' s) || not (has_byte 6 b'-' s))
    then false
    else if str_eq area (codes "000") || (str_eq area (codes "666") || has_byte 0 b'9' s)
    then false
    else not (str_eq (between s (4, 6)) (codes "00"))
      && not (str_eq (between s (7, 11)) (codes "0000"))

-- `strings.ReplaceAll` of `-` and of a space by nothing
unfoldable pub cleaned : Bytes → Bytes
cleaned [] = []
cleaned (c ∷ s) = let rest = cleaned s in if (c == b'-') || (c == b' ') then rest else c ∷ rest

-- A match of a later element with the last one that is kept: what is kept in its place, and whether
-- both stay.
unfoldable pub overlaps : PiiMatch → PiiMatch → Bool
overlaps last m = ltb m.start last.stop

abbrev pub longer : PiiMatch → PiiMatch → PiiMatch
longer last m = if ltb (last.stop - last.start) (m.stop - m.start) then m else last

-- the loop over the sorted matches behind the first, with the last element of `filtered`
unfoldable pub resolve_from : PiiMatch → List PiiMatch → List PiiMatch
unfolding overlaps
resolve_from last [] = last ∷ []
resolve_from last (m ∷ ms) =
    let rest = resolve_from (if overlaps last m then longer last m else m) ms in
    if overlaps last m then rest else last ∷ rest

unfoldable pub resolve : List PiiMatch → List PiiMatch
unfolding resolve_from
resolve [] = []
resolve (m ∷ ms) = resolve_from m ms

module _ (P : Patterns) where
  -- whether a match of an expression counts
  unfoldable pub counts_as : PiiType → Bytes → Bool
  unfolding verhoeff_valid luhn_valid valid_ssn cleaned
  counts_as email value = true
  counts_as ip_v4 value = true
  counts_as ip_v6 value = P.is_ip_v6 value
  counts_as us_ssn value = valid_ssn value
  counts_as aadhaar value = elim (verhoeff_valid value) [ none ↦ false | some b ↦ b ]
  counts_as credit_card value =
      leb 13 (length (cleaned value)) && (leb (length (cleaned value)) 19 && luhn_valid value)
  counts_as phone value = true

  -- one of the loops over an expression's matches
  unfoldable pub matches_of : PiiType → Bytes → List (ℕ × ℕ) → List PiiMatch
  unfolding counts_as
  matches_of k text [] = []
  matches_of k text ((i, j) ∷ idx) =
      let rest = matches_of k text idx in
      let value = between text (i, j) in
      if counts_as k value
      then record { kind = k; value = value; start = i; stop = j } ∷ rest
      else rest

  abbrev pub all_of : Bytes → List PiiType → List PiiMatch
  all_of text [] = []
  all_of text (k ∷ ks) = matches_of k text (P.find k text) ++ all_of text ks

  unfoldable pub detect_pii : Bytes → List PiiMatch
  unfolding resolve
  detect_pii text =
      resolve
        (P.sort (all_of text (email ∷ ip_v4 ∷ ip_v6 ∷ us_ssn ∷ aadhaar ∷ credit_card ∷ phone ∷ [])))

pub data Kind : Type 0 where
  secret pii : Kind

pub record Span : Type 0 where
  pub kind : Kind
  pub value : Bytes
  pub start : ℕ
  pub stop : ℕ

abbrev pub secret_spans : Bytes → List (ℕ × ℕ) → List Span
secret_spans text =
    map (λ ij. record { kind = secret; value = between text ij; start = ij.0; stop = ij.1 })

abbrev pub pii_span : PiiMatch → Span
pii_span m = record { kind = pii; value = m.value; start = m.start; stop = m.stop }

-- `Detect`, over the matches of the expressions for secrets and the sort of spans
module _ (P : Patterns) (find_secrets : List (Bytes → List (ℕ × ℕ)))
    (sort_spans : List Span → List Span) where
  unfoldable pub detect : Bytes → List Span
  unfolding detect_pii
  detect text = sort_spans (
      flatten (map (λ find. secret_spans text (find text)) find_secrets)
      ++ map pii_span (detect_pii P text))
