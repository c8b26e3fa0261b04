-- ===== src/Guard/Redact.antt =====
-- internal/guard/redact.go, with the data types of internal/guard/detect.go. The mapping is a list of
-- pairs with distinct keys; a numberer is a function that is 0 where nothing was counted.
pub mod Decimal
pub mod Placeholders
pub mod Runs
pub mod Originals
pub mod Restored
use proofgate.Base.{
  ℕ, zero, suc, ◌+◌, ◌-◌, ◌*◌, ◌/◌, ◌%◌, ◌==◌, Bool, true, false, ◌&&◌, Option, none, some, List,
  [], ◌∷◌, ◌++◌, length, take, drop, ltb, leb, if◌then◌else◌,
}
use proofgate.Base.Bytes.{Bytes, codes, str_eq}
use proofgate.Guard.Restorer.{Mapping}

pub data PiiType : Type 0 where
  email ip_v4 ip_v6 credit_card us_ssn aadhaar phone : PiiType

abbrev pub type_name : PiiType → Bytes
type_name email = codes "EMAIL"
type_name ip_v4 = codes "IPV4"
type_name ip_v6 = codes "IPV6"
type_name credit_card = codes "CREDIT_CARD"
type_name us_ssn = codes "US_SSN"
type_name aadhaar = codes "AADHAAR"
type_name phone = codes "PHONE"

pub record PiiMatch : Type 0 where
  pub kind : PiiType  -- `Type`
  pub value : Bytes
  pub start : ℕ
  pub stop : ℕ  -- `End`

-- `%d`; a round takes a digit off, so `n` rounds are enough
unfoldable pub digits : ℕ → ℕ → Bytes
digits zero n = []
digits (suc fuel) n =
    let rest = digits fuel (n / 10) in
    if ltb n 10 then (b'0' + n) ∷ [] else rest ++ (b'0' + n % 10) ∷ []

unfoldable pub decimal : ℕ → Bytes
unfolding digits
decimal n = digits (suc n) n

abbrev pub Numberer : Type 0
Numberer = PiiType → ℕ

unfoldable pub count_up : PiiType → Numberer → Numberer
count_up k counts t = if str_eq (type_name k) (type_name t) then counts k + 1 else counts t

-- `<TYPE_N>`
unfoldable pub placeholder : PiiType → ℕ → Bytes
unfolding decimal
placeholder k n = b'<' ∷ (type_name k ++ b'_' ∷ (decimal n ++ b'>' ∷ []))

unfoldable pub mask : PiiType → Bytes
mask k = codes "[REDACTED:" ++ (type_name k ++ b']' ∷ [])

-- `mapping[k] = v`
unfoldable pub put : Bytes → Bytes → Mapping → Mapping
put k v [] = (k, v) ∷ []
put k v ((j, w) ∷ m) = let rest = put k v m in if str_eq j k then (k, v) ∷ m else (j, w) ∷ rest

-- `text[from:to]`, `none` where it panics
unfoldable pub slice : Bytes → ℕ → ℕ → Option Bytes
slice text from to =
    if leb from to && leb to (length text) then some (take (to - from) (drop from text)) else none

-- the text between two matches
unfoldable pub gap : Bytes → ℕ → ℕ → Option Bytes
unfolding slice
gap text last start = if ltb last start then slice text last start else some []

pub record Redacted : Type 0 where
  pub text : Bytes
  pub mapping : Mapping
  pub counts : Numberer

-- the loop and what follows it; `none` for a panic
unfoldable pub redact_loop : Bool → Bytes → ℕ → Numberer → Mapping → List PiiMatch → Option Redacted
unfolding gap count_up placeholder mask put
redact_loop masks text last counts mapping [] = some (record {
  text = (if ltb last (length text) then drop last text else []);
  mapping = mapping;
  counts = counts;
})
redact_loop masks text last counts mapping (m ∷ ms) =
    let counts' = if masks then counts else count_up m.kind counts in
    let shown = if masks then mask m.kind else placeholder m.kind (counts' m.kind) in
    let mapping' = if masks then mapping else put shown m.value mapping in
    let rest = redact_loop masks text m.stop counts' mapping' ms in
    elim (gap text last m.start) [
      | none ↦ none
      | some between ↦ elim rest [
        | none ↦ none
        | some r ↦ some (record r { text = between ++ (shown ++ r.text) })
      ]
    ]

-- `Redact`; a mapping that is nil is empty
unfoldable pub redact : Bool → Bytes → List PiiMatch → Numberer → Option Redacted
unfolding redact_loop
redact masks text [] counts = some (record { text = text; mapping = []; counts = counts })
redact masks text (m ∷ ms) counts = redact_loop masks text 0 counts [] (m ∷ ms)
