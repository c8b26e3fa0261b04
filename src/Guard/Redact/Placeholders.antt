-- ===== src/Guard/Redact/Placeholders.antt =====
-- The placeholders of internal/guard/redact.go, as the restorer of internal/guard/restore.go finds them.
use proofgate.Base.{
  ℕ, zero, suc, ◌+◌, ◌^◌, ◌==◌, ◌<◌, ◌≤◌, ◌≡◌, ◌≢◌, refl, sym, ap, ◌∙◌, Bool, true, not, ◌&&◌, some,
  [], ◌∷◌, ◌++◌, length, length-append, append_assoc, append-nil, take, drop, arith, All,
  All-append, All-map, if◌then◌else◌,
}
use mathlib.Core.List.{append_cancel_left, append_cancel_right, tail-eq_of_cons-eq}
use proofgate.Base.Bytes.{Bytes}
use proofgate.Guard.Restorer.{
  Mapping, lookup, index, open_bracket, close_bracket, emit, scan, max_placeholder_len,
}
use proofgate.Guard.Restorer.Chunks.{scan_hit}
use proofgate.Guard.Redact.{
  PiiType, email, ip_v4, ip_v6, credit_card, us_ssn, aadhaar, phone, type_name, decimal,
  placeholder,
}
use proofgate.Guard.Redact.Decimal.{decimal_injective, decimal-IsDigit, length-decimal}

-- A placeholder without its brackets' end.
abbrev body : PiiType → ℕ → Bytes
body k n = open_bracket ∷ (type_name k ++ b'_' ∷ decimal n)

placeholder-body :
    (k : PiiType) (n : ℕ) (rest : Bytes)
    → placeholder k n ++ rest ≡ body k n ++ close_bracket ∷ rest
unfolding placeholder
placeholder-body k n rest =
    let tail = decimal n ++ b'>' ∷ [] in
    ap (λ t. open_bracket ∷ t)
      (append_assoc (type_name k) (b'_' ∷ tail) rest
        ∙ (ap (λ t. type_name k ++ b'_' ∷ t) (append_assoc (decimal n) (b'>' ∷ []) rest)
            ∙ sym (append_assoc (type_name k) (b'_' ∷ decimal n) (close_bracket ∷ rest))))

-- A type is told by the fourth byte of its name.
fourth : PiiType → ℕ
fourth email = b'I'
fourth ip_v4 = b'4'
fourth ip_v6 = b'6'
fourth credit_card = b'D'
fourth us_ssn = b'S'
fourth aadhaar = b'H'
fourth phone = b'N'

type_of : ℕ → PiiType
type_of c =
    if c == b'I'
    then email
    else if c == b'4'
    then ip_v4
    else if c == b'6'
    then ip_v6
    else if c == b'D'
    then credit_card
    else if c == b'S'
    then us_ssn
    else if c == b'H'
    then aadhaar
    else phone

type_of-fourth : (k : PiiType) → type_of (fourth k) ≡ k
unfolding type_of fourth
type_of-fourth email = refl
type_of-fourth ip_v4 = refl
type_of-fourth ip_v6 = refl
type_of-fourth credit_card = refl
type_of-fourth us_ssn = refl
type_of-fourth aadhaar = refl
type_of-fourth phone = refl

-- the byte at a place, 0 behind the end
byte_at : ℕ → Bytes → ℕ
byte_at i [] = 0
byte_at zero (c ∷ s) = c
byte_at (suc i) (c ∷ s) = byte_at i s

byte_at-placeholder : (k : PiiType) (n : ℕ) → byte_at 4 (placeholder k n) ≡ fourth k
unfolding byte_at placeholder fourth
byte_at-placeholder email n = refl
byte_at-placeholder ip_v4 n = refl
byte_at-placeholder ip_v6 n = refl
byte_at-placeholder credit_card n = refl
byte_at-placeholder us_ssn n = refl
byte_at-placeholder aadhaar n = refl
byte_at-placeholder phone n = refl

byte_at-type_name : (k : PiiType) → byte_at 3 (type_name k) ≡ fourth k
unfolding byte_at fourth
byte_at-type_name email = refl
byte_at-type_name ip_v4 = refl
byte_at-type_name ip_v6 = refl
byte_at-type_name credit_card = refl
byte_at-type_name us_ssn = refl
byte_at-type_name aadhaar = refl
byte_at-type_name phone = refl

pub type_name_injective : (k k' : PiiType) → type_name k ≡ type_name k' → k ≡ k'
type_name_injective k k' e =
    sym (type_of-fourth k)
    ∙ (ap type_of (sym (byte_at-type_name k) ∙ (ap (byte_at 3) e ∙ byte_at-type_name k'))
        ∙ type_of-fourth k')

pub placeholder_type : (k k' : PiiType) (n n' : ℕ) → placeholder k n ≡ placeholder k' n' → k ≡ k'
placeholder_type k k' n n' e =
    sym (type_of-fourth k)
    ∙ (ap type_of (sym (byte_at-placeholder k n) ∙ (ap (byte_at 4) e ∙ byte_at-placeholder k' n'))
        ∙ type_of-fourth k')

pub placeholder_number : (k : PiiType) (n n' : ℕ) → placeholder k n ≡ placeholder k n' → n ≡ n'
unfolding placeholder
placeholder_number k n n' e = decimal_injective n n' (
    append_cancel_right (decimal n) (decimal n') (b'>' ∷ []) (
      tail-eq_of_cons-eq (
        append_cancel_left (type_name k) (b'_' ∷ (decimal n ++ b'>' ∷ []))
          (b'_' ∷ (decimal n' ++ b'>' ∷ [])) (tail-eq_of_cons-eq e))))

length-type_name : (k : PiiType) → length (type_name k) ≤ 11
length-type_name email = omega arith
length-type_name ip_v4 = omega arith
length-type_name ip_v6 = omega arith
length-type_name credit_card = omega arith
length-type_name us_ssn = omega arith
length-type_name aadhaar = omega arith
length-type_name phone = omega arith

pub length-placeholder :
    (k : PiiType) (n : ℕ) → n < 10 ^ 26 → length (placeholder k n) ≤ max_placeholder_len + 1
unfolding placeholder
length-placeholder k n h = omega (
  arith,
  length-type_name k,
  length-decimal 26 n h,
  length-append (type_name k) (b'_' ∷ (decimal n ++ b'>' ∷ [])),
  length-append (decimal n) (b'>' ∷ []),
)

-- `body` has no `>`.
abbrev IsOpen : Bytes → Type 0
IsOpen = All (λ c. c ≢ close_bracket)

is_open : Bytes → Bool
is_open [] = true
is_open (c ∷ s) = not (c == close_bracket) && is_open s

is_open-IsOpen : (s : Bytes) → is_open s ≡ true → IsOpen s
unfolding is_open
is_open-IsOpen [] h = tt
is_open-IsOpen (c ∷ s) h = (ground arith, is_open-IsOpen s (ground arith))

is_open-type_name : (k : PiiType) → is_open (type_name k) ≡ true
unfolding is_open
is_open-type_name email = refl
is_open-type_name ip_v4 = refl
is_open-type_name ip_v6 = refl
is_open-type_name credit_card = refl
is_open-type_name us_ssn = refl
is_open-type_name aadhaar = refl
is_open-type_name phone = refl

type_name-IsOpen : (k : PiiType) → IsOpen (type_name k)
type_name-IsOpen k = is_open-IsOpen (type_name k) (is_open-type_name k)

body-IsOpen : (k : PiiType) (n : ℕ) → IsOpen (body k n)
body-IsOpen k n = (
  omega arith,
  All-append (λ c. c ≢ close_bracket) (type_name k) (b'_' ∷ decimal n) (type_name-IsOpen k)
      (omega arith, All-map (decimal n) (λ c h. omega (arith, h)) (decimal-IsDigit n)),
)

index_end :
    (s rest : Bytes) → IsOpen s → index close_bracket (s ++ close_bracket ∷ rest) ≡ some (length s)
unfolding index
index_end [] rest h = refl
index_end (c ∷ s) rest (h, k) = ground (arith, index_end s rest k)

take_end :
    (s rest : Bytes) → take (suc (length s)) (s ++ close_bracket ∷ rest) ≡ s ++ close_bracket ∷ []
take_end [] rest = refl
take_end (c ∷ s) rest = ap (λ t. c ∷ t) (take_end s rest)

drop_end : (s rest : Bytes) → drop (suc (length s)) (s ++ close_bracket ∷ rest) ≡ rest
drop_end [] rest = refl
drop_end (c ∷ s) rest = drop_end s rest

-- The restorer's scan writes the original of a placeholder that it knows.
pub scan-placeholder :
    (m : Mapping) (k : PiiType) (n : ℕ) (v rest : Bytes)
    → lookup (placeholder k n) m ≡ some v
    → scan m (placeholder k n ++ rest) ≡ emit v (scan m rest)
scan-placeholder m k n v rest h =
    let s = body k n in
    let tail = type_name k ++ b'_' ∷ decimal n in
    let key : s ++ close_bracket ∷ [] ≡ placeholder k n =
      sym (placeholder-body k n []) ∙ append-nil (placeholder k n) in
    ap (scan m) (placeholder-body k n rest)
    ∙ (scan_hit m (tail ++ close_bracket ∷ rest) (length s) v (index_end s rest (body-IsOpen k n))
          (ap (λ t. lookup t m) (take_end s rest ∙ key) ∙ h)
        ∙ ap (λ t. emit v (scan m t)) (drop_end s rest))

pub placeholder-IsClosed :
    (k : PiiType) (n : ℕ) → (s : Bytes) × (placeholder k n ≡ s ++ close_bracket ∷ [])
placeholder-IsClosed k n = (body k n, sym (append-nil (placeholder k n)) ∙ placeholder-body k n [])
