-- ===== src/Guard/Detect/CheckDigits.antt =====
-- The check digit of an Aadhaar number, as `VerhoeffValid` of internal/guard/detect.go tests it.
use native.Mathlib.Nat.{mod-lt}
use mathlib.Core.List.{reverse, reverse-append, reverse-cons}
use proofgate.Base.{
  ℕ, suc, ◌%◌, ◌==◌, ◌<◌, ◌≡◌, ◌≢◌, refl, ap, ◌∙◌, Bool, true, false, ◌&&◌, Option, none, some,
  List, [], ◌∷◌, ◌++◌, length, length-append, append_assoc, leb, arith, All, All-append,
  if◌then◌else◌, Bool-cases, Option-cases, inl, inr, subst,
}
use proofgate.Base.Bytes.{Bytes}
use proofgate.Guard.Detect.{digits_of, verhoeff_step, verhoeff_loop, verhoeff_valid}
use proofgate.Guard.Detect.Tables.{Differ, entry_digits, entry_row, entry_column}

-- a digit that is not the one given
other : ℕ → ℕ
other a = if a == 0 then 1 else 0

other_lem : (a : ℕ) → (other a < 10) × (a ≢ other a)
unfolding other
other_lem a = (ground arith, ground arith)

step_digit :
    (i c a b : ℕ)
    → c < 10
    → a < 10
    → b < 10
    → a ≢ b
    → Differ (verhoeff_step i c a) (verhoeff_step i c b)
unfolding verhoeff_step
step_digit i c a b p q r h =
    let (x, y, e, f, l, m, n) = entry_digits (i % 8) a b (mod-lt i (omega arith)) q r h in
    rw (verhoeff_step, e, f) (entry_row c x y p l m n)

step_state :
    (i c d a : ℕ)
    → c < 10
    → d < 10
    → a < 10
    → c ≢ d
    → Differ (verhoeff_step i c a) (verhoeff_step i d a)
unfolding verhoeff_step
step_state i c d a p q r h =
    let (x, y, e, f, l, m, n) =
      entry_digits (i % 8) a (other a) (mod-lt i (omega arith)) r (other_lem a).0 (other_lem a).1 in
    rw (verhoeff_step, e) (entry_column x c d l p q h)

abbrev IsDigits : List ℕ → Type 0
IsDigits = All (λ d. d < 10)

loop_state :
    (i c d : ℕ) (ds : List ℕ)
    → c < 10
    → d < 10
    → c ≢ d
    → IsDigits ds
    → Differ (verhoeff_loop i c ds) (verhoeff_loop i d ds)
unfolding verhoeff_loop
loop_state i c d [] p q h k = (c, d, refl, refl, p, q, h)
loop_state i c d (a ∷ ds) p q h (r, k) =
    let (x, y, e, f, l, m, n) = step_state i c d a p q r h in
    rw (verhoeff_loop, e, f) (loop_state (suc i) x y ds l m n k)

loop_digit :
    (i c a b : ℕ) (xs ys : List ℕ)
    → c < 10
    → a < 10
    → b < 10
    → a ≢ b
    → IsDigits xs
    → IsDigits ys
    → Differ (verhoeff_loop i c (xs ++ a ∷ ys)) (verhoeff_loop i c (xs ++ b ∷ ys))
unfolding verhoeff_loop
loop_digit i c a b [] ys p q r h k l =
    let (x, y, e, f, s, t, n) = step_digit i c a b p q r h in
    rw (verhoeff_loop, e, f) (loop_state (suc i) x y ys s t n l)
loop_digit i c a b (z ∷ xs) ys p q r h (w, k) l =
    let (x, y, e, f, s, t, n) = step_digit i c z (other z) p w (other_lem z).0 (other_lem z).1 in
    rw (verhoeff_loop, e) (loop_digit (suc i) x a b xs ys s q r h k l)

abbrev Digits? : Option (List ℕ) → Type 0
Digits? none = Unit
Digits? (some ds) = IsDigits ds

digits_of-Digits? : (skips : ℕ → Bool) (s : Bytes) → Digits? (digits_of skips s)
unfolding digits_of
digits_of-Digits? skips [] = tt
digits_of-Digits? skips (c ∷ s) = elim (Option-cases (digits_of skips s)) [
  | inl e ↦ rw e tt
  | inr (ds, e) ↦
      let rest : IsDigits ds = subst Digits? e (digits_of-Digits? skips s) in
      elim (Bool-cases (leb b'0' c && leb c b'9')) [
        | inl f ↦ rw (e, f) (ground arith, rest)
        | inr f ↦ elim (Bool-cases (skips c)) [
          | inl g ↦ rw (e, f, g) rest
          | inr g ↦ rw (e, f, g) tt
        ]
      ]
]

IsDigits-reverse : (ds : List ℕ) → IsDigits ds → IsDigits (reverse ds)
IsDigits-reverse [] h = tt
IsDigits-reverse (d ∷ ds) (h, k) =
    rw (reverse-cons d ds)
      (All-append (λ d. d < 10) (reverse ds) (d ∷ []) (IsDigits-reverse ds k) (h, tt))

IsDigits-split : (xs ys : List ℕ) → IsDigits (xs ++ ys) → IsDigits xs × IsDigits ys
IsDigits-split [] ys h = (tt, h)
IsDigits-split (x ∷ xs) ys (h, k) = let (f, g) = IsDigits-split xs ys k in ((h, f), g)

reverse-middle : (xs ys : List ℕ) (a : ℕ) → reverse (xs ++ a ∷ ys) ≡ reverse ys ++ a ∷ reverse xs
reverse-middle xs ys a =
    reverse-append xs (a ∷ ys)
    ∙ (ap (λ t. t ++ reverse xs) (reverse-cons a ys)
        ∙ append_assoc (reverse ys) (a ∷ []) (reverse xs))

abbrev blank : ℕ → Bool
blank c = c == b' '

-- the verdict on a text with these digits
verdict :
    (s : Bytes) (ds : List ℕ) (c : ℕ)
    → digits_of blank s ≡ some ds
    → length ds ≡ 12
    → verhoeff_loop 0 0 (reverse ds) ≡ some c
    → verhoeff_valid s ≡ some (c == 0)
unfolding verhoeff_valid
verdict s ds c e l f =
    let twelve : (length ds == 12) ≡ true = ground (arith, l) in
    rw (verhoeff_valid, e, twelve) (rw f refl)

-- If a text with twelve digits is valid, a text with the same digits but for one is not: its test comes
-- to the answer `false`.
pub single_error_found :
    (s t : Bytes) (xs ys : List ℕ) (a b : ℕ)
    → digits_of blank s ≡ some (xs ++ a ∷ ys)
    → digits_of blank t ≡ some (xs ++ b ∷ ys)
    → length (xs ++ a ∷ ys) ≡ 12
    → a ≢ b
    → verhoeff_valid s ≡ some true
    → verhoeff_valid t ≡ some false
single_error_found s t xs ys a b e f l h valid =
    let (p, (q, r)) = IsDigits-split xs (a ∷ ys) (subst Digits? e (digits_of-Digits? blank s)) in
    let (p', (q', r')) = IsDigits-split xs (b ∷ ys) (subst Digits? f (digits_of-Digits? blank t)) in
    let (x, y, i, j, k, m, n) =
      loop_digit 0 0 a b (reverse ys) (reverse xs) (omega arith) q q' h (IsDigits-reverse ys r)
        (IsDigits-reverse xs p) in
    let vs = verdict s (xs ++ a ∷ ys) x e l (ap (verhoeff_loop 0 0) (reverse-middle xs ys a) ∙ i) in
    let vt =
      verdict t (xs ++ b ∷ ys) y f
        (omega (arith, length-append xs (a ∷ ys), length-append xs (b ∷ ys)))
        (ap (verhoeff_loop 0 0) (reverse-middle xs ys b) ∙ j) in
    ground (arith, vs, vt)
