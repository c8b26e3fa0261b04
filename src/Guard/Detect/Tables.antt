-- ===== src/Guard/Detect/Tables.antt =====
-- The tables of `VerhoeffValid` in internal/guard/detect.go: no row and no column has an entry twice.
use proofgate.Base.{
  ℕ, zero, suc, ◌==◌, ◌<◌, ◌≡◌, ◌≢◌, refl, ap, ◌∙◌, Bool, true, false, not, ◌&&◌, ◌||◌, Option,
  none, some, ltb, arith, Bool-cases, inl, inr, ==_iff,
}
use proofgate.Guard.Detect.{verhoeff_d, verhoeff_p, entry}

all_below : ℕ → (ℕ → Bool) → Bool
all_below zero f = true
all_below (suc n) f = f n && all_below n f

all_below_lem : (n : ℕ) (f : ℕ → Bool) (k : ℕ) → all_below n f ≡ true → k < n → f k ≡ true
unfolding all_below
all_below_lem zero f k h l = absurd (omega arith)
all_below_lem (suc n) f k h l = elim (Bool-cases (k == n)) [
  | inl e ↦ ap f ((==_iff k n).0 e) ∙ ground arith
  | inr e ↦ all_below_lem n f k (ground arith) (ground arith)
]

-- Two results that are digits, and not the same.
differ : Option ℕ → Option ℕ → Bool
differ (some x) (some y) = ltb x 10 && (ltb y 10 && not (x == y))
differ _ _ = false

abbrev pub Differ : Option ℕ → Option ℕ → Type 0
Differ r s = (x : ℕ) × (y : ℕ) × (r ≡ some x) × (s ≡ some y) × (x < 10) × (y < 10) × (x ≢ y)

differ-Differ : (r s : Option ℕ) → differ r s ≡ true → Differ r s
unfolding differ
differ-Differ none s h = cc
differ-Differ (some x) none h = cc
differ-Differ (some x) (some y) h = (x, y, refl, refl, ground arith, ground arith, ground arith)

rows_differ :
    all_below 10 (λ c.
      all_below 10
        (λ a. all_below 10 (λ b. (a == b) || differ (entry verhoeff_d c a) (entry verhoeff_d c b))))
    ≡ true
unfolding all_below differ entry
rows_differ = refl

columns_differ :
    all_below 10 (λ a.
      all_below 10
        (λ c. all_below 10 (λ d. (c == d) || differ (entry verhoeff_d c a) (entry verhoeff_d d a))))
    ≡ true
unfolding all_below differ entry
columns_differ = refl

digits_differ :
    all_below 8 (λ i.
      all_below 10
        (λ a. all_below 10 (λ b. (a == b) || differ (entry verhoeff_p i a) (entry verhoeff_p i b))))
    ≡ true
unfolding all_below differ entry
digits_differ = refl

-- what a check of all triples tells of one
of_check :
    (l : ℕ) (f : ℕ → ℕ → ℕ → Bool) (i a b : ℕ)
    → all_below l (λ i. all_below 10 (λ a. all_below 10 (λ b. f i a b))) ≡ true
    → i < l
    → a < 10
    → b < 10
    → f i a b ≡ true
of_check l f i a b h p q r =
    all_below_lem 10 (f i a) b
      (all_below_lem 10 (λ a. all_below 10 (λ b. f i a b)) a
        (all_below_lem l (λ i. all_below 10 (λ a. all_below 10 (λ b. f i a b))) i h p) q)
      r

pub entry_digits :
    (i a b : ℕ)
    → i < 8
    → a < 10
    → b < 10
    → a ≢ b
    → Differ (entry verhoeff_p i a) (entry verhoeff_p i b)
entry_digits i a b p q r h =
    let checked =
      of_check 8 (λ i a b. (a == b) || differ (entry verhoeff_p i a) (entry verhoeff_p i b)) i a b
        digits_differ p q r in
    differ-Differ (entry verhoeff_p i a) (entry verhoeff_p i b) (ground (arith, checked))

pub entry_row :
    (c a b : ℕ)
    → c < 10
    → a < 10
    → b < 10
    → a ≢ b
    → Differ (entry verhoeff_d c a) (entry verhoeff_d c b)
entry_row c a b p q r h =
    let checked =
      of_check 10 (λ c a b. (a == b) || differ (entry verhoeff_d c a) (entry verhoeff_d c b)) c a b
        rows_differ p q r in
    differ-Differ (entry verhoeff_d c a) (entry verhoeff_d c b) (ground (arith, checked))

pub entry_column :
    (a c d : ℕ)
    → a < 10
    → c < 10
    → d < 10
    → c ≢ d
    → Differ (entry verhoeff_d c a) (entry verhoeff_d d a)
entry_column a c d p q r h =
    let checked =
      of_check 10 (λ a c d. (c == d) || differ (entry verhoeff_d c a) (entry verhoeff_d d a)) a c d
        columns_differ p q r in
    differ-Differ (entry verhoeff_d c a) (entry verhoeff_d d a) (ground (arith, checked))
