-- ===== src/Budget/Stage/Amounts.antt =====
-- Amounts of the calls in flight of internal/budget/budget.go: sums and their signs.
use proofgate.Base.{◌≡◌, refl, ap, ◌∙◌, Bool, true, false, List, [], ◌∷◌, ◌++◌}
use proofgate.Base.Int.{ℤ, pos, ◌+ℤ◌, ◌≤ℤ◌, int_laws}
use proofgate.Budget.Stage.{BudgetCall}
use proofgate.Budget.Stage.Books.{held, outstanding, spent_on, charged}

add_left : (a b c : ℤ) → a +ℤ (b +ℤ c) ≡ b +ℤ (a +ℤ c)
add_left a b c = grind int_laws

pub outstanding-append :
    (xs : List BudgetCall) (c : BudgetCall) (ys : List BudgetCall)
    → outstanding (xs ++ c ∷ ys) ≡ held c +ℤ outstanding (xs ++ ys)
outstanding-append [] c ys = refl
outstanding-append (x ∷ xs) c ys =
    ap (λ n. held x +ℤ n) (outstanding-append xs c ys)
    ∙ add_left (held x) (held c) (outstanding (xs ++ ys))

pub nonneg_add : (a b : ℤ) → pos 0 ≤ℤ a → pos 0 ≤ℤ b → pos 0 ≤ℤ a +ℤ b
nonneg_add a b h k = grind int_laws

pub gain : (x' x h s o : ℤ) → x' ≡ x +ℤ h → x ≡ s +ℤ o → x' ≡ s +ℤ (h +ℤ o)
gain x' x h s o e k = e ∙ (ap (λ n. n +ℤ h) k ∙ (grind int_laws))

pub hold_apart : (s h r : ℤ) → s +ℤ (h +ℤ r) ≡ (s +ℤ r) +ℤ h
hold_apart s h r = grind int_laws

pub charge_in : (s r n : ℤ) → (s +ℤ r) +ℤ n ≡ (s +ℤ n) +ℤ r
charge_in s r n = grind int_laws

pub charged_nonneg :
    (ok : Bool) (c : BudgetCall) (cost hedge : ℤ)
    → pos 0 ≤ℤ held c
    → pos 0 ≤ℤ cost +ℤ hedge
    → pos 0 ≤ℤ charged ok (spent_on c cost hedge)
charged_nonneg true c cost hedge h k = k
charged_nonneg false c cost hedge h k = h
