-- ===== src/Base/Maps.antt =====
-- Go maps with string keys, as association lists: the first entry of a key is its value, and
-- writing a key removes its older entries.
use mathlib.Core.Path.{◌≡◌}
use mathlib.Core.Bool.{Bool, false, ◌||◌}
use mathlib.Core.Option.{Option, none, some}
use mathlib.Core.List.{List, [], ◌∷◌}
use native.Mathlib.Omega.{arith}
use package.proofgate.Base.Tests.{if◌then◌else◌}
use package.proofgate.Base.Bytes.{Bytes, str_eq, str_eq_iff}

abbrev pub Map {ℓ} : Type ℓ → Type ℓ
Map V = List (Bytes × V)

unfoldable pub lookup {ℓ} : {A : Type ℓ} → Bytes → Map A → Option A
lookup k [] = none
lookup k ((k', v) ∷ m) = if str_eq k' k then some v else lookup k m

unfoldable pub erase {ℓ} : {A : Type ℓ} → Bytes → Map A → Map A
erase k [] = []
erase k ((k', v) ∷ m) = let rest = erase k m in if str_eq k' k then rest else (k', v) ∷ rest

unfoldable pub insert {ℓ} : {A : Type ℓ} → Bytes → A → Map A → Map A
insert k v m = (k, v) ∷ erase k m

unfoldable pub keys {ℓ} : {A : Type ℓ} → Map A → List Bytes
keys [] = []
keys ((k, _) ∷ m) = k ∷ keys m

unfoldable pub elem : Bytes → List Bytes → Bool
elem x [] = false
elem x (y ∷ l) = str_eq y x || elem x l

pub lookup-erase {ℓ} :
    {A : Type ℓ} (j k : Bytes) (m : Map A)
    → lookup j (erase k m) ≡ (if str_eq k j then none else lookup j m)
unfolding lookup erase
lookup-erase j k [] = ground arith
lookup-erase j k ((k', v) ∷ m) =
    ground (arith, lookup-erase j k m, str_eq_iff k' k, str_eq_iff k' j, str_eq_iff k j)

pub lookup-insert {ℓ} :
    {A : Type ℓ} (j k : Bytes) (v : A) (m : Map A)
    → lookup j (insert k v m) ≡ (if str_eq k j then some v else lookup j m)
unfolding lookup insert
lookup-insert j k v m = ground (arith, lookup-erase j k m)
