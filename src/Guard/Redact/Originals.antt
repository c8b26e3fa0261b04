-- ===== src/Guard/Redact/Originals.antt =====
-- The mapping of internal/guard/redact.go knows the original of each placeholder.
use proofgate.Base.{
  ℕ, ◌+◌, ◌^◌, ◌<◌, ◌≤◌, ◌≡◌, ◌≢◌, refl, sym, ap, ◌∙◌, some, List, [], ◌∷◌, ◌++◌, length, arith,
  All, if◌then◌else◌, Bool-cases, inl, inr, subst,
}
use proofgate.Base.Bytes.{Bytes, str_eq, str_eq_iff, str_eq_refl}
use proofgate.Guard.Restorer.{Mapping, lookup, close_bracket}
use proofgate.Guard.Restorer.Chunks.{IsShort}
use proofgate.Guard.Restorer.Stream.{IsClosed}
use proofgate.Guard.Redact.{PiiType, PiiMatch, Numberer, type_name, count_up, placeholder, put}
use proofgate.Guard.Redact.Placeholders.{
  type_name_injective, placeholder_type, placeholder_number, length-placeholder,
  placeholder-IsClosed,
}
use proofgate.Guard.Redact.Runs.{new_key, assigned}

lookup-put :
    (k v : Bytes) (m : Mapping) (k' : Bytes)
    → lookup k' (put k v m) ≡ (if str_eq k k' then some v else lookup k' m)
unfolding lookup put
lookup-put k v [] k' = refl
lookup-put k v ((j, w) ∷ m) k' =
    ground (arith, lookup-put k v m k', str_eq_iff j k, str_eq_iff k k', str_eq_iff j k')

count_up_next : (k : PiiType) (counts : Numberer) → count_up k counts k ≡ counts k + 1
unfolding count_up
count_up_next k counts = rw (str_eq_refl (type_name k)) refl

count_up_mono : (k : PiiType) (counts : Numberer) (t : PiiType) → counts t ≤ count_up k counts t
unfolding count_up
count_up_mono k counts t = elim (Bool-cases (str_eq (type_name k) (type_name t))) [
  | inl e ↦
      let same : k ≡ t = type_name_injective k t ((str_eq_iff (type_name k) (type_name t)).0 e) in
      rw e (subst (λ t'. counts t' ≤ counts k + 1) same (omega arith))
  | inr e ↦ rw e (omega arith)
]

new_key_new :
    (counts : Numberer) (m : PiiMatch) (k : PiiType) (n : ℕ)
    → n ≤ counts k
    → new_key counts m ≢ placeholder k n
new_key_new counts m k n h e =
    let same : m.kind ≡ k = placeholder_type m.kind k (count_up m.kind counts m.kind) n e in
    let number : count_up m.kind counts m.kind ≡ n =
      placeholder_number m.kind (count_up m.kind counts m.kind) n
        (e ∙ ap (λ t. placeholder t n) (sym same)) in
    let below : n ≤ counts m.kind = subst (λ t. n ≤ counts t) (sym same) h in
    absurd (omega (arith, number, count_up_next m.kind counts))

-- A placeholder that was given before is not given again.
lookup_kept :
    (counts : Numberer) (mapping : Mapping) (ms : List PiiMatch) (k : PiiType) (n : ℕ)
    → n ≤ counts k
    → lookup (placeholder k n) (assigned counts mapping ms) ≡ lookup (placeholder k n) mapping
unfolding assigned
lookup_kept counts mapping [] k n h = refl
lookup_kept counts mapping (m ∷ ms) k n h =
    let key = new_key counts m in
    let later =
      lookup_kept (count_up m.kind counts) (put key m.value mapping) ms k n
        (omega (arith, count_up_mono m.kind counts k)) in
    elim (Bool-cases (str_eq key (placeholder k n))) [
      | inl e ↦ absurd (new_key_new counts m k n h ((str_eq_iff key (placeholder k n)).0 e))
      | inr e ↦ later ∙ (lookup-put key m.value mapping (placeholder k n) ∙ rw e refl)
    ]

-- A mapping knows the originals of all placeholders that a run gives.
unfoldable pub Known : Mapping → Numberer → List PiiMatch → Type 0
Known mapping counts [] = Unit
Known mapping counts (m ∷ ms) =
    (lookup (new_key counts m) mapping ≡ some m.value) × Known mapping (count_up m.kind counts) ms

pub assigned-Known :
    (counts : Numberer) (mapping : Mapping) (ms : List PiiMatch)
    → Known (assigned counts mapping ms) counts ms
unfolding Known assigned
assigned-Known counts mapping [] = tt
assigned-Known counts mapping (m ∷ ms) =
    let counts' = count_up m.kind counts in
    let key = new_key counts m in
    let mapping' = put key m.value mapping in
    (
      lookup_kept counts' mapping' ms m.kind (counts' m.kind) (omega arith)
          ∙ (lookup-put key m.value mapping key ∙ rw (str_eq_refl key) refl),
      assigned-Known counts' mapping' ms,
    )

All-put :
    (P : Bytes × Bytes → Type 0) (k v : Bytes) (m : Mapping)
    → ((w : Bytes) → P (k, w))
    → All P m
    → All P (put k v m)
unfolding put
All-put P k v [] h g = (h v, tt)
All-put P k v ((j, w) ∷ m) h (g, gs) = elim (Bool-cases (str_eq j k)) [
  | inl e ↦ rw e (h v, gs)
  | inr e ↦ rw e (g, All-put P k v m h gs)
]

put_some : (k v : Bytes) (m : Mapping) → put k v m ≢ []
unfolding put
put_some k v [] = cc
put_some k v ((j, w) ∷ m) = ground arith

assigned_some :
    (counts : Numberer) (mapping : Mapping) (ms : List PiiMatch)
    → mapping ≢ []
    → assigned counts mapping ms ≢ []
unfolding assigned
assigned_some counts mapping [] h = h
assigned_some counts mapping (m ∷ ms) h =
    assigned_some (count_up m.kind counts) (put (new_key counts m) m.value mapping) ms
      (put_some (new_key counts m) m.value mapping)

count_up_le : (k : PiiType) (counts : Numberer) (t : PiiType) → count_up k counts t ≤ counts t + 1
unfolding count_up
count_up_le k counts t = elim (Bool-cases (str_eq (type_name k) (type_name t))) [
  | inl e ↦
      let same : k ≡ t = type_name_injective k t ((str_eq_iff (type_name k) (type_name t)).0 e) in
      rw e (subst (λ t'. counts k + 1 ≤ counts t' + 1) same (omega arith))
  | inr e ↦ rw e (omega arith)
]

pub begun_some :
    (counts : Numberer) (mapping : Mapping) (m : PiiMatch) (ms : List PiiMatch)
    → assigned counts mapping (m ∷ ms) ≢ []
unfolding assigned
begun_some counts mapping m ms =
    assigned_some (count_up m.kind counts) (put (new_key counts m) m.value mapping) ms
      (put_some (new_key counts m) m.value mapping)

-- The numbers stay below `10 ^ 26`, with which a placeholder has at most 41 bytes.
abbrev pub Few : Numberer → List PiiMatch → Type 0
Few counts ms = (k : PiiType) → counts k + length ms < 10 ^ 26

pub assigned-IsShort :
    (counts : Numberer) (mapping : Mapping) (ms : List PiiMatch)
    → Few counts ms
    → IsShort mapping
    → IsShort (assigned counts mapping ms)
unfolding assigned
assigned-IsShort counts mapping [] h s = s
assigned-IsShort counts mapping (m ∷ ms) h s =
    let counts' = count_up m.kind counts in
    let fits : length (new_key counts m) ≤ 41 =
      length-placeholder m.kind (counts' m.kind)
        (omega (arith, h m.kind, count_up_le m.kind counts m.kind)) in
    assigned-IsShort counts' (put (new_key counts m) m.value mapping) ms
      (λ k. omega (arith, h k, count_up_le m.kind counts k))
      (All-put (λ e. length e.0 ≤ 41) (new_key counts m) m.value mapping (λ w. fits) s)

pub assigned-IsClosed :
    (counts : Numberer) (mapping : Mapping) (ms : List PiiMatch)
    → IsClosed mapping
    → IsClosed (assigned counts mapping ms)
unfolding assigned
assigned-IsClosed counts mapping [] s = s
assigned-IsClosed counts mapping (m ∷ ms) s =
    assigned-IsClosed (count_up m.kind counts) (put (new_key counts m) m.value mapping) ms (
      All-put (λ e. (k : Bytes) × (e.0 ≡ k ++ close_bracket ∷ [])) (new_key counts m) m.value
        mapping (λ w. placeholder-IsClosed m.kind (count_up m.kind counts m.kind)) s)
