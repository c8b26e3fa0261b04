-- ===== src/Guard/Restorer/Chunks.antt =====
-- How a stream is cut into chunks changes nothing that the client receives
-- (internal/guard/restore.go).
use proofgate.Base.{
  ℕ, zero, suc, ◌+◌, ◌≤◌, ◌<◌, ◌==◌, ◌≡◌, refl, sym, ap, ◌∙◌, none, some, [], ◌∷◌, ◌++◌, length,
  length-append, length-drop, length-take, take, drop, ltb, arith, All, append_assoc, Option-cases,
  Bool-cases, inl, inr, ==_iff, subst,
}
use proofgate.Base.Bytes.{Bytes, str_eq, str_eq_iff}
use proofgate.Guard.Restorer.{
  Mapping, lookup, index, max_placeholder_len, open_bracket, close_bracket, emit, opened, scan,
}
use proofgate.Guard.Restorer.Steps.{index-lt, scan-nil, scan_skip, scan_open}

index_some-append : (c : ℕ) (s t : Bytes) (j : ℕ) → index c s ≡ some j → index c (s ++ t) ≡ some j
unfolding index
index_some-append c [] t j h = cc
index_some-append c (b ∷ s) t zero h = ground arith
index_some-append c (b ∷ s) t (suc j) h = ground (arith, index_some-append c s t j)

index_none-append :
    (c : ℕ) (s t : Bytes) (j : ℕ) → index c s ≡ none → index c (s ++ t) ≡ some j → length s ≤ j
unfolding index
index_none-append c [] t j h e = omega arith
index_none-append c (b ∷ s) t zero h e = ground arith
index_none-append c (b ∷ s) t (suc j) h e = ground (arith, index_none-append c s t j)

take-append : (j : ℕ) (s t : Bytes) → j ≤ length s → take j (s ++ t) ≡ take j s
take-append zero s t h = refl
take-append (suc j) [] t h = elim h [ ]
take-append (suc j) (b ∷ s) t h = ap (◌∷◌ b) (take-append j s t (omega arith))

drop-append : (j : ℕ) (s t : Bytes) → j ≤ length s → drop j (s ++ t) ≡ drop j s ++ t
drop-append zero s t h = refl
drop-append (suc j) [] t h = elim h [ ]
drop-append (suc j) (b ∷ s) t h = drop-append j s t (omega arith)

-- Placeholders that the scan cannot give up too early: with their `>` they are within 41 bytes.
abbrev pub IsShort : Mapping → Type 0
IsShort = All (λ e. length e.0 ≤ max_placeholder_len + 1)

lookup_long :
    (k : Bytes) (m : Mapping) → IsShort m → max_placeholder_len + 1 < length k → lookup k m ≡ none
unfolding lookup
lookup_long k [] h l = refl
lookup_long k ((j, v) ∷ m) h l = elim (Bool-cases (str_eq j k)) [
  | inl e ↦ absurd (omega (arith, ap length ((str_eq_iff j k).0 e), h.0))
  | inr e ↦ rw e (lookup_long k m h.1 l)
]

emit-emit : (s t : Bytes) (r : Bytes × Bytes) → emit s (emit t r) ≡ emit (s ++ t) r
emit-emit s t (out, b) = rw append_assoc

-- The four ways of the scan at a `<`.
module _ (m : Mapping) (x : Bytes) where
  pub scan_hit :
      (j : ℕ) (v : Bytes)
      → index close_bracket (open_bracket ∷ x) ≡ some j
      → lookup (take (suc j) (open_bracket ∷ x)) m ≡ some v
      → scan m (open_bracket ∷ x) ≡ emit v (scan m (drop j x))
  scan_hit j v e l = scan_open m x ∙ unfold opened in ground arith

  pub scan_miss :
      (j : ℕ)
      → index close_bracket (open_bracket ∷ x) ≡ some j
      → lookup (take (suc j) (open_bracket ∷ x)) m ≡ none
      → scan m (open_bracket ∷ x) ≡ emit (open_bracket ∷ []) (scan m x)
  scan_miss j e l = scan_open m x ∙ unfold opened in ground arith

  pub scan_passed :
      index close_bracket (open_bracket ∷ x) ≡ none
      → max_placeholder_len < length (open_bracket ∷ x)
      → scan m (open_bracket ∷ x) ≡ emit (open_bracket ∷ []) (scan m x)
  scan_passed e l = scan_open m x ∙ unfold opened in ground arith

  pub scan_held :
      index close_bracket (open_bracket ∷ x) ≡ none
      → length (open_bracket ∷ x) ≤ max_placeholder_len
      → scan m (open_bracket ∷ x) ≡ ([], open_bracket ∷ x)
  scan_held e l = scan_open m x ∙ unfold opened in ground arith

module _ (m : Mapping) (short : IsShort m) where
  -- a `<` that is given up stays given up when more text follows
  scan_passed-append :
      (x y : Bytes)
      → index close_bracket (open_bracket ∷ x) ≡ none
      → max_placeholder_len < length (open_bracket ∷ x)
      → scan m (open_bracket ∷ (x ++ y)) ≡ emit (open_bracket ∷ []) (scan m (x ++ y))
  scan_passed-append x y e l = elim (Option-cases (index close_bracket (open_bracket ∷ (x ++ y)))) [
    | inl e' ↦ scan_passed m (x ++ y) e' (omega (arith, length-append x y))
    | inr (j, e') ↦
        let token = take (suc j) (open_bracket ∷ (x ++ y)) in
        let late = index_none-append close_bracket (open_bracket ∷ x) y j e e' in
        let within = index-lt close_bracket (open_bracket ∷ (x ++ y)) j e' in
        scan_miss m (x ++ y) j e'
          (lookup_long token m short (omega (arith, length-take (suc j) (open_bracket ∷ (x ++ y)))))
  ]

  abbrev pub Splits : Bytes → Bytes → Type 0
  Splits x y = scan m (x ++ y) ≡ emit (scan m x).0 (scan m ((scan m x).1 ++ y))

  Splits-emit :
      (s x z y : Bytes)
      → scan m x ≡ emit s (scan m z)
      → scan m (x ++ y) ≡ emit s (scan m (z ++ y))
      → Splits z y
      → Splits x y
  Splits-emit s x z y e e' h = rw (e, e', h) (emit-emit s (scan m z).0 _)

  Splits-token :
      (x y : Bytes) (j : ℕ)
      → index close_bracket (open_bracket ∷ x) ≡ some j
      → Splits x y
      → Splits (drop j x) y
      → Splits (open_bracket ∷ x) y
  Splits-token x y j e next after =
      let e' = index_some-append close_bracket (open_bracket ∷ x) y j e in
      let within = index-lt close_bracket (open_bracket ∷ x) j e in
      let same = take-append (suc j) (open_bracket ∷ x) y within in
      elim (Option-cases (lookup (take (suc j) (open_bracket ∷ x)) m)) [
        | inl l ↦
            Splits-emit (open_bracket ∷ []) (open_bracket ∷ x) x y (scan_miss m x j e l)
              (scan_miss m (x ++ y) j e' (rw same l)) next
        | inr (v, l) ↦
            Splits-emit v (open_bracket ∷ x) (drop j x) y (scan_hit m x j v e l)
              (scan_hit m (x ++ y) j v e' (rw same l) ∙ rw (drop-append j x y (omega arith))) after
      ]

  Splits-open :
      (x y : Bytes) → ((z : Bytes) → length z ≤ length x → Splits z y) → Splits (open_bracket ∷ x) y
  Splits-open x y ih = elim (Option-cases (index close_bracket (open_bracket ∷ x))) [
    | inr (j, e) ↦
        Splits-token x y j e (ih x (omega arith)) (ih (drop j x) (omega (arith, length-drop j x)))
    | inl e ↦ elim (Bool-cases (ltb max_placeholder_len (length (open_bracket ∷ x)))) [
      | inl l ↦
          Splits-emit (open_bracket ∷ []) (open_bracket ∷ x) x y (scan_passed m x e (ground arith))
            (scan_passed-append x y e (ground arith)) (ih x (omega arith))
      | inr l ↦ rw (scan_held m x e (ground arith))
    ]
  ]

  pub scan-append : (n : ℕ) (x y : Bytes) → length x ≤ n → Splits x y
  scan-append n [] y h = rw scan-nil
  scan-append zero (c ∷ x) y h = elim h [ ]
  scan-append (suc n) (c ∷ x) y h = elim (Bool-cases (c == open_bracket)) [
    | inl e ↦
        subst (λ b. Splits (b ∷ x) y) (sym ((==_iff c open_bracket).0 e))
          (Splits-open x y (λ z l. scan-append n z y (omega (arith, l))))
    | inr e ↦
        Splits-emit (c ∷ []) (c ∷ x) x y (scan_skip m c x (ground arith))
          (scan_skip m c (x ++ y) (ground arith)) (scan-append n x y (omega arith))
  ]
