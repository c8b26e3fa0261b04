-- ===== src/Guard/Restorer/Steps.antt =====
-- The scan of `StreamRestorer.Process` (internal/guard/restore.go), byte by byte.
use proofgate.Base.{
  ℕ, zero, suc, ◌≤◌, ◌<◌, ◌≡◌, ◌≢◌, refl, ap, ◌∙◌, some, [], ◌∷◌, length, length-drop, take, drop,
  arith, Option-cases, inl, inr,
}
use proofgate.Base.Bytes.{Bytes}
use proofgate.Guard.Restorer.{Mapping, index, open_bracket, close_bracket, emit, opened, loop, scan}

pub index-lt : (c : ℕ) (s : Bytes) (i : ℕ) → index c s ≡ some i → i < length s
unfolding index
index-lt c [] i h = cc
index-lt c (b ∷ s) zero h = omega arith
index-lt c (b ∷ s) (suc i) h = ground (arith, index-lt c s i)

opened-cong :
    (m : Mapping) (f g : Bytes → Bytes × Bytes) (b : Bytes) (n : ℕ)
    → ((s : Bytes) → length s < n → f s ≡ g s)
    → length b ≤ n
    → 0 < length b
    → opened m f b ≡ opened m g b
unfolding opened
opened-cong m f g [] n h l p = elim p [ ]
opened-cong m f g (c ∷ b) n h l p = elim (Option-cases (index close_bracket (c ∷ b))) [
  | inl e ↦ rw (e, opened) (ground (arith, h b))
  | inr (j, e) ↦
      rw (e, opened)
        (ground (arith, h b (omega arith), h (drop j b) (omega (arith, length-drop j b))))
]

loop_fuel :
    (f g : ℕ) (m : Mapping) (b : Bytes) → length b < f → length b < g → loop f m b ≡ loop g m b
unfolding loop
loop_fuel zero g m b hf hg = elim hf [ ]
loop_fuel (suc f) zero m b hf hg = elim hg [ ]
loop_fuel (suc f) (suc g) m b hf hg = elim (Option-cases (index open_bracket b)) [
  | inl e ↦ rw (e, loop)
  | inr (i, e) ↦
      rw (e, loop)
        (ap (emit (take i b)) (
          opened-cong m (loop f m) (loop g m) (drop i b) (length b)
            (λ s h. loop_fuel f g m s (omega (arith, h)) (omega (arith, h)))
            (omega (arith, length-drop i b))
            (omega (arith, length-drop i b, index-lt open_bracket b i e))))
]

loop-scan : (f : ℕ) (m : Mapping) (b : Bytes) → length b < f → loop f m b ≡ scan m b
unfolding scan
loop-scan f m b h = loop_fuel f (suc (length b)) m b h (omega arith)

pub scan-nil : (m : Mapping) → scan m [] ≡ ([], [])
unfolding scan loop index
scan-nil m = refl

loop_skip :
    (f : ℕ) (m : Mapping) (c : ℕ) (s : Bytes)
    → c ≢ open_bracket
    → loop (suc f) m (c ∷ s) ≡ emit (c ∷ []) (loop (suc f) m s)
unfolding loop index
loop_skip f m c s h = ground arith

pub scan_skip :
    (m : Mapping) (c : ℕ) (s : Bytes) → c ≢ open_bracket → scan m (c ∷ s) ≡ emit (c ∷ []) (scan m s)
unfolding scan
scan_skip m c s h =
    loop_skip (suc (length s)) m c s h
    ∙ ap (emit (c ∷ [])) (loop-scan (suc (suc (length s))) m s (omega arith))

pub scan_open :
    (m : Mapping) (s : Bytes) → scan m (open_bracket ∷ s) ≡ opened m (scan m) (open_bracket ∷ s)
unfolding scan loop index
scan_open m s =
    opened-cong m (loop (suc (length s)) m) (scan m) (open_bracket ∷ s) (suc (length s))
      (λ t h. loop-scan (suc (length s)) m t h) (omega arith) (omega arith)
