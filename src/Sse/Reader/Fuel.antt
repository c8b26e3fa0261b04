-- ===== src/Sse/Reader/Fuel.antt =====
-- The loop of `Next` in internal/sse/reader.go comes to an end.
use proofgate.Base.{
  ℕ, zero, suc, ◌+◌, ◌<◌, ◌≤◌, ◌≡◌, refl, sym, ◌∙◌, ◌⊎◌, inl, inr, Bool, true, false, Option, some,
  [], ◌∷◌, length, arith,
}
use proofgate.Base.Bytes.{Bytes}
use proofgate.Sse.Reader.{
  read_line, Pending, nothing, Answer, Round, returns, continues, round, loop, next,
}

-- `ReadBytes` splits what there is, and reads nothing only at its end.
read_line_splits :
    (s : Bytes)
    → let (line, rest, complete) = read_line s in
      (length s ≡ length line + length rest) × (complete ≡ true → 0 < length line)
unfolding read_line
read_line_splits [] = (refl, λ h. cc)
read_line_splits (c ∷ s) = let (e, f) = read_line_splits s in ground (arith, e, f)

module _ {E : Type 0} (failure : Option E) where
  abbrev round_of : ℕ → Pending → Bytes → Round E
  round_of limit p s = round failure limit p (read_line s).0 (read_line s).2

  Round-cases :
      (x : Round E) → ((a : Answer E) × (x ≡ returns a)) ⊎ ((p : Pending) × (x ≡ continues p))
  Round-cases (returns a) = inl (a, refl)
  Round-cases (continues p) = inr (p, refl)

  pub loop_returns :
      (n limit : ℕ) (p : Pending) (s : Bytes) (a : Answer E)
      → round_of limit p s ≡ returns a
      → loop failure (suc n) limit p s ≡ some (a, (read_line s).1)
  unfolding loop
  loop_returns n limit p s a e = rw (e, loop) refl

  pub loop_continues :
      (n limit : ℕ) (p p' : Pending) (s : Bytes)
      → round_of limit p s ≡ continues p'
      → loop failure (suc n) limit p s ≡ loop failure n limit p' (read_line s).1
  unfolding loop
  loop_continues n limit p p' s e = rw (e, loop) refl

  -- More rounds change no answer.
  pub loop_more :
      (n m limit : ℕ) (p : Pending) (s : Bytes) (r : Answer E × Bytes)
      → n ≤ m
      → loop failure n limit p s ≡ some r
      → loop failure m limit p s ≡ some r
  unfolding loop
  loop_more zero m limit p s r l h = cc
  loop_more (suc n) zero limit p s r l h = absurd (omega arith)
  loop_more (suc n) (suc m) limit p s r l h = elim (Round-cases (round_of limit p s)) [
    | inl (a, e) ↦ loop_returns m limit p s a e ∙ (sym (loop_returns n limit p s a e) ∙ h)
    | inr (p', e) ↦
        loop_continues m limit p p' s e
        ∙ loop_more n m limit p' (read_line s).1 r (omega arith)
            (sym (loop_continues n limit p p' s e) ∙ h)
  ]

  -- A round that goes on has read something.
  round_continues :
      (limit : ℕ) (p p' : Pending) (line : Bytes) (complete : Bool)
      → round failure limit p line complete ≡ continues p'
      → (complete ≡ true) ⊎ (0 < length line)
  unfolding round
  round_continues limit p p' [] false h = cc
  round_continues limit p p' [] true h = inl refl
  round_continues limit p p' (c ∷ line) complete h = inr (omega arith)

  loop_ends :
      (n limit : ℕ) (p : Pending) (s : Bytes)
      → length s < n
      → (r : Answer E × Bytes) × (loop failure n limit p s ≡ some r)
  loop_ends zero limit p s h = absurd (omega arith)
  loop_ends (suc n) limit p s h = elim (Round-cases (round_of limit p s)) [
    | inl (a, e) ↦ ((a, (read_line s).1), loop_returns n limit p s a e)
    | inr (p', e) ↦
        let (r, f) = loop_ends n limit p' (read_line s).1 (
          ground (
            arith,
            read_line_splits s,
            round_continues limit p p' (read_line s).0 (read_line s).2 e,
          )) in
        (r, loop_continues n limit p p' s e ∙ f)
  ]

  -- `Next` returns, whatever the source holds and however it ends.
  pub next_returns :
      (limit : ℕ) (s : Bytes) → (r : Answer E × Bytes) × (next failure limit s ≡ some r)
  unfolding next
  next_returns limit s = loop_ends (length s + 2) limit nothing s (omega arith)

  -- What some number of rounds comes to is what `Next` returns.
  pub next_of_loop :
      (n limit : ℕ) (s : Bytes) (r : Answer E × Bytes)
      → loop failure n limit nothing s ≡ some r
      → next failure limit s ≡ some r
  unfolding next
  next_of_loop n limit s r h =
      let (r', e) = next_returns limit s in
      let m = length s + 2 in
      let both : some r' ≡ some r =
        sym (loop_more m (m + n) limit nothing s r' (omega arith) e)
        ∙ loop_more n (m + n) limit nothing s r (omega arith) h in
      e ∙ both
