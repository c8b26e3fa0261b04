-- ===== src/Sse/Writer/Fields.antt =====
-- How `Next` of internal/sse/reader.go reads the lines that internal/sse/writer.go writes.
use proofgate.Base.{
  ℕ, suc, ◌+◌, ◌<◌, ◌≤◌, ◌≡◌, refl, sym, ap, ◌∙◌, true, false, Option, some, List, [], ◌∷◌, ◌++◌,
  length, length-append, append_assoc, append-nil, arith, subst, All,
}
use proofgate.Base.Bytes.{Bytes, codes, str_eq}
use proofgate.Sse.Reader.{
  newline, colon, space, read_line, trim_right, trim_space, Pending, event_of, assign, Answer, got,
  continues, content, round, loop,
}
use proofgate.Sse.Reader.Fuel.{loop_returns, loop_continues}
use proofgate.Sse.Writer.{data_bytes}
use proofgate.Sse.Writer.Lines.{
  has_newline, Fits, read_line_app, trim_right_end, is_name, trim_right_app, trim_right_value,
  named, has_newline_app, cut_colon_app,
}

module _ {E : Type 0} (failure : Option E) (limit : ℕ) where
  -- Some number of rounds comes to an answer, with the rest left to read.
  abbrev pub Reads : Pending → Bytes → Answer E × Bytes → Type 0
  Reads p s r = (n : ℕ) × (loop failure n limit p s ≡ some r)

  line_continues :
      (p p' : Pending) (s rest : Bytes) (r : Answer E × Bytes)
      → has_newline s ≡ false
      → round failure limit p (s ++ newline ∷ []) true ≡ continues p'
      → Reads p' rest r
      → Reads p (s ++ newline ∷ rest) r
  line_continues p p' s rest r h e (n, f) =
      let l = read_line_app s rest h in
      (suc n, loop_continues failure n limit p p' (s ++ newline ∷ rest) (rw l e) ∙ rw l f)

  blank_returns :
      (p : Pending) (rest : Bytes)
      → p.have ≡ true
      → p.total < limit
      → Reads p (newline ∷ rest) (got (event_of p), rest)
  unfolding round content trim_right read_line
  blank_returns p rest h l =
      (1, loop_returns failure 0 limit p (newline ∷ rest) (got (event_of p)) (ground arith))

  field_continues :
      (p : Pending) (c : ℕ) (field v : Bytes)
      → is_name (c ∷ field) ≡ true
      → Fits v
      → p.total + length (c ∷ field) + length v + 3 ≤ limit
      → round failure limit p ((c ∷ field) ++ colon ∷ space ∷ (v ++ newline ∷ [])) true
        ≡ continues (
            assign (record p { total = p.total + length (c ∷ field) + length v + 3 }) (c ∷ field) v)
  unfolding round content trim_space
  field_continues p c field v h (f, g) l =
      let line = field ++ colon ∷ space ∷ (v ++ newline ∷ []) in
      let sizes : p.total + suc (length line) ≡ p.total + length (c ∷ field) + length v + 3 =
        rw (length-append field (colon ∷ space ∷ (v ++ newline ∷ [])))
          (rw (length-append v (newline ∷ [])) (omega arith)) in
      let joined : c ∷ line ≡ ((c ∷ field) ++ colon ∷ space ∷ v) ++ newline ∷ [] =
        sym (append_assoc (c ∷ field) (colon ∷ space ∷ v) (newline ∷ [])) in
      let trimmed : trim_right (c ∷ line) ≡ c ∷ (field ++ colon ∷ space ∷ v) =
        ap trim_right joined
        ∙ (trim_right_end ((c ∷ field) ++ colon ∷ space ∷ v)
            ∙ trim_right_app (c ∷ field) (colon ∷ space ∷ v) h (trim_right_value v g)) in
      ground (arith, sizes, trimmed, cut_colon_app (c ∷ field) (space ∷ v) h, h, l, named c field h)

  pub field-Reads :
      (p : Pending) (c : ℕ) (field v rest : Bytes) (r : Answer E × Bytes)
      → is_name (c ∷ field) ≡ true
      → Fits v
      → p.total + length (c ∷ field) + length v + 3 ≤ limit
      → Reads
          (assign (record p { total = p.total + length (c ∷ field) + length v + 3 }) (c ∷ field) v)
          rest
          r
      → Reads p ((c ∷ field) ++ colon ∷ space ∷ (v ++ newline ∷ rest)) r
  unfolding has_newline
  field-Reads p c field v rest r h (f, g) l k =
      let start = (c ∷ field) ++ colon ∷ space ∷ v in
      let p' =
        assign (record p { total = p.total + length (c ∷ field) + length v + 3 }) (c ∷ field) v in
      let no_newline : has_newline start ≡ false =
        has_newline_app (c ∷ field) (colon ∷ space ∷ v) h ∙ f in
      let goes : round failure limit p (start ++ newline ∷ []) true ≡ continues p' =
        rw (append_assoc (c ∷ field) (colon ∷ space ∷ v) (newline ∷ []))
          (field_continues p c field v h (f, g) l) in
      subst (λ s. Reads p s r) (append_assoc (c ∷ field) (colon ∷ space ∷ v) (newline ∷ rest))
        (line_continues p p' start rest r no_newline goes k)

  pub data-Reads :
      (p : Pending) (ls : List Bytes) (rest : Bytes)
      → (ls ≡ [] → p.have ≡ true)
      → All Fits ls
      → p.total + length (data_bytes ls) < limit
      → Reads p
          (data_bytes ls ++ newline ∷ rest)
          (got (event_of (record p { lines = p.lines ++ ls })), rest)
  unfolding assign str_eq data_bytes is_name
  data-Reads p [] rest h k l = rw (append-nil p.lines) (blank_returns p rest (h refl) (omega arith))
  data-Reads p (v ∷ ls) rest h (f, k) l =
      let p' : Pending = record p {
        lines = p.lines ++ v ∷ [];
        have = true;
        total = p.total + 4 + length v + 3;
      } in
      let size : suc (p.total + 7 + length v + length (data_bytes ls)) ≤ limit =
        let e : length (v ++ newline ∷ data_bytes ls) ≡ length v + suc (length (data_bytes ls)) =
          length-append v (newline ∷ data_bytes ls) in
        omega arith in
      let later = data-Reads p' ls rest (λ e. refl) k (omega arith) in
      let later' =
        subst
          (λ m.
            Reads p' (data_bytes ls ++ newline ∷ rest)
              (got (event_of (record p' { lines = m })), rest))
          (append_assoc p.lines (v ∷ []) ls) later in
      rw (append_assoc v (newline ∷ data_bytes ls) (newline ∷ rest)) (
        field-Reads p 100 (codes "ata") v (data_bytes ls ++ newline ∷ rest)
          (got (event_of (record p { lines = p.lines ++ v ∷ ls })), rest) refl f (omega arith)
          later')
