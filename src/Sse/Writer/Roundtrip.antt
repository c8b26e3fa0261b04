-- ===== src/Sse/Writer/Roundtrip.antt =====
-- What internal/sse/writer.go writes, internal/sse/reader.go reads.
use proofgate.Base.{
  ℕ, ◌+◌, ◌≤◌, ◌≡◌, refl, sym, ap, ◌∙◌, true, Option, some, [], ◌∷◌, ◌++◌, length, length-append,
  append_assoc, arith, subst, if◌then◌else◌,
}
use proofgate.Base.Bytes.{Bytes, codes, str_eq}
use proofgate.Api.{join}
use proofgate.Router.Route.{is_empty}
use proofgate.Sse.Reader.{
  Event, newline, colon, space, Pending, nothing, event_of, assign, Answer, got, next,
}
use proofgate.Sse.Reader.Fuel.{next_of_loop}
use proofgate.Sse.Writer.{split_lines, data_bytes, field_bytes, event_bytes}
use proofgate.Sse.Writer.Lines.{
  Fits, is_name, split_lines_some, join-split_lines, Sends, lines-Fits, split_lines-Fits,
}
use proofgate.Sse.Writer.Fields.{Reads, field-Reads, data-Reads}

same_event :
    (id name payload : Bytes) (e : Event)
    → id ≡ e.id
    → name ≡ e.name
    → payload ≡ e.payload
    → record { id = id; name = name; payload = payload } ≡ e
same_event id name payload e h g k = rw (h, g, k) refl

module _ {E : Type 0} (failure : Option E) (limit : ℕ) where
  -- What an optional field makes of the event that is read.
  abbrev after_field : Pending → ℕ → Bytes → Bytes → Pending
  after_field p c field v =
      if is_empty v
      then p
      else assign (record p { total = p.total + length (c ∷ field) + length v + 3 }) (c ∷ field) v

  optional-Reads :
      (p : Pending) (c : ℕ) (field v rest : Bytes) (r : Answer E × Bytes)
      → is_name (c ∷ field) ≡ true
      → Fits v
      → p.total + length (field_bytes ((c ∷ field) ++ codes ": ") v) ≤ limit
      → Reads failure limit (after_field p c field v) rest r
      → Reads failure limit p (field_bytes ((c ∷ field) ++ codes ": ") v ++ rest) r
  unfolding field_bytes
  optional-Reads p c field [] rest r h f l k = k
  optional-Reads p c field (d ∷ v) rest r h f l k =
      let size : length (((c ∷ field) ++ codes ": ") ++ ((d ∷ v) ++ newline ∷ []))
          ≡ length (c ∷ field) + length (d ∷ v) + 3 =
        omega (
          arith,
          length-append ((c ∷ field) ++ codes ": ") ((d ∷ v) ++ newline ∷ []),
          length-append (c ∷ field) (codes ": "),
          length-append (d ∷ v) (newline ∷ []),
        ) in
      let e : (((c ∷ field) ++ codes ": ") ++ ((d ∷ v) ++ newline ∷ [])) ++ rest
          ≡ (c ∷ field) ++ colon ∷ space ∷ ((d ∷ v) ++ newline ∷ rest) =
        append_assoc ((c ∷ field) ++ codes ": ") ((d ∷ v) ++ newline ∷ []) rest
        ∙ (append_assoc (c ∷ field) (codes ": ") (((d ∷ v) ++ newline ∷ []) ++ rest)
            ∙ ap (λ t. (c ∷ field) ++ colon ∷ space ∷ t)
                (append_assoc (d ∷ v) (newline ∷ []) rest)) in
      subst (λ s. Reads failure limit p s r) (sym e)
        (field-Reads failure limit p c field (d ∷ v) rest r h f (omega arith) k)

  id_field :
      (p : Pending) (v : Bytes)
      → p.id ≡ []
      → let p' = after_field p 105 (codes "d") v in
        (p'.id ≡ v)
        × (p'.name ≡ p.name)
        × (p'.lines ≡ p.lines)
        × (p'.total ≡ p.total + length (field_bytes (codes "id: ") v))
  unfolding assign field_bytes str_eq
  id_field p [] h = (h, refl, refl, omega arith)
  id_field p (d ∷ v) h = (refl, refl, refl, omega (arith, length-append v (newline ∷ [])))

  name_field :
      (p : Pending) (v : Bytes)
      → p.name ≡ []
      → let p' = after_field p 101 (codes "vent") v in
        (p'.id ≡ p.id)
        × (p'.name ≡ v)
        × (p'.lines ≡ p.lines)
        × (p'.total ≡ p.total + length (field_bytes (codes "event: ") v))
  unfolding assign field_bytes str_eq
  name_field p [] h = (refl, h, refl, omega arith)
  name_field p (d ∷ v) h = (refl, refl, refl, omega (arith, length-append v (newline ∷ [])))

  event-Reads :
      (e : Event) (rest : Bytes)
      → Fits e.id
      → Fits e.name
      → Sends e.payload
      → length (event_bytes e) ≤ limit
      → Reads failure limit nothing (event_bytes e ++ rest) (got e, rest)
  unfolding event_bytes is_name
  event-Reads e rest f g h l =
      let ls = split_lines e.payload in
      let a = field_bytes (codes "id: ") e.id in
      let b = field_bytes (codes "event: ") e.name in
      let d = data_bytes ls in
      let p1 = after_field nothing 105 (codes "d") e.id in
      let p2 = after_field p1 101 (codes "vent") e.name in
      let (i1, n1, l1, t1) = id_field nothing e.id refl in
      let (i2, n2, l2, t2) = name_field p1 e.name n1 in
      let size : length a + (length b + (length d + 1)) ≤ limit = omega (
        arith,
        length-append a (b ++ (d ++ newline ∷ [])),
        length-append b (d ++ newline ∷ []),
        length-append d (newline ∷ []),
      ) in
      let joined : (a ++ (b ++ (d ++ newline ∷ []))) ++ rest ≡ a ++ (b ++ (d ++ newline ∷ rest)) =
        append_assoc a (b ++ (d ++ newline ∷ [])) rest
        ∙ ap (λ t. a ++ t)
            (append_assoc b (d ++ newline ∷ []) rest
              ∙ ap (λ t. b ++ t) (append_assoc d (newline ∷ []) rest)) in
      let whole : event_of (record p2 { lines = p2.lines ++ ls }) ≡ e =
        same_event p2.id p2.name (join (newline ∷ []) (p2.lines ++ ls)) e (i2 ∙ i1) n2
          (ap (λ w. join (newline ∷ []) (w ++ ls)) (l2 ∙ l1) ∙ join-split_lines e.payload) in
      subst (λ s. Reads failure limit nothing s (got e, rest)) (sym joined)
        (optional-Reads nothing 105 (codes "d") e.id (b ++ (d ++ newline ∷ rest)) (got e, rest) refl
          f (omega arith)
          (optional-Reads p1 101 (codes "vent") e.name (d ++ newline ∷ rest) (got e, rest) refl g
            (omega arith)
            (subst (λ w. Reads failure limit p2 (d ++ newline ∷ rest) (got w, rest)) whole
              (data-Reads failure limit p2 ls rest (λ h. absurd (split_lines_some e.payload h))
                (lines-Fits ls (split_lines-Fits e.payload) h) (omega arith)))))

  -- An event that is written is read back, and what was written behind it is left to read: if its
  -- id and its name have no newline and no carriage return at the end, no line of its data has a
  -- carriage return at the end, and its bytes are within the reader's limit.
  pub next-event_bytes :
      (e : Event) (rest : Bytes)
      → Fits e.id
      → Fits e.name
      → Sends e.payload
      → length (event_bytes e) ≤ limit
      → next failure limit (event_bytes e ++ rest) ≡ some (got e, rest)
  next-event_bytes e rest f g h l =
      let (n, reads) = event-Reads e rest f g h l in
      next_of_loop failure n limit (event_bytes e ++ rest) (got e, rest) reads
