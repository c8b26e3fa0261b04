-- ===== src/Sse/Writer/Stream.antt =====
-- A whole stream of internal/sse: a response that events are written to, and a reader of its body.
use proofgate.Base.{
  ℕ, zero, suc, ◌≤◌, ◌≡◌, refl, sym, ap, ◌∙◌, false, Option, none, some, List, [], ◌∷◌, ◌++◌,
  length, take, append_assoc, append-nil, arith, All,
}
use proofgate.Base.Bytes.{Bytes}
use proofgate.Sse.Reader.{Event, read_line, nothing, returns, Answer, got, round, error, next}
use proofgate.Sse.Reader.Fuel.{next_of_loop, loop_returns}
use proofgate.Sse.Writer.{Writer, Wrote, whole, cut_after, start, send, event, event_bytes}
use proofgate.Sse.Writer.Lines.{Fits, Sends}
use proofgate.Sse.Writer.Roundtrip.{next-event_bytes}

-- Events written one after the other, each with what its `Write` comes to.
unfoldable pub write_all : List (Wrote × Event) → Writer → Writer
unfolding event
write_all [] w = w
write_all ((out, e) ∷ es) w = write_all es (event out e w).1

unfoldable pub delivered : List (Wrote × Event) → List Event
delivered [] = []
delivered ((whole, e) ∷ es) = e ∷ delivered es
delivered ((cut_after n, e) ∷ es) = delivered es

-- No failed write has left a part of its event.
abbrev pub NothingCut : List (Wrote × Event) → Type 0
NothingCut [] = Unit
NothingCut ((whole, e) ∷ es) = NothingCut es
NothingCut ((cut_after n, e) ∷ es) = (n ≡ 0) × NothingCut es

stream_bytes : List Event → Bytes
unfolding event_bytes
stream_bytes [] = []
stream_bytes (e ∷ es) = event_bytes e ++ stream_bytes es

body-event :
    (out : Wrote) (e : Event) (w : Writer)
    → (event out e w).1.body
      ≡ w.body ++ elim out [ whole ↦ event_bytes e | cut_after n ↦ take n (event_bytes e) ]
unfolding event send start
body-event whole e w = ground arith
body-event (cut_after n) e w = ground arith

body-write_all :
    (es : List (Wrote × Event)) (w : Writer)
    → NothingCut es
    → (write_all es w).body ≡ w.body ++ stream_bytes (delivered es)
unfolding write_all delivered stream_bytes
body-write_all [] w h = sym (append-nil w.body)
body-write_all ((whole, e) ∷ es) w h =
    body-write_all es (event whole e w).1 h
    ∙ (ap (λ b. b ++ stream_bytes (delivered es)) (body-event whole e w)
        ∙ append_assoc w.body (event_bytes e) (stream_bytes (delivered es)))
body-write_all ((cut_after n, e) ∷ es) w h =
    let none_of_it : w.body ++ take n (event_bytes e) ≡ w.body =
      ap (λ k. w.body ++ take k (event_bytes e)) h.0 ∙ append-nil w.body in
    body-write_all es (event (cut_after n) e w).1 h.1
    ∙ ap (λ b. b ++ stream_bytes (delivered es)) (body-event (cut_after n) e w ∙ none_of_it)

nothing_left :
    {E : Type 0} (failure : Option E) (limit : ℕ)
    → round failure limit nothing [] false ≡ returns (error failure)
unfolding round error
nothing_left none limit = refl
nothing_left (some e) limit = refl

-- An event that can stand on its lines, within a reader's limit.
abbrev pub Sendable : ℕ → Event → Type 0
Sendable limit e = Fits e.id × Fits e.name × Sends e.payload × (length (event_bytes e) ≤ limit)

module _ {E : Type 0} (failure : Option E) (limit : ℕ) where
  -- `Next` until it returns no event, some number of times at most.
  unfoldable pub read_all : ℕ → Bytes → Option (List Event × Answer E)
  unfolding next
  read_all zero s = none
  read_all (suc n) s = elim (next failure limit s) [
    | none ↦ none
    | some (got e, rest) ↦ elim (read_all n rest) [ none ↦ none | some (es, a) ↦ some (e ∷ es, a) ]
    | some (a, rest) ↦ some ([], a)
  ]

  next_end : next failure limit [] ≡ some (error failure, [])
  unfolding read_line
  next_end =
      next_of_loop failure 1 limit [] (error failure, [])
        (loop_returns failure 0 limit nothing [] (error failure) (nothing_left failure limit))

  read_got :
      (n : ℕ) (s rest : Bytes) (e : Event) (es : List Event) (a : Answer E)
      → next failure limit s ≡ some (got e, rest)
      → read_all n rest ≡ some (es, a)
      → read_all (suc n) s ≡ some (e ∷ es, a)
  unfolding read_all
  read_got n s rest e es a h k = rw (read_all, h) (rw k refl)

read_end :
    {E : Type 0} (failure : Option E) (limit n : ℕ) (s : Bytes)
    → next failure limit s ≡ some (error failure, [])
    → read_all failure limit (suc n) s ≡ some ([], error failure)
unfolding error read_all
read_end none limit n s h = rw (read_all, h) refl
read_end (some e) limit n s h = rw (read_all, h) refl

module _ {E : Type 0} (failure : Option E) (limit : ℕ) where
  read_all_sent :
      (es : List Event)
      → All (Sendable limit) es
      → read_all failure limit (suc (length es)) (stream_bytes es) ≡ some (es, error failure)
  unfolding stream_bytes
  read_all_sent [] h = read_end failure limit 0 [] (next_end failure limit)
  read_all_sent (e ∷ es) ((f, g, k, l), h) =
      read_got failure limit (suc (length es)) (stream_bytes (e ∷ es)) (stream_bytes es) e es
        (error failure) (next-event_bytes failure limit e (stream_bytes es) f g k l)
        (read_all_sent es h)

  -- Whatever a fresh writer is given, a reader of the body gets just the events whose write succeeded,
  -- in their order, and then what the source ends with: if each of them can stand on its lines and is
  -- within the reader's limit, and no write that failed has left a part of its event.
  pub stream_received :
      (w : Writer) (es : List (Wrote × Event))
      → w.body ≡ []
      → NothingCut es
      → All (Sendable limit) (delivered es)
      → read_all failure limit (suc (length (delivered es))) (write_all es w).body
        ≡ some (delivered es, error failure)
  stream_received w es h c k =
      let sent : (write_all es w).body ≡ stream_bytes (delivered es) =
        body-write_all es w c ∙ ap (λ b. b ++ stream_bytes (delivered es)) h in
      ap (read_all failure limit (suc (length (delivered es)))) sent
      ∙ read_all_sent (delivered es) k
