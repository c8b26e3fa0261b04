-- ===== src/Sse/Examples.antt =====
-- Runs of internal/sse: two events, of which the first has two lines of data.
use proofgate.Base.{suc, ◌≡◌, refl, false, none, some, List, [], ◌∷◌, length, arith}
use proofgate.Base.Bytes.{Bytes, codes, str_eq}
use proofgate.Api.{join}
use proofgate.Sse.Reader.{
  Event, Answer, got, next, loop, round, content, assign, error, read_line, trim_right, cut_colon,
  trim_space,
}
use proofgate.Sse.Reader.Fuel.{next_returns}
use proofgate.Sse.Writer.{
  Wrote, whole, cut_after, Writer, event_bytes, split_lines, prepend, data_bytes, field_bytes,
}
use proofgate.Sse.Writer.Lines.{has_newline}
use proofgate.Sse.Writer.Stream.{Sendable, delivered, write_all, read_all, stream_received}

abbrev first : Event
first = record { id = codes "1"; name = []; payload = codes "a\nb" }

abbrev last : Event
last = record { id = []; name = codes "end"; payload = [] }

abbrev events : List (Wrote × Event)
events = (whole, first) ∷ (cut_after 0, first) ∷ (whole, last) ∷ []

abbrev fresh : Writer
fresh = record { started = false; headers = 0; body = []; flushed = 0 }

written : event_bytes first ≡ codes "id: 1\ndata: a\ndata: b\n\n"
unfolding event_bytes split_lines prepend data_bytes field_bytes
written = refl

first-Sendable : Sendable 100 first
unfolding event_bytes split_lines prepend data_bytes field_bytes has_newline trim_right
first-Sendable = ((refl, refl), (refl, refl), (refl, (refl, tt)), omega arith)

last-Sendable : Sendable 100 last
unfolding event_bytes split_lines prepend data_bytes field_bytes has_newline trim_right
last-Sendable = ((refl, refl), (refl, refl), (refl, tt), omega arith)

stream_received_example :
    read_all {E = Bytes} none 100 (suc (length (delivered events))) (write_all events fresh).body
    ≡ some (delivered events, error {E = Bytes} none)
unfolding delivered
stream_received_example =
    stream_received none 100 fresh events refl (refl, tt) (first-Sendable, (last-Sendable, tt))

next_returns_example :
    (r : Answer Bytes × Bytes) × (next (some (codes "reset")) 100 (codes "data: a") ≡ some r)
next_returns_example = next_returns (some (codes "reset")) 100 (codes "data: a")

-- The end of a source in the middle of a line ends the event too.
cut_short :
    next {E = Bytes} none 100 (codes "data: a")
    ≡ some (got (record { id = []; name = []; payload = codes "a" }), [])
unfolding next loop round content assign str_eq read_line trim_right cut_colon trim_space join
cut_short = refl
