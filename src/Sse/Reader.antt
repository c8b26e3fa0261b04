-- ===== src/Sse/Reader.antt =====
-- internal/sse/reader.go. The reader's state is the bytes that are still to come, after which
-- the source ends or fails; `ReadBytes`, `TrimRight`, `Cut` and `TrimPrefix` are written out.
pub mod Fuel
use proofgate.Base.{
  ℕ, zero, suc, ◌+◌, ◌*◌, ◌==◌, Bool, true, false, not, ◌&&◌, ◌||◌, Option, none, some, List, [],
  ◌∷◌, ◌++◌, length, ltb, if◌then◌else◌,
}
use proofgate.Base.Int.{ℤ, pos, negsuc}
use proofgate.Base.Bytes.{Bytes, codes, str_eq}
use proofgate.Api.{join}
use proofgate.Router.Route.{is_empty}

pub record Event : Type 0 where
  pub id : Bytes
  pub name : Bytes
  pub payload : Bytes  -- `Data`

abbrev pub newline : ℕ
newline = 10

abbrev pub return : ℕ
return = 13

abbrev pub colon : ℕ
colon = b':'

abbrev pub space : ℕ
space = b' '

abbrev pub default_max_event_bytes : ℕ
default_max_event_bytes = 16 * 1024 * 1024

-- `ReadBytes('\n')`: the line with its newline, the rest, and whether there was a newline
unfoldable pub read_line : Bytes → Bytes × Bytes × Bool
read_line [] = ([], [], false)
read_line (c ∷ s) =
    let (line, rest, complete) = read_line s in
    if c == newline then (c ∷ [], s, true) else (c ∷ line, rest, complete)

unfoldable pub trim_right : Bytes → Bytes
trim_right [] = []
trim_right (c ∷ s) =
    let rest = trim_right s in
    if is_empty rest && (c == newline || c == return) then [] else c ∷ rest

unfoldable pub cut_colon : Bytes → Bytes × Bytes
cut_colon [] = ([], [])
cut_colon (c ∷ s) =
    let (field, value) = cut_colon s in if c == colon then ([], s) else (c ∷ field, value)

unfoldable pub trim_space : Bytes → Bytes
trim_space [] = []
trim_space (c ∷ s) = if c == space then s else c ∷ s

-- The variables of `Next`: the event, its lines of data, `have` and `totalBytes`.
pub record Pending : Type 0 where
  pub id : Bytes
  pub name : Bytes
  pub lines : List Bytes
  pub have : Bool
  pub total : ℕ

abbrev pub nothing : Pending
nothing = record { id = []; name = []; lines = []; have = false; total = 0 }

abbrev pub event_of : Pending → Event
event_of p = record { id = p.id; name = p.name; payload = join (newline ∷ []) p.lines }

-- the `switch` on a field
unfoldable pub assign : Pending → Bytes → Bytes → Pending
assign p field value =
    if str_eq field (codes "id")
    then record p { id = value; have = true }
    else if str_eq field (codes "event")
    then record p { name = value; have = true }
    else if str_eq field (codes "data")
    then record p { lines = p.lines ++ value ∷ []; have = true }
    else p

pub data Answer (E : Type 0) : Type 0 where
  got : Event → Answer E
  too_large ended : Answer E
  broken : E → Answer E

-- What a round of the loop comes to.
pub data Round (E : Type 0) : Type 0 where
  returns : Answer E → Round E
  continues : Pending → Round E

-- `failure` is what the source reports behind its bytes: `none` for `io.EOF`.
module _ {E : Type 0} (failure : Option E) where
  unfoldable pub error : Answer E
  error = elim failure [ none ↦ ended | some e ↦ broken e ]

  -- a line without its end
  unfoldable pub content : Pending → Bytes → Bool → Round E
  unfolding assign error
  content p [] complete = if p.have then returns (got (event_of p)) else continues p
  content p (c ∷ s) complete =
      let (field, value) = cut_colon (c ∷ s) in
      let p' = assign p field (trim_space value) in
      if c == colon
      then continues p
      else if complete
      then continues p'
      else returns (if p'.have then got (event_of p') else error)

  unfoldable pub round : ℕ → Pending → Bytes → Bool → Round E
  unfolding content error
  round limit p [] false =
      returns
        (elim failure [ none ↦ if p.have then got (event_of p) else ended | some e ↦ broken e ])
  round limit p line complete =
      let p' = record p { total = p.total + length line } in
      if ltb 0 limit && ltb limit p'.total
      then returns too_large
      else content p' (trim_right line) complete

  -- Each round but the last takes a byte at least, so `length s + 2` rounds are enough.
  unfoldable pub loop : ℕ → ℕ → Pending → Bytes → Option (Answer E × Bytes)
  unfolding round
  loop zero limit p s = none
  loop (suc fuel) limit p s =
      let (line, rest, complete) = read_line s in
      elim (round limit p line complete) [
        | returns a ↦ some (a, rest)
        | continues p' ↦ loop fuel limit p' rest
      ]

  unfoldable pub next : ℕ → Bytes → Option (Answer E × Bytes)
  unfolding loop
  next limit s = loop (length s + 2) limit nothing s

-- `NewReaderWithLimit`: the limit that the reader keeps
unfoldable pub limit_of : ℤ → ℕ
limit_of (pos zero) = default_max_event_bytes
limit_of (pos (suc n)) = suc n
limit_of (negsuc n) = default_max_event_bytes
