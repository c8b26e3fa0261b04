-- ===== src/Sse/Writer/Lines.antt =====
-- The lines that internal/sse writes and reads.
use proofgate.Base.{
  ℕ, ◌==◌, ◌≡◌, ◌≢◌, refl, ap, ◌∙◌, Bool, true, false, not, ◌&&◌, ◌||◌, List, [], ◌∷◌, ◌++◌, arith,
  Bool-cases, inl, inr, All,
}
use proofgate.Base.Bytes.{Bytes}
use proofgate.Api.{join}
use proofgate.Sse.Reader.{newline, return, colon, space, read_line, trim_right, cut_colon}
use proofgate.Sse.Writer.{prepend, split_lines}

-- Text that a line can carry: no newline in it, and no carriage return at its end.
unfoldable pub has_newline : Bytes → Bool
has_newline [] = false
has_newline (c ∷ s) = (c == newline) || has_newline s

abbrev pub Fits : Bytes → Type 0
Fits s = (has_newline s ≡ false) × (trim_right s ≡ s)

pub read_line_app :
    (s rest : Bytes)
    → has_newline s ≡ false
    → read_line (s ++ newline ∷ rest) ≡ (s ++ newline ∷ [], rest, true)
unfolding read_line has_newline
read_line_app [] rest h = refl
read_line_app (c ∷ s) rest h = ground (arith, read_line_app s rest)

pub trim_right_end : (s : Bytes) → trim_right (s ++ newline ∷ []) ≡ trim_right s
unfolding trim_right
trim_right_end [] = refl
trim_right_end (c ∷ s) = rw (trim_right_end s) refl

-- A field's name: no colon in it, nor the end of a line.
unfoldable pub is_name : Bytes → Bool
is_name [] = true
is_name (c ∷ s) = not ((c == colon) || ((c == newline) || (c == return))) && is_name s

pub trim_right_app :
    (field s : Bytes)
    → is_name field ≡ true
    → trim_right s ≡ s
    → trim_right (field ++ s) ≡ field ++ s
unfolding trim_right is_name
trim_right_app [] s h e = e
trim_right_app (c ∷ field) s h e = ground (arith, trim_right_app field s, e)

pub trim_right_value :
    (v : Bytes) → trim_right v ≡ v → trim_right (colon ∷ space ∷ v) ≡ colon ∷ space ∷ v
unfolding trim_right
trim_right_value v h = ground arith

pub named : (c : ℕ) (field : Bytes) → is_name (c ∷ field) ≡ true → c ≢ colon
unfolding is_name
named c field h = ground arith

pub has_newline_app :
    (field s : Bytes) → is_name field ≡ true → has_newline (field ++ s) ≡ has_newline s
unfolding has_newline is_name
has_newline_app [] s h = refl
has_newline_app (c ∷ field) s h = ground (arith, has_newline_app field s)

pub cut_colon_app :
    (field s : Bytes) → is_name field ≡ true → cut_colon (field ++ colon ∷ s) ≡ (field, s)
unfolding cut_colon is_name
cut_colon_app [] s h = refl
cut_colon_app (c ∷ field) s h = ground (arith, cut_colon_app field s)

pub prepend_some : (c : ℕ) (ls : List Bytes) → ls ≢ [] → prepend c ls ≢ []
unfolding prepend
prepend_some c [] h = absurd (h refl)
prepend_some c (l ∷ ls) h = ground arith

pub split_lines_some : (s : Bytes) → split_lines s ≢ []
unfolding split_lines
split_lines_some [] = cc
split_lines_some (c ∷ s) = prepend_some c (split_lines s) (split_lines_some s)

pub join-prepend :
    (c : ℕ) (ls : List Bytes)
    → ls ≢ []
    → join (newline ∷ []) (prepend c ls) ≡ c ∷ join (newline ∷ []) ls
unfolding join prepend
join-prepend c [] h = absurd (h refl)
join-prepend c (l ∷ []) h = ground arith
join-prepend c (l ∷ m ∷ ls) h = ground arith

pub join-split_lines : (s : Bytes) → join (newline ∷ []) (split_lines s) ≡ s
unfolding split_lines
join-split_lines [] = unfold join in refl
join-split_lines (c ∷ s) =
    join-prepend c (split_lines s) (split_lines_some s) ∙ ap (λ t. c ∷ t) (join-split_lines s)

pub prepend-Fits :
    (c : ℕ) (ls : List Bytes)
    → All (λ l. has_newline l ≡ false) ls
    → All (λ l. has_newline l ≡ false) (prepend c ls)
unfolding prepend has_newline
prepend-Fits c [] h = tt
prepend-Fits c (l ∷ ls) (h, k) = elim (Bool-cases (c == newline)) [
  | inl e ↦ rw e (refl, (h, k))
  | inr e ↦ rw e (ground (arith, e, h), k)
]

-- Whether data can be sent: no carriage return at the end of a line of it.
abbrev pub Sends : Bytes → Type 0
Sends s = All (λ l. trim_right l ≡ l) (split_lines s)

pub lines-Fits :
    (ls : List Bytes)
    → All (λ l. has_newline l ≡ false) ls
    → All (λ l. trim_right l ≡ l) ls
    → All Fits ls
lines-Fits [] h k = tt
lines-Fits (l ∷ ls) (f, h) (g, k) = ((f, g), lines-Fits ls h k)

pub split_lines-Fits : (s : Bytes) → All (λ l. has_newline l ≡ false) (split_lines s)
unfolding split_lines
split_lines-Fits [] = (unfold has_newline in refl, tt)
split_lines-Fits (c ∷ s) = prepend-Fits c (split_lines s) (split_lines-Fits s)
