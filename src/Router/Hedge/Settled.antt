-- ===== src/Router/Hedge/Settled.antt =====
-- A hedged race of internal/router/hedge.go accounts for each attempt that it has launched.
use proofgate.Base.{
  ℕ, ◌+◌, ◌-◌, ◌==◌, ◌≤◌, ◌≡◌, refl, sym, not, ◌&&◌, Option, none, some, List, [], ◌∷◌, drop, arith,
  Bool-cases, inl, inr, subst, ◌⊎◌,
}
use proofgate.Router.Breaker.{Target, Breakers}
use proofgate.Router.Execute.{Err, classify, deadline_exceeded, canceled}
use proofgate.Router.Hedge.{
  Race, Event, timer, succeeds, fails, ends, Answer, won, lost, falls_back, Move, answers, waits,
  bool_int, launched_first, is_done, note_failure, finish, exhausted, step, race,
}

-- whether an event is the outcome of an attempt
abbrev pub outcomes_in : {V : Type 0} → Event V → ℕ
outcomes_in (timer allowed) = 0
outcomes_in (succeeds v t) = 1
outcomes_in (fails err t now) = 1
outcomes_in (ends e) = 0

abbrev pub outcomes : {V : Type 0} → List (Event V) → ℕ
outcomes [] = 0
outcomes (e ∷ es) = outcomes_in e + outcomes es

abbrev pub launched : Race → ℕ
launched r = 1 + bool_int r.hedged

-- Some attempt is pending, and what was launched is pending or has come to an outcome.
abbrev pub IsFair : ℕ → Race → Type 0
IsFair k r = (1 ≤ r.pending) × (r.pending + k ≡ launched r)

-- What an answer says of the attempts, of which `k` have come to an outcome.
abbrev pub IsSettled : {V : Type 0} → Target → Target → List Target → ℕ → Answer V → Type 0
IsSettled primary secondary others k (won v t n hedged rest br) =
    (n ≡ 1 + bool_int hedged) × (rest + k ≡ n)
IsSettled primary secondary others k (lost none n hedged err br) = Unit
IsSettled primary secondary others k (lost (some t) n hedged err br) = k ≡ 1 + bool_int hedged
IsSettled primary secondary others k (falls_back rest n hedged br) =
    (n ≡ k) × (k ≡ 1 + bool_int hedged) × (rest ≡ drop n (primary ∷ secondary ∷ others))

abbrev pub IsSound : {V : Type 0} → Target → Target → List Target → ℕ → Move V → Type 0
IsSound primary secondary others k (waits r) = IsFair k r
IsSound primary secondary others k (answers a) = IsSettled primary secondary others k a

Move-cases :
    {V : Type 0} (m : Move V) → ((a : Answer V) × (m ≡ answers a)) ⊎ ((r : Race) × (m ≡ waits r))
Move-cases (answers a) = inl (a, refl)
Move-cases (waits r) = inr (r, refl)

-- the outcomes that a race receives before it comes to its answer
pub received : {V : Type 0} → Target → List Target → Race → List (Event V) → ℕ
received secondary others r [] = 0
received secondary others r (e ∷ es) = outcomes_in e + elim (step secondary others r e) [
  | answers a ↦ 0
  | waits r' ↦ received secondary others r' es
]

exhausted-IsSettled :
    (V : Type 0) (primary secondary : Target) (others : List Target) (k : ℕ) (r : Race) (err : Err)
    (t : Target)
    → k ≡ launched r
    → IsSettled primary secondary others k (exhausted {V = V} secondary others r err t)
unfolding exhausted
exhausted-IsSettled V primary secondary [] k r err t h = elim (Bool-cases r.hedged) [
  | inl e ↦ rw (exhausted, e) h
  | inr e ↦ elim (Bool-cases (is_done (classify err).0)) [
    | inl d ↦ rw (exhausted, e, d) h
    | inr d ↦ rw (exhausted, e, d) (sym h, h, rw e refl)
  ]
]
exhausted-IsSettled V primary secondary (u ∷ us) k r err t h = elim (Bool-cases r.hedged) [
  | inl e ↦ elim (Bool-cases (is_done (classify err).0)) [
    | inl d ↦ rw (exhausted, e, d) h
    | inr d ↦ rw (exhausted, e, d) (sym h, h, rw e refl)
  ]
  | inr e ↦ elim (Bool-cases (is_done (classify err).0)) [
    | inl d ↦ rw (exhausted, e, d) h
    | inr d ↦ rw (exhausted, e, d) (sym h, h, rw e refl)
  ]
]

module _ {V : Type 0} (primary secondary : Target) (others : List Target) where
  step-IsSound :
      (k : ℕ) (r : Race) (e : Event V)
      → IsFair k r
      → IsSound primary secondary others (k + outcomes_in e) (step secondary others r e)
  unfolding step finish
  step-IsSound k r (timer allowed) (f, g) = elim (Bool-cases (not r.hedged && allowed)) [
    | inl e ↦ rw e (omega arith, ground arith)
    | inr e ↦ rw e (f, omega arith)
  ]
  step-IsSound k r (succeeds v t) (f, g) = (ground arith, ground arith)
  step-IsSound k r (fails err t now) (f, g) = elim (Bool-cases (r.pending - 1 == 0)) [
    | inl e ↦
        let r' : Race = record r {
          last_err = some err;
          pending = r.pending - 1;
          breakers = note_failure err t now r.breakers;
        } in
        rw e (exhausted-IsSettled V primary secondary others (k + 1) r' err t (ground arith))
    | inr e ↦ rw e (ground arith, omega arith)
  ]
  step-IsSound k r (ends deadline_exceeded) f = tt
  step-IsSound k r (ends canceled) f = tt

  race-IsSound :
      (k : ℕ) (r : Race) (es : List (Event V))
      → IsFair k r
      → IsSound primary secondary others
          (k + received secondary others r es)
          (race secondary others r es)
  unfolding race received
  race-IsSound k r [] (f, g) = (f, omega arith)
  race-IsSound k r (e ∷ es) f = elim (Move-cases (step secondary others r e)) [
    | inl (a, m) ↦
        rw (race, received, m)
          (subst (λ n. IsSound primary secondary others n (answers a)) (omega arith)
            (subst (IsSound primary secondary others (k + outcomes_in e)) m (step-IsSound k r e f)))
    | inr (r', m) ↦
        rw (race, received, m)
          (subst (λ n. IsSound primary secondary others n (race secondary others r' es))
            (omega arith)
            (race-IsSound (k + outcomes_in e) r' es (
              subst (IsSound primary secondary others (k + outcomes_in e)) m
                (step-IsSound k r e f))))
  ]

  -- A race accounts for each attempt that it has launched, one or two. While it waits, some attempt
  -- is pending. When it is won, `Attempts` is the number of attempts launched, and what has not come
  -- to an outcome is discarded. When it fails with an attempt's error or falls back, all attempts
  -- launched have come to an outcome, and the fallback runs on just the targets behind those that
  -- were attempted, whose number is added to its `Attempts`.
  pub race_settled :
      (br : Option Breakers) (es : List (Event V))
      → IsSound primary secondary others
          (received secondary others (launched_first br) es)
          (race secondary others (launched_first br) es)
  race_settled br es =
      let r = launched_first br in
      subst (λ n. IsSound primary secondary others n (race secondary others r es)) (omega arith)
        (race-IsSound 0 r es (omega arith, omega arith))
