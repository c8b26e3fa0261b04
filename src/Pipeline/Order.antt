-- ===== src/Pipeline/Order.antt =====
-- In which order the hooks of a pipeline run (internal/pipeline/pipeline.go).
use proofgate.Base.{
  ℕ, zero, suc, ◌+◌, ◌≤◌, ◌<◌, ◌≡◌, ◌≢◌, refl, sym, ap, ◌∙◌, Option, none, some, List, [], ◌∷◌,
  ◌++◌, length, length-append, take, arith, get_elem?,
}
use proofgate.Pipeline.{
  Verdict, go_on, handled, failed, Stage, Call, before, respond_below, respond, after_below, after,
  apply,
}

abbrev pub error_of : {E : Type 0} → Verdict E → Option E → Option E
error_of go_on old = old
error_of handled old = old
error_of (failed e) old = some e

module _ {C E : Type 0} where
  -- The way in: the stages in `ran` see the call, one behind the other, and all but the last pass it
  -- on; the last one stops it, or there are no stages in `rest`.
  pub data Enters : List (Stage C E) → List (Stage C E) → C → C → Verdict E → Type 0 where
    through : {c : C} → Enters [] [] c c go_on
    stopped :
        {s : Stage C E} {rest : List (Stage C E)} {c c' : C} {v : Verdict E}
        → s.before c ≡ (c', v)
        → v ≢ go_on
        → Enters (s ∷ []) rest c c' v
    passed :
        {s : Stage C E} {ran rest : List (Stage C E)} {c c' c'' : C} {v : Verdict E}
        → s.before c ≡ (c', go_on)
        → Enters ran rest c' c'' v
        → Enters (s ∷ ran) rest c c'' v

  -- The hooks of the stages on the way back: the last stage's first.
  abbrev pub unwind : List (Stage C E) → C → C
  unwind [] c = c
  unwind (s ∷ ss) c = s.after (unwind ss c)

  abbrev pub unwind_respond : List (Stage C E) → C → C
  unwind_respond [] c = c
  unwind_respond (s ∷ ss) c = apply s.respond (unwind_respond ss c)

  unwind_last :
      (stages : List (Stage C E)) (i : ℕ) (s : Stage C E) (c : C)
      → get_elem? stages i ≡ some s
      → unwind (take (suc i) stages) c ≡ unwind (take i stages) (s.after c)
  unwind_last [] i s c h = cc
  unwind_last (t ∷ ts) zero s c h = ground arith
  unwind_last (t ∷ ts) (suc i) s c h = ap t.after (unwind_last ts i s c h)

  unwind_respond_last :
      (stages : List (Stage C E)) (i : ℕ) (s : Stage C E) (c : C)
      → get_elem? stages i ≡ some s
      → unwind_respond (take (suc i) stages) c ≡ unwind_respond (take i stages) (apply s.respond c)
  unwind_respond_last [] i s c h = cc
  unwind_respond_last (t ∷ ts) zero s c h = ground arith
  unwind_respond_last (t ∷ ts) (suc i) s c h = ap (apply t.respond) (unwind_respond_last ts i s c h)

  get_elem?_below :
      (stages : List (Stage C E)) (i : ℕ)
      → i < length stages
      → (s : Stage C E) × (get_elem? stages i ≡ some s)
  get_elem?_below [] i h = elim h [ ]
  get_elem?_below (s ∷ ss) zero h = (s, refl)
  get_elem?_below (s ∷ ss) (suc i) h = get_elem?_below ss i (omega arith)

  after_below-unwind :
      (stages : List (Stage C E)) (i : ℕ) (c : C)
      → i ≤ length stages
      → after_below stages i c ≡ some (unwind (take i stages) c)
  unfolding after_below
  after_below-unwind stages zero c h = refl
  after_below-unwind stages (suc i) c h =
      let (s, e) = get_elem?_below stages i h in
      rw (e, after_below)
        (after_below-unwind stages i (s.after c) (omega arith)
          ∙ ap some (sym (unwind_last stages i s c e)))

  take_prefix : (xs ys : List (Stage C E)) → take (length xs) (xs ++ ys) ≡ xs
  take_prefix [] ys = refl
  take_prefix (x ∷ xs) ys = ap (◌∷◌ x) (take_prefix xs ys)

  after_below_ran :
      (stages ran rest : List (Stage C E)) (n : ℕ) (c : C)
      → stages ≡ ran ++ rest
      → n ≡ length ran
      → after_below stages n c ≡ some (unwind ran c)
  after_below_ran stages ran rest n c split count =
      rw (split, count)
        (after_below-unwind (ran ++ rest) (length ran) c (omega (arith, length-append ran rest))
          ∙ ap (λ l. some (unwind l c)) (take_prefix ran rest))

  abbrev Ends : List (Stage C E) → Call C E → Call C E × Verdict E → Type 0
  Ends stages c o =
      (ran : List (Stage C E)) × (rest : List (Stage C E)) × (stages ≡ ran ++ rest)
      × Enters ran rest c.call o.0.call o.1
      × (o.0.ran ≡ c.ran + length ran)
      × (o.0.err ≡ error_of o.1 c.err)

  Ends-cons :
      (s : Stage C E) (ss : List (Stage C E)) (c : Call C E) (call : C) (o : Call C E × Verdict E)
      → s.before c.call ≡ (call, go_on)
      → Ends ss (record c { call = call; ran = c.ran + 1 }) o
      → Ends (s ∷ ss) c o
  Ends-cons s ss c call o e (ran, rest, split, way, count, err) =
      (s ∷ ran, rest, ap (◌∷◌ s) split, passed e way, omega (arith, count), err)

  verdict_cases :
      (s : Stage C E) (ss : List (Stage C E)) (c : Call C E) (call : C) (v : Verdict E)
      → s.before c.call ≡ (call, v)
      → Ends ss
          (record c { call = call; ran = c.ran + 1 })
          (before ss (record c { call = call; ran = c.ran + 1 }))
      → Ends (s ∷ ss) c (elim v [
        | failed e ↦ (record c { call = call; ran = c.ran + 1; err = some e }, failed e)
        | handled ↦ (record c { call = call; ran = c.ran + 1 }, handled)
        | go_on ↦ before ss (record c { call = call; ran = c.ran + 1 })
      ])
  verdict_cases s ss c call go_on e h = Ends-cons s ss c call _ e h
  verdict_cases s ss c call handled e h =
      (s ∷ [], ss, refl, stopped e (λ x. ground arith), omega arith, refl)
  verdict_cases s ss c call (failed x) e h =
      (s ∷ [], ss, refl, stopped e (λ y. ground arith), omega arith, refl)

  before-Ends : (stages : List (Stage C E)) (c : Call C E) → Ends stages c (before stages c)
  unfolding before
  before-Ends [] c = ([], [], refl, through, omega arith, refl)
  before-Ends (s ∷ ss) c =
      let (call, v) = s.before c.call in
      verdict_cases s ss c call v refl (before-Ends ss (record c { call = call; ran = c.ran + 1 }))

  -- A new call goes into the stages in order, up to and including the first that handles it or
  -- fails; an error is kept on the call. Behind it `After` runs on exactly the stages that `Before`
  -- ran on, the failing one included, last stage first, and never out of range.
  pub before_after_balanced :
      (stages : List (Stage C E)) (call : C)
      → let (c, v) = before stages (record { call = call; ran = 0; err = none }) in
        (ran : List (Stage C E)) × (rest : List (Stage C E)) × (stages ≡ ran ++ rest)
        × Enters ran rest call c.call v
        × (c.err ≡ error_of v none)
        × (after stages c ≡ some (unwind ran c.call))
  unfolding after
  before_after_balanced stages call =
      let start : Call C E = record { call = call; ran = 0; err = none } in
      let (c, v) = before stages start in
      let (ran, rest, split, way, count, err) = before-Ends stages start in
      (
        ran,
        rest,
        split,
        way,
        err,
        after_below_ran stages ran rest c.ran c.call split (omega (arith, count)),
      )

  respond_below-unwind :
      (stages : List (Stage C E)) (i : ℕ) (c : C)
      → i ≤ length stages
      → respond_below stages i c ≡ some (unwind_respond (take i stages) c)
  unfolding respond_below
  respond_below-unwind stages zero c h = refl
  respond_below-unwind stages (suc i) c h =
      let (s, e) = get_elem?_below stages i h in
      rw (e, respond_below)
        (respond_below-unwind stages i (apply s.respond c) (omega arith)
          ∙ ap some (sym (unwind_respond_last stages i s c e)))

  take_all : (xs : List (Stage C E)) → take (length xs) xs ≡ xs
  take_all [] = refl
  take_all (x ∷ xs) = ap (◌∷◌ x) (take_all xs)

  -- `Respond` runs the responders among all stages, last stage first, whether or not `Before` ran on
  -- them, and never out of range.
  pub respond-unwind :
      (stages : List (Stage C E)) (c : C) → respond stages c ≡ some (unwind_respond stages c)
  unfolding respond
  respond-unwind stages c =
      respond_below-unwind stages (length stages) c (omega arith)
      ∙ ap (λ l. some (unwind_respond l c)) (take_all stages)
