-- ===== src/Budget/Stage/Balance.antt =====
-- The budget's books (internal/budget/budget.go) balance at every point of every interleaving.
use proofgate.Base.{
  ◌≡◌, refl, sym, ap, ◌∙◌, subst, inl, inr, Bool, true, false, none, List, [], ◌∷◌, ◌++◌, All,
  arith, All-remove,
}
use proofgate.Base.Int.{ℤ, pos, ◌+ℤ◌, ◌-ℤ◌, ◌≤ℤ◌, int_laws, +ℤ_parts}
use proofgate.Base.Bytes.{Bytes}
use proofgate.Base.Float.{Floats}
use proofgate.Redis.{or_zero}
use proofgate.Redis.{most_exact}
use proofgate.Budget.Ledger.{Ledger, IsLedger}
use proofgate.Budget.Stage.{BudgetCall, Settings, before, after}
use proofgate.Budget.Stage.Books.{
  held, outstanding, spent_on, charged, IsHeld, before_lem, after_lem, Books, arrive, finish, Step,
  arrives, finishes, elsewhere, Steps, start, snoc,
}
use proofgate.Budget.Stage.Amounts.{
  outstanding-append, nonneg_add, gain, hold_apart, charge_in, charged_nonneg,
}

module _ (L : Ledger) (fl : Floats) (st : Settings fl) (tenant_id month : Bytes)
    (ledger : IsLedger L tenant_id month) where
  open ledger use {balance}

  outstanding_nonneg :
      (cs : List BudgetCall)
      → All (IsHeld L fl st tenant_id month ledger) cs
      → pos 0 ≤ℤ outstanding cs
  outstanding_nonneg [] h = ground arith
  outstanding_nonneg (c ∷ cs) h =
      nonneg_add (held c) (outstanding cs) h.0.held_nonneg (outstanding_nonneg cs h.1)

  record Balanced (b : Books L fl st tenant_id month ledger) : Type 0 where
    equation : balance b.world ≡ b.settled +ℤ outstanding b.calls
    settled_nonneg : pos 0 ≤ℤ b.settled
    calls_held : All (IsHeld L fl st tenant_id month ledger) b.calls

  abbrev IsHeldHere : BudgetCall → Type 0
  IsHeldHere c = IsHeld L fl st tenant_id month ledger c

  fresh_held :
      (c : BudgetCall) → c.tenant_id ≡ tenant_id → c.reserved ≡ none → c.month ≡ [] → IsHeldHere c
  fresh_held c t z m = record { of_tenant = t; of_month = inr m; held_nonneg = ground arith }

  -- Around the end of one call, everything but that call.
  record Around (b : Books L fl st tenant_id month ledger) (earlier : List BudgetCall)
      (c : BudgetCall) (later : List BudgetCall) (cost hedge : ℤ) : Type 0 where
    others : ℤ
    others_eq : others ≡ b.settled +ℤ outstanding (earlier ++ later)
    finished : IsHeldHere c
    rest : All IsHeldHere (earlier ++ later)
    held_before : balance b.world ≡ others +ℤ held c
    charged_after :
        balance (after L b.world month (spent_on c cost hedge)).1
        ≡ others
          +ℤ charged (after L b.world month (spent_on c cost hedge)).0 (spent_on c cost hedge)

  around :
      (b : Books L fl st tenant_id month ledger) (earlier : List BudgetCall) (c : BudgetCall)
      (later : List BudgetCall) (cost hedge : ℤ)
      → b.calls ≡ earlier ++ c ∷ later
      → pos 0 ≤ℤ cost +ℤ hedge
      → balance b.world +ℤ ((cost +ℤ hedge) -ℤ held c) ≤ℤ most_exact
      → Balanced b
      → Around b earlier c later cost hedge
  around b earlier c later cost hedge e p m v =
      let (h, rest) =
        All-remove IsHeldHere earlier c later (subst (All IsHeldHere) e v.calls_held) in
      let kept = outstanding (earlier ++ later) in
      let calls : outstanding b.calls ≡ held c +ℤ kept =
        ap outstanding e ∙ outstanding-append earlier c later in
      let held_before : balance b.world ≡ (b.settled +ℤ kept) +ℤ held c =
        v.equation ∙ (ap (λ n. b.settled +ℤ n) calls ∙ hold_apart b.settled (held c) kept) in
      let nonneg =
        nonneg_add b.settled kept v.settled_nonneg (outstanding_nonneg (earlier ++ later) rest) in
      record {
        others = b.settled +ℤ kept;
        others_eq = refl;
        finished = h;
        rest = rest;
        held_before = held_before;
        charged_after =
            after_lem L fl st tenant_id month ledger b.world c cost hedge (b.settled +ℤ kept) h p
              nonneg held_before m;
      }

  step-Balanced :
      (b b' : Books L fl st tenant_id month ledger)
      → st.reserve_strict ≡ true
      → Step L fl st tenant_id month ledger b b'
      → Balanced b
      → Balanced b'
  unfolding arrive finish
  step-Balanced b b' strict (arrives _ c t z m) v =
      let kept =
        before_lem L fl st tenant_id month ledger b.world c strict (fresh_held c t z m) z in
      record {
        equation =
            gain (balance (arrive L fl st tenant_id month ledger b c).world) (balance b.world) _
              b.settled (outstanding b.calls) kept.0 v.equation;
        settled_nonneg = v.settled_nonneg;
        calls_held = (kept.1, v.calls_held);
      }
  step-Balanced b b' strict (finishes _ earlier c later cost hedge e p m) v =
      let a = around b earlier c later cost hedge e p m v in
      let ok = (after L b.world month (spent_on c cost hedge)).0 in
      record {
        equation =
            a.charged_after
            ∙ (ap (λ n. n +ℤ charged ok (spent_on c cost hedge)) a.others_eq
                ∙ charge_in b.settled (outstanding (earlier ++ later)) _);
        settled_nonneg =
            nonneg_add b.settled _ v.settled_nonneg
              (charged_nonneg ok c cost hedge a.finished.held_nonneg p);
        calls_held = a.rest;
      }
  step-Balanced b b' strict (elsewhere _ w e) v = record {
    equation = e ∙ v.equation;
    settled_nonneg = v.settled_nonneg;
    calls_held = v.calls_held;
  }

  steps-Balanced :
      (a b : Books L fl st tenant_id month ledger)
      → st.reserve_strict ≡ true
      → Steps L fl st tenant_id month ledger a b
      → Balanced a
      → Balanced b
  steps-Balanced a _ strict start v = v
  steps-Balanced a _ strict (snoc b c ss s) v =
      step-Balanced b c strict s (steps-Balanced a b strict ss v)

  opening-Balanced :
      (a : Books L fl st tenant_id month ledger)
      → a.calls ≡ []
      → balance a.world ≡ a.settled
      → pos 0 ≤ℤ a.settled
      → Balanced a
  opening-Balanced a none_yet e p =
      let same : a.settled ≡ a.settled +ℤ pos 0 = grind int_laws in
      record {
        equation = e ∙ (same ∙ ap (λ cs. a.settled +ℤ outstanding cs) (sym none_yet));
        settled_nonneg = p;
        calls_held = subst (All IsHeldHere) (sym none_yet) tt;
      }

  -- With `reserve: strict`, from books without calls in flight whose settled amount is the ledger's
  -- and is not negative, and through any steps, calls interleaved in any order and ledger errors
  -- included, the ledger holds exactly what is settled and what the calls in flight hold back: while
  -- no finished call costs less than nothing, a ledger call that fails has done nothing, and the ledger
  -- has at most 14 digits.
  pub books_balance :
      (a b : Books L fl st tenant_id month ledger)
      → st.reserve_strict ≡ true
      → a.calls ≡ []
      → balance a.world ≡ a.settled
      → pos 0 ≤ℤ a.settled
      → Steps L fl st tenant_id month ledger a b
      → balance b.world ≡ b.settled +ℤ outstanding b.calls
  books_balance a b strict none_yet e p ss =
      (steps-Balanced a b strict ss (opening-Balanced a none_yet e p)).equation

  -- Every call carries the tenant's limit, and every finished call has cost at most what it held.
  abbrev pub IsFrugalStep :
      ℤ
      → (b b' : Books L fl st tenant_id month ledger) → Step L fl st tenant_id month ledger b b'
      → Type 0
  IsFrugalStep limit b b' (arrives _ c t z m) = c.limit ≡ limit
  IsFrugalStep limit b b' (finishes _ earlier c later cost hedge e p m) = cost +ℤ hedge ≤ℤ held c
  IsFrugalStep limit b b' (elsewhere _ w e) = Unit

  abbrev pub IsFrugal :
      ℤ
      → (a b : Books L fl st tenant_id month ledger) → Steps L fl st tenant_id month ledger a b
      → Type 0
  IsFrugal limit a _ start = Unit
  IsFrugal limit a _ (snoc b c ss s) = IsFrugal limit a b ss × IsFrugalStep limit b c s

  charged_le :
      (ok : Bool) (c : BudgetCall) (cost hedge others before after limit : ℤ)
      → cost +ℤ hedge ≤ℤ held c
      → before ≡ others +ℤ held c
      → after ≡ others +ℤ charged ok (spent_on c cost hedge)
      → before ≤ℤ limit
      → after ≤ℤ limit
  charged_le true c cost hedge others x y limit f e k h =
      let n = cost +ℤ hedge in
      let m = held c in ground (arith, +ℤ_parts others n, +ℤ_parts others m)
  charged_le false c cost hedge others x y limit f e k h = ground arith

  step_limit :
      (limit : ℤ) (b b' : Books L fl st tenant_id month ledger)
      (s : Step L fl st tenant_id month ledger b b')
      → st.reserve_strict ≡ true
      → IsFrugalStep limit b b' s
      → Balanced b
      → balance b.world ≤ℤ limit
      → balance b'.world ≤ℤ limit
  unfolding arrive finish
  step_limit limit b b' (arrives _ c t z m) strict f v h =
      let kept =
        before_lem L fl st tenant_id month ledger b.world c strict (fresh_held c t z m) z in
      elim kept.2 [
        | inl nothing ↦
            let same : balance b.world +ℤ pos 0 ≡ balance b.world = grind int_laws in
            let equal : balance (before L fl st b.world month c).2 ≡ balance b.world =
              kept.0 ∙ (ap (λ n. balance b.world +ℤ or_zero n) nothing ∙ same) in
            rw equal h
        | inr within ↦ subst (λ n. balance (before L fl st b.world month c).2 ≤ℤ n) f within
      ]
  step_limit limit b b' (finishes _ earlier c later cost hedge e p m) strict f v h =
      let a = around b earlier c later cost hedge e p m v in
      charged_le (after L b.world month (spent_on c cost hedge)).0 c cost hedge a.others _ _ limit f
        a.held_before a.charged_after h
  step_limit limit b b' (elsewhere _ w e) strict f v h = rw e h

  steps_limit :
      (limit : ℤ) (a b : Books L fl st tenant_id month ledger)
      (ss : Steps L fl st tenant_id month ledger a b)
      → st.reserve_strict ≡ true
      → IsFrugal limit a b ss
      → Balanced a
      → balance a.world ≤ℤ limit
      → balance b.world ≤ℤ limit
  steps_limit limit a _ start strict f v h = h
  steps_limit limit a _ (snoc b c ss s) strict f v h =
      step_limit limit b c s strict f.1 (steps-Balanced a b strict ss v)
        (steps_limit limit a b ss strict f.0 v h)

  -- With `reserve: strict`, from books without calls in flight whose settled amount is the ledger's,
  -- not negative and within the limit, and while every call carries that limit and no finished call
  -- costs more than it held or less than nothing, the ledger never passes the limit, however the calls
  -- interleave: while a ledger call that fails has done nothing, and the ledger has at most 14 digits.
  pub never_over_limit :
      (limit : ℤ) (a b : Books L fl st tenant_id month ledger)
      (ss : Steps L fl st tenant_id month ledger a b)
      → st.reserve_strict ≡ true
      → a.calls ≡ []
      → balance a.world ≡ a.settled
      → pos 0 ≤ℤ a.settled
      → balance a.world ≤ℤ limit
      → IsFrugal limit a b ss
      → balance b.world ≤ℤ limit
  never_over_limit limit a b ss strict none_yet e p h f =
      steps_limit limit a b ss strict f (opening-Balanced a none_yet e p) h
