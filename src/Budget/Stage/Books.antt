-- ===== src/Budget/Stage/Books.antt =====
-- The books that the stage of internal/budget/budget.go keeps through the ledger, over any
-- interleaving of the calls of one tenant in one month with everything else.
use proofgate.Base.{
  ◌≡◌, refl, sym, ap, ◌∙◌, subst, ◌⊎◌, inl, inr, Bool, true, false, ◌&&◌, Option, none, some, List,
  [], ◌∷◌, ◌++◌, arith, if◌then◌else◌, Bool-cases, Option-cases,
}
use proofgate.Base.Int.{ℤ, pos, ◌+ℤ◌, ◌-ℤ◌, ◌≤ℤ◌, leb_ℤ, int_laws, +ℤ_parts}
use proofgate.Base.Bytes.{Bytes}
use proofgate.Base.Float.{Floats}
use proofgate.Redis.{or_zero, most_exact}
use proofgate.Api.Errors.{ApiError}
use proofgate.Router.Route.{is_empty}
use proofgate.Pipeline.{Verdict, go_on, failed}
use proofgate.Budget.Pricing.Estimates.{estimate_covers}
use proofgate.Budget.Ledger.{Ledger, IsLedger}
use proofgate.Budget.Stage.{
  BudgetCall, Settings, estimate, reserved_call, before, after, total_cost, is_unlimited,
  unpriced_target, call_targets, call_tokens,
}

-- What a call holds back until it is settled.
abbrev pub held : BudgetCall → ℤ
held c = or_zero c.reserved

abbrev pub outstanding : List BudgetCall → ℤ
outstanding [] = pos 0
outstanding (c ∷ cs) = held c +ℤ outstanding cs

abbrev pub spent_on : BudgetCall → ℤ → ℤ → BudgetCall
spent_on c cost hedge = record c { cost_micros = cost; hedge_cost_micros = hedge }

-- What a finished call leaves in the ledger: its cost, or what it held where the ledger was not
-- reached.
abbrev pub charged : Bool → BudgetCall → ℤ
charged true c = total_cost c
charged false c = held c

no_delta : (a d b : ℤ) → leb_ℤ d (pos 0) ≡ true → leb_ℤ (pos 0) d ≡ true → a +ℤ d ≡ b → a ≡ b
no_delta a d b h k e =
    let sum : d ≡ pos 0 = ground arith in
    let same : a +ℤ pos 0 ≡ a = grind int_laws in sym same ∙ (ap (λ n. a +ℤ n) (sym sum) ∙ e)

sum_nonneg : (a d m n : ℤ) → a +ℤ d ≡ m +ℤ n → pos 0 ≤ℤ m → pos 0 ≤ℤ n → pos 0 ≤ℤ a +ℤ d
sum_nonneg a d m n e p q = rw e (grind int_laws)

estimate_nonneg :
    (fl : Floats) (st : Settings fl) (c : BudgetCall) (est : ℤ)
    → estimate fl st c ≡ some est
    → pos 0 ≤ℤ est
unfolding estimate
estimate_nonneg fl st c est h = elim (Option-cases st.pricing) [
  | inl e ↦ ground (arith)
  | inr (prices, e) ↦ ground (
    arith,
    estimate_covers fl prices (call_targets c) (pos (call_tokens c st.default_max).0)
        (pos (call_tokens c st.default_max).1) est,
  )
]

module _ (L : Ledger) (fl : Floats) (st : Settings fl) (tenant_id month : Bytes)
    (ledger : IsLedger L tenant_id month) where
  open ledger use {balance}

  -- A call of the tenant whose reservation, if any, stands under the month.
  pub record IsHeld (c : BudgetCall) : Type 0 where
    pub of_tenant : c.tenant_id ≡ tenant_id
    pub of_month : (c.month ≡ month) ⊎ (c.month ≡ [])
    pub held_nonneg : pos 0 ≤ℤ held c

  abbrev pub Kept : L.World → BudgetCall → Verdict ApiError × BudgetCall × L.World → Type 0
  Kept w c out =
      (balance out.2 ≡ balance w +ℤ held out.1)
      × IsHeld out.1
      × ((out.1.reserved ≡ none) ⊎ (balance out.2 ≤ℤ c.limit))

  untouched :
      (w : L.World) (c : BudgetCall) (verdict : Verdict ApiError)
      → IsHeld c
      → c.reserved ≡ none
      → Kept w c (verdict, c, w)
  untouched w c verdict v z =
      ground (arith, +ℤ_parts (balance w) (pos 0), v.of_tenant, v.of_month, v.held_nonneg)

  reserved_call_lem :
      (w : L.World) (c : BudgetCall) (est : ℤ) (r : Option (Bool × ℤ) × L.World)
      → L.reserve w tenant_id month est c.limit ≡ r
      → IsHeld c
      → c.reserved ≡ none
      → pos 0 ≤ℤ est
      → Kept w c (reserved_call L month est c r)
  unfolding reserved_call
  reserved_call_lem w c est (none, w') e v z p = ground (
    arith,
    ledger.reserve_failed w w' est c.limit,
    +ℤ_parts (balance w) (pos 0),
    v.of_tenant,
    v.of_month,
    v.held_nonneg,
  )
  reserved_call_lem w c est (some (false, n), w') e v z p = ground (
    arith,
    ledger.reserve_refused w w' est c.limit n,
    +ℤ_parts (balance w) (pos 0),
    v.of_tenant,
    v.of_month,
    v.held_nonneg,
  )
  reserved_call_lem w c est (some (true, n), w') e v z p =
      ground (arith, ledger.reserve_taken w w' est c.limit n, v.of_tenant)

  -- `Before` on a call that holds nothing yet: what the ledger gains is what the call then holds.
  pub before_lem :
      (w : L.World) (c : BudgetCall)
      → st.reserve_strict ≡ true
      → IsHeld c
      → c.reserved ≡ none
      → Kept w c (before L fl st w month c)
  unfolding before
  before_lem w c strict v z = elim (Bool-cases (is_unlimited c)) [
    | inl e ↦
        let same : before L fl st w month c ≡ (go_on, c, w) = ground arith in
        subst (Kept w c) (sym same) (untouched w c go_on v z)
    | inr e ↦ elim (Option-cases (estimate fl st c)) [
      | inl e' ↦
          let same : before L fl st w month c ≡ (failed unpriced_target, c, w) = ground arith in
          subst (Kept w c) (sym same) (untouched w c (failed unpriced_target) v z)
      | inr (est, e') ↦
          let r = L.reserve w tenant_id month est c.limit in
          let same : before L fl st w month c ≡ reserved_call L month est c r =
            ground (arith, v.of_tenant) in
          subst (Kept w c) (sym same)
            (reserved_call_lem w c est r refl v z (estimate_nonneg fl st c est e'))
    ]
  ]

  add_lem :
      (w : L.World) (delta : ℤ)
      → pos 0 ≤ℤ balance w +ℤ delta
      → balance w +ℤ delta ≤ℤ most_exact
      → let r = L.add w tenant_id month delta in
        balance r.1 ≡ (if r.0 then balance w +ℤ delta else balance w)
  add_lem w delta p m =
      let (ok, w') = L.add w tenant_id month delta in
      ground (arith, m, ledger.add_done w w' delta, ledger.add_failed w w' delta)

  abbrev month_of : BudgetCall → Bytes
  month_of c = if is_empty c.month then month else c.month

  month_of_held : (c : BudgetCall) → IsHeld c → month_of c ≡ month
  month_of_held c v = elim v.of_month [ inl e ↦ ground (arith) | inr e ↦ rw (e, month_of) refl ]

  abbrev settle : L.World → ℤ → Bool × L.World
  settle w delta =
      if leb_ℤ delta (pos 0) && leb_ℤ (pos 0) delta
      then (true, w)
      else L.add w tenant_id month delta

  after_settle :
      (w : L.World) (c : BudgetCall) (cost hedge : ℤ)
      → IsHeld c
      → pos 0 ≤ℤ cost +ℤ hedge
      → after L w month (spent_on c cost hedge) ≡ settle w ((cost +ℤ hedge) -ℤ held c)
  unfolding after
  after_settle w c cost hedge v p = elim (Option-cases c.reserved) [
    | inl z ↦
        let total = cost +ℤ hedge in
        let same : total -ℤ pos 0 ≡ total = grind int_laws in
        ground (arith, same, v.of_tenant, month_of_held c v)
    | inr (n, z) ↦ ground (arith, v.of_tenant, month_of_held c v)
  ]

  -- `After` on a finished call: what it held is replaced by what it is charged.
  pub after_lem :
      (w : L.World) (c : BudgetCall) (cost hedge others : ℤ)
      → IsHeld c
      → pos 0 ≤ℤ cost +ℤ hedge
      → pos 0 ≤ℤ others
      → balance w ≡ others +ℤ held c
      → balance w +ℤ ((cost +ℤ hedge) -ℤ held c) ≤ℤ most_exact
      → let out = after L w month (spent_on c cost hedge) in
        balance out.1 ≡ others +ℤ charged out.0 (spent_on c cost hedge)
  after_lem w c cost hedge others v p q e m =
      let delta = (cost +ℤ hedge) -ℤ held c in
      let total = cost +ℤ hedge in
      let sum : balance w +ℤ delta ≡ others +ℤ total = grind int_laws in
      let stays : leb_ℤ delta (pos 0) ≡ true
          → leb_ℤ (pos 0) delta ≡ true
          → balance w ≡ others +ℤ total =
        λ h k. no_delta (balance w) delta (others +ℤ total) h k sum in
      let positive : pos 0 ≤ℤ balance w +ℤ delta =
        sum_nonneg (balance w) delta others total sum q p in
      rw (after_settle w c cost hedge v p) (ground (arith, sum, stays, add_lem w delta positive m))

  -- The ledger, the calls in flight, and what the finished calls have been charged.
  pub record Books : Type 0 where
    pub world : L.World
    pub calls : List BudgetCall
    pub settled : ℤ

  unfoldable pub arrive : Books → BudgetCall → Books
  arrive b c =
      let out = before L fl st b.world month c in
      record { world = out.2; calls = out.1 ∷ b.calls; settled = b.settled }

  unfoldable pub finish : Books → List BudgetCall → BudgetCall → List BudgetCall → ℤ → ℤ → Books
  finish b earlier c later cost hedge =
      let c' = spent_on c cost hedge in
      let out = after L b.world month c' in
      record { world = out.1; calls = earlier ++ later; settled = b.settled +ℤ charged out.0 c' }

  -- A call of the tenant arrives, any call in flight finishes at some cost
  -- that is not negative and leaves at most 14 digits in the ledger, or something else
  -- happens that leaves the tenant's balance alone.
  pub data Step : Books → Books → Type 0 where
    arrives :
        (b : Books) (c : BudgetCall)
        → c.tenant_id ≡ tenant_id
        → c.reserved ≡ none
        → c.month ≡ []
        → Step b (arrive b c)
    finishes :
        (b : Books) (earlier : List BudgetCall) (c : BudgetCall) (later : List BudgetCall)
        (cost hedge : ℤ)
        → b.calls ≡ earlier ++ c ∷ later
        → pos 0 ≤ℤ cost +ℤ hedge
        → balance b.world +ℤ ((cost +ℤ hedge) -ℤ held c) ≤ℤ most_exact
        → Step b (finish b earlier c later cost hedge)
    elsewhere :
        (b : Books) (w : L.World) → balance w ≡ balance b.world → Step b (record b { world = w })

  pub data Steps (a : Books) : Books → Type 0 where
    start : Steps a a
    snoc : (b c : Books) → Steps a b → Step b c → Steps a c
