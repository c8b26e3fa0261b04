-- ===== src/AgentRun/Limits.antt =====
-- What the script of internal/agentrun/runs.go promises: a step is counted exactly when it is
-- allowed, and no run takes more steps than its policy gives.
use proofgate.Base.{
  ℕ, ◌+◌, ◌<◌, ◌≤◌, ◌≡◌, ◌≢◌, ◌⊎◌, inl, inr, refl, ap, ◌∙◌, false, some, none, Option, List, [],
  ◌∷◌, arith, if◌then◌else◌,
}
use proofgate.Base.Int.{ℤ, pos, ◌+ℤ◌, ◌-ℤ◌, ◌≤ℤ◌, +ℤ_parts}
use proofgate.Base.Bytes.{Bytes, codes, str_eq, str_eq_refl, str_eq_iff}
use proofgate.Redis.{or_zero}
use proofgate.AgentRun.{
  RunRedis, RunRedisLaws, RunPolicy, StepResult, allowed, run_key, fingerprint_key, occurrences,
  is_reached, counter, admit, refuse, step_script, step_run, move, charge,
}

apart :
    (f : Bytes)
    → (str_eq (codes "steps") (codes "cost") ≡ false)
      × (str_eq (codes "steps") (codes "tokens") ≡ false)
      × (str_eq (codes "cost") (codes "tokens") ≡ false)
unfolding str_eq
apart f = (refl, refl, refl)

module _ (R : RunRedis) (laws : RunRedisLaws R) where
  abbrev counters : R.Store → Bytes → ℤ × ℤ × ℤ
  counters s rk = (
    counter R s rk (codes "steps"),
    counter R s rk (codes "cost"),
    counter R s rk (codes "tokens"),
  )

  counter-pexpire :
      (s : R.Store) (k : Bytes) (ttl : ℕ) (k' f : Bytes)
      → 0 < ttl
      → counter R (R.pexpire s k ttl) k' f ≡ counter R s k' f
  unfolding counter
  counter-pexpire s k ttl k' f h = ap or_zero (laws.hget-pexpire s k ttl k' f h)

  counter-hincr_by :
      (s : R.Store) (k f : Bytes) (n : ℤ) (f' : Bytes)
      → counter R (R.hincr_by s k f n) k f'
        ≡ (if str_eq f f' then counter R s k f +ℤ n else counter R s k f')
  unfolding counter
  counter-hincr_by s k f n f' = ground (arith, laws.hget-hincr_by s k f n k f', str_eq_refl k)

  counter-push :
      (s : R.Store) (fk fp : Bytes) (window ttl : ℕ) (k f : Bytes)
      → 0 < ttl
      → counter R (R.pexpire (R.ltrim (R.lpush s fk fp) fk window) fk ttl) k f ≡ counter R s k f
  unfolding counter
  counter-push s fk fp window ttl k f h = ap or_zero (
      laws.hget-pexpire (R.ltrim (R.lpush s fk fp) fk window) fk ttl k f h
      ∙ (laws.hget-ltrim (R.lpush s fk fp) fk window k f ∙ laws.hget-lpush s fk fp k f))

  -- What an admitted step leaves of a counter.
  counter-admit :
      (p : RunPolicy) (rk : Bytes) (est_cost est_tokens : ℤ) (repeats : ℕ) (before s : R.Store)
      (f : Bytes)
      → 0 < p.ttl
      → counter R s rk f ≡ counter R before rk f
      → counter R (admit R p rk est_cost est_tokens repeats before s).1 rk f ≡ (
          if str_eq (codes "steps") f
          then counter R before rk f +ℤ pos 1
          else if str_eq (codes "cost") f
          then counter R before rk f +ℤ est_cost
          else if str_eq (codes "tokens") f
          then counter R before rk f +ℤ est_tokens
          else counter R before rk f)
  unfolding admit
  counter-admit p rk est_cost est_tokens repeats before s f h same =
      let steps = codes "steps" in
      let cost = codes "cost" in
      let tokens = codes "tokens" in
      let s1 = R.hincr_by s rk steps (pos 1) in
      let s2 = R.hincr_by s1 rk cost est_cost in
      let s3 = R.hincr_by s2 rk tokens est_tokens in
      ground (
        arith,
        same,
        counter-pexpire s3 rk p.ttl rk f h,
        counter-hincr_by s2 rk tokens est_tokens f,
        counter-hincr_by s1 rk cost est_cost f,
        counter-hincr_by s rk steps (pos 1) f,
        counter-hincr_by s1 rk cost est_cost tokens,
        counter-hincr_by s rk steps (pos 1) tokens,
        counter-hincr_by s rk steps (pos 1) cost,
        apart f,
        str_eq_iff steps f,
        str_eq_iff cost f,
        str_eq_iff tokens f,
      )

  admit_status :
      (p : RunPolicy) (rk : Bytes) (est_cost est_tokens : ℤ) (repeats : ℕ) (before s : R.Store)
      → (admit R p rk est_cost est_tokens repeats before s).0.status ≡ allowed
  unfolding admit
  admit_status p rk est_cost est_tokens repeats before s = refl

  -- The two outcomes of a step.
  abbrev pub IsCounted : RunPolicy → Bytes → ℤ → ℤ → R.Store → StepResult × R.Store → Type 0
  IsCounted p rk est_cost est_tokens s out =
      ((out.0.status ≡ allowed)
        × (is_reached p.max_steps (counter R s rk (codes "steps")) ≡ false)
        × (is_reached p.max_cost_micros (counter R s rk (codes "cost")) ≡ false)
        × (is_reached p.max_tokens (counter R s rk (codes "tokens")) ≡ false)
        × (counter R out.1 rk (codes "steps") ≡ counter R s rk (codes "steps") +ℤ pos 1)
        × (counter R out.1 rk (codes "cost") ≡ counter R s rk (codes "cost") +ℤ est_cost)
        × (counter R out.1 rk (codes "tokens") ≡ counter R s rk (codes "tokens") +ℤ est_tokens))
      ⊎ ((out.0.status ≢ allowed) × (out.1 ≡ s))

  -- A step is allowed only while no limit is reached, and then it raises the three counters by one
  -- and by its estimates; a refused step changes nothing at all. (The policy's time to live is
  -- positive.)
  pub step_script-IsCounted :
      (p : RunPolicy) (rk fk fp : Bytes) (est_cost est_tokens : ℤ) (s : R.Store)
      → 0 < p.ttl
      → IsCounted p rk est_cost est_tokens s (step_script R p rk fk fp est_cost est_tokens s)
  unfolding step_script refuse str_eq
  step_script-IsCounted p rk fk fp est_cost est_tokens s h =
      let steps = codes "steps" in
      let cost = codes "cost" in
      let tokens = codes "tokens" in
      let repeats = 1 + occurrences fp (R.lrange s fk p.loop_window) in
      let pushed = R.pexpire (R.ltrim (R.lpush s fk fp) fk p.loop_window) fk p.ttl in
      let kept : (f : Bytes)
          → counter R (R.pexpire (R.ltrim (R.lpush s fk fp) fk p.loop_window) fk p.ttl) rk f
            ≡ counter R s rk f =
        λ f. counter-push s fk fp p.loop_window p.ttl rk f h in
      let pushed_out = admit R p rk est_cost est_tokens repeats s pushed in
      let plain_out = admit R p rk est_cost est_tokens 1 s s in
      ground (
        arith,
        counter-admit p rk est_cost est_tokens repeats s pushed steps h (kept steps),
        counter-admit p rk est_cost est_tokens repeats s pushed cost h (kept cost),
        counter-admit p rk est_cost est_tokens repeats s pushed tokens h (kept tokens),
        counter-admit p rk est_cost est_tokens 1 s s steps h refl,
        counter-admit p rk est_cost est_tokens 1 s s cost h refl,
        counter-admit p rk est_cost est_tokens 1 s s tokens h refl,
        admit_status p rk est_cost est_tokens repeats s pushed,
        admit_status p rk est_cost est_tokens 1 s s,
      )

  charge_steps :
      (s : R.Store) (tenant_id run_id : Bytes) (p : RunPolicy) (am at rm rt : ℤ)
      → 0 < p.ttl
      → counter R
          (charge R s tenant_id run_id p am at rm rt).1
          (run_key tenant_id run_id)
          (codes "steps")
        ≡ counter R s (run_key tenant_id run_id) (codes "steps")
  unfolding charge move
  charge_steps s tenant_id run_id p am at rm rt h =
      let rk = run_key tenant_id run_id in
      let steps = codes "steps" in
      let cost = codes "cost" in
      let tokens = codes "tokens" in
      let costs = am -ℤ rm in
      let s1 = R.hincr_by s rk cost costs in
      let moved = at -ℤ rt in
      ground (
        arith,
        apart [],
        str_eq_iff cost steps,
        str_eq_iff tokens steps,
        str_eq_iff steps cost,
        str_eq_iff steps tokens,
        counter-hincr_by s rk cost costs steps,
        counter-hincr_by s rk tokens moved steps,
        counter-hincr_by s1 rk tokens moved steps,
        counter-pexpire s rk p.ttl rk steps h,
        counter-pexpire s1 rk p.ttl rk steps h,
        counter-pexpire (R.hincr_by s rk tokens moved) rk p.ttl rk steps h,
        counter-pexpire (R.hincr_by s1 rk tokens moved) rk p.ttl rk steps h,
      )

  -- What happens to a run: a step with its fingerprint and estimates, or a charge.
  pub data RunEvent : Type 0 where
    stepped : Bytes → ℤ → ℤ → RunEvent
    charged : ℤ → ℤ → ℤ → ℤ → RunEvent

  pub counts : Option StepResult → ℕ
  counts none = 0
  counts (some r) = elim r.status [ allowed ↦ 1 | _ ↦ 0 ]

  -- The number of steps that were allowed, and the store behind the events.
  pub run_events : Bytes → Bytes → RunPolicy → List RunEvent → R.Store → ℕ × R.Store
  unfolding counts
  run_events tenant_id run_id p [] s = (0, s)
  run_events tenant_id run_id p (stepped fp est_cost est_tokens ∷ es) s =
      let (result, s') = step_run R s tenant_id run_id p fp est_cost est_tokens in
      let (n, s'') = run_events tenant_id run_id p es s' in (counts result + n, s'')
  run_events tenant_id run_id p (charged am at rm rt ∷ es) s =
      run_events tenant_id run_id p es (charge R s tenant_id run_id p am at rm rt).1

  step_run_steps :
      (s : R.Store) (tenant_id run_id : Bytes) (p : RunPolicy) (fp : Bytes)
      (est_cost est_tokens : ℤ)
      → 0 < p.ttl
      → 0 < p.max_steps
      → let out = step_run R s tenant_id run_id p fp est_cost est_tokens in
        let steps = counter R s (run_key tenant_id run_id) (codes "steps") in
        let steps' = counter R out.1 (run_key tenant_id run_id) (codes "steps") in
        ((counts out.0 ≡ 1) × (steps' ≡ steps +ℤ pos 1) × (steps' ≤ℤ pos p.max_steps))
        ⊎ ((counts out.0 ≡ 0) × (steps' ≡ steps))
  unfolding step_run counts
  step_run_steps s tenant_id run_id p fp est_cost est_tokens h k =
      let rk = run_key tenant_id run_id in
      let fk = fingerprint_key tenant_id run_id in
      let steps = codes "steps" in
      ground (
        arith,
        step_script-IsCounted p rk fk fp est_cost est_tokens s h,
        +ℤ_parts (counter R s rk steps) (pos 1),
      )

  events_within :
      (tenant_id run_id : Bytes) (p : RunPolicy) (es : List RunEvent) (s : R.Store) (n : ℕ)
      → 0 < p.ttl
      → 0 < p.max_steps
      → counter R s (run_key tenant_id run_id) (codes "steps") ≡ pos n
      → n ≤ p.max_steps
      → n + (run_events tenant_id run_id p es s).0 ≤ p.max_steps
  unfolding run_events
  events_within tenant_id run_id p [] s n h k e l = omega (arith, l)
  events_within tenant_id run_id p (charged am at rm rt ∷ es) s n h k e l =
      events_within tenant_id run_id p es (charge R s tenant_id run_id p am at rm rt).1 n h k
        (charge_steps s tenant_id run_id p am at rm rt h ∙ e) l
  events_within tenant_id run_id p (stepped fp est_cost est_tokens ∷ es) s n h k e l =
      let (result, s') = step_run R s tenant_id run_id p fp est_cost est_tokens in
      elim (step_run_steps s tenant_id run_id p fp est_cost est_tokens h k) [
        | inl (one, up, within) ↦
            let next : counter R s' (run_key tenant_id run_id) (codes "steps") ≡ pos (n + 1) =
              up ∙ (ap (λ m. m +ℤ pos 1) e ∙ unfold ◌+ℤ◌ in ground arith) in
            let room : n + 1 ≤ p.max_steps = ground (arith, next, within) in
            let rest = events_within tenant_id run_id p es s' (n + 1) h k next room in
            omega (arith, one, rest)
        | inr (zero, same) ↦
            let rest = events_within tenant_id run_id p es s' n h k (same ∙ e) l in
            omega (arith, zero, rest)
      ]

  -- From a run without steps, and through any steps and charges, while the run is not expired, no
  -- more steps are allowed than the policy's limit. (The limit and the time to live are positive.)
  pub run_within_steps :
      (tenant_id run_id : Bytes) (p : RunPolicy) (es : List RunEvent) (s : R.Store)
      → 0 < p.ttl
      → 0 < p.max_steps
      → counter R s (run_key tenant_id run_id) (codes "steps") ≡ pos 0
      → (run_events tenant_id run_id p es s).0 ≤ p.max_steps
  run_within_steps tenant_id run_id p es s h k e =
      let bound = events_within tenant_id run_id p es s 0 h k e (omega arith) in
      omega (arith, bound)
