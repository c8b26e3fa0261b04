-- ===== src/RateLimit/Stage/Settles.antt =====
-- What `After` of internal/ratelimit/stage.go makes of the charge of `Before`.
use proofgate.Base.{ℕ, ◌-◌, ◌*◌, ◌<◌, ◌≡◌, true, none, some, arith}
use proofgate.Base.Int.{ℤ, pos, ◌+ℤ◌, ◌-ℤ◌, +ℤ_parts, -ℤ_parts, eq_of_parts}
use proofgate.Base.Bytes.{str_eq_refl}
use proofgate.RateLimit.Buckets.{
  BucketRedis, BucketLaws, Bucket, allowed, unit, min_ℤ, level, level_of, draw, take_script,
  adjusted, adjust_script, request_key, token_key, take, in_units, adjust,
}
use proofgate.RateLimit.Buckets.Levels.{draw_stored, in_units_parts, still}
use proofgate.RateLimit.Stage.{
  RateCall, before, after, redis_backend, actual_tokens, estimate, answered,
}

in_units_sub : (n : ℕ) (a : ℤ) → in_units (pos n -ℤ a) ≡ pos (unit * n) -ℤ in_units a
in_units_sub n a = eq_of_parts (in_units (pos n -ℤ a)) (pos (unit * n) -ℤ in_units a) (
    omega (
      arith,
      in_units_parts (pos n -ℤ a),
      in_units_parts a,
      -ℤ_parts (pos n) a,
      -ℤ_parts (pos (unit * n)) (in_units a),
    ))

-- A charge that is corrected later leaves what the right charge would have left.
corrected :
    (size n t u : ℕ) (a m : ℤ)
    → level size u
        (some (adjusted size u (in_units (pos n -ℤ a)) (some (m -ℤ pos (unit * n), t)), u))
      ≡ level size u (some (m -ℤ in_units a, t))
unfolding level adjusted
corrected size n t u a m =
    let d = in_units (pos n -ℤ a) in
    let g = pos (size * (u - t)) in
    let raw = (m -ℤ pos (unit * n)) +ℤ g in
    let sum : raw +ℤ d ≡ (m -ℤ in_units a) +ℤ g = eq_of_parts (raw +ℤ d) ((m -ℤ in_units a) +ℤ g) (
      omega (
        arith,
        in_units_parts (pos n -ℤ a),
        in_units_parts a,
        -ℤ_parts (pos n) a,
        +ℤ_parts raw d,
        +ℤ_parts (m -ℤ pos (unit * n)) g,
        -ℤ_parts m (pos (unit * n)),
        -ℤ_parts m (in_units a),
        +ℤ_parts (m -ℤ in_units a) g,
      )) in
    let b = min_ℤ (pos (unit * size)) ((m -ℤ in_units a) +ℤ g) in
    let now : b +ℤ pos (size * (u - u)) ≡ b =
      eq_of_parts (b +ℤ pos (size * (u - u))) b
        (omega (arith, still size u, +ℤ_parts b (pos (size * (u - u))))) in
    rw (sum, now) ground arith

module _ (R : BucketRedis) where
  -- What a tenant has left of its tokens, in 60000ths.
  abbrev pub tokens_left : R.Store → RateCall → ℤ
  tokens_left s c = level c.tpm (R.time s) (R.hmget s (token_key c.tenant_id))

module _ (R : BucketRedis) (laws : BucketLaws R) where
  take_stored :
      (s : R.Store) (c : RateCall) (n : ℕ)
      → 0 < c.tpm
      → (take R s c.tenant_id c.rpm c.tpm n).0 ≡ some allowed
      → R.hmget (take R s c.tenant_id c.rpm c.tpm n).1 (token_key c.tenant_id)
        ≡ some (tokens_left R s c -ℤ pos (unit * n), R.time s)
  unfolding take take_script level_of
  take_stored s c n limited e =
      let requests : Bucket = record { key = request_key c.tenant_id; size = c.rpm; cost = 1 } in
      let bucket : Bucket = record { key = token_key c.tenant_id; size = c.tpm; cost = n } in
      let s1 = draw R requests (level_of R s requests) (R.time s) s in
      let stored =
        draw_stored R laws bucket (tokens_left R s c) (R.time s) s1 (token_key c.tenant_id) in
      ground (arith, e, limited, stored, str_eq_refl (token_key c.tenant_id))

  adjust_settles :
      (s s' : R.Store) (c : RateCall) (n : ℕ) (a : ℤ)
      → 0 < c.tpm
      → R.reachable s' ≡ true
      → R.hmget s' (token_key c.tenant_id) ≡ some (tokens_left R s c -ℤ pos (unit * n), R.time s)
      → tokens_left R (adjust R s' c.tenant_id c.tpm (pos n -ℤ a)).1 c
        ≡ level c.tpm (R.time s') (some (tokens_left R s c -ℤ in_units a, R.time s))
  unfolding adjust adjust_script
  adjust_settles s s' c n a limited r e =
      let k = token_key c.tenant_id in
      let now = R.time s' in
      let d = pos n -ℤ a in
      let left = tokens_left R s c in
      let m = adjusted c.tpm now (in_units d) (R.hmget s' k) in
      let s1 = R.hset s' k m now in
      ground (
        arith,
        limited,
        r,
        e,
        laws.hmget-hset s' k m now k,
        laws.hmget-pexpire s1 k 120_000 k,
        laws.time-hset s' k m now,
        laws.time-pexpire s1 k 120_000,
        str_eq_refl k,
        corrected c.tpm n (R.time s) now a left,
        in_units_parts a,
        -ℤ_parts (pos n) a,
        -ℤ_parts left (pos (unit * n)),
        -ℤ_parts left (in_units a),
        eq_of_parts (left -ℤ pos (unit * n)) (left -ℤ in_units a),
      )

  -- In exact arithmetic, without the rounding of Lua's doubles: a call that was let through and is
  -- settled while its bucket's entry is the one that it wrote, with no other write between and not
  -- expired, which it does 120 seconds after that write, leaves its tenant's bucket as if its actual
  -- tokens had been charged at the start, whether the estimate was too high or too low; in a tenant
  -- with a limit on tokens, with Redis reached at the end.
  pub settles :
      (reserve default_max : ℕ) (c c' : RateCall) (s s' : R.Store)
      → 0 < c.tpm
      → c.charged ≡ none
      → (before (redis_backend R) reserve default_max c s).0.charged
        ≡ some (estimate c reserve default_max)
      → R.hmget s' (token_key c.tenant_id)
        ≡ R.hmget (before (redis_backend R) reserve default_max c s).2 (token_key c.tenant_id)
      → R.reachable s' ≡ true
      → (c'.charged ≡ some (estimate c reserve default_max))
        × (c'.tenant_id ≡ c.tenant_id)
        × (c'.tpm ≡ c.tpm)
      → tokens_left R (after (redis_backend R) c' s') c
        ≡ level c.tpm
            (R.time s')
            (some (tokens_left R s c -ℤ in_units (actual_tokens c'), R.time s))
  unfolding before answered after
  settles reserve default_max c c' s s' limited fresh e h r (f, g, k) =
      let n = estimate c reserve default_max in
      ground (
        arith,
        fresh,
        e,
        h,
        f,
        g,
        k,
        take_stored s c n limited,
        adjust_settles s s' c n (actual_tokens c') limited r,
      )
