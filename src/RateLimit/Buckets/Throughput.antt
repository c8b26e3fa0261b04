-- ===== src/RateLimit/Buckets/Throughput.antt =====
-- How much the token bucket of internal/ratelimit/limiter.go lets through in a window of time.
use native.Mathlib.Nat.{mul-add, mul-le-mul_left}
use proofgate.Base.{ℕ, ◌+◌, ◌-◌, ◌*◌, ◌<◌, ◌≤◌, ◌≡◌, ap, ◌∙◌, some, arith}
use proofgate.Base.Int.{ℤ, pos, ◌+ℤ◌, ◌-ℤ◌, ◌≤ℤ◌, +ℤ_parts, -ℤ_parts, pos_part}
use proofgate.Base.Bytes.{Bytes, str_eq_refl}
use proofgate.RateLimit.Buckets.{
  BucketRedis, BucketLaws, Bucket, unit, level, level_of, draw, take_script, adjusted,
  adjust_script, request_key, token_key, take, in_units, adjust,
}
use proofgate.RateLimit.Buckets.Levels.{
  draw_stored, draw_time, in_units_parts, wait_of_zero, level_now, level_later, level_le,
  adjusted_le,
}
use proofgate.RateLimit.Buckets.Window.{
  left, granted, Window, opens, takes, adjusts, passes, expires,
}

module _ (R : BucketRedis) (laws : BucketLaws R) (tenant_id : Bytes) (rpm tpm : ℕ)
    (limited : 0 < tpm) where
  take_left :
      (s : R.Store) (tokens : ℕ)
      → let out = take R s tenant_id rpm tpm tokens in
        (R.time out.1 ≡ R.time s)
        × (left R tenant_id rpm tpm out.1 +ℤ pos (unit * granted out.0 tokens)
            ≤ℤ left R tenant_id rpm tpm s)
  unfolding take take_script level_of granted
  take_left s tokens =
      let requests : Bucket = record { key = request_key tenant_id; size = rpm; cost = 1 } in
      let bucket : Bucket = record { key = token_key tenant_id; size = tpm; cost = tokens } in
      let s1 = draw R requests (level_of R s requests) (R.time s) s in
      let n = left R tenant_id rpm tpm s in
      let stored = draw_stored R laws bucket n (R.time s) s1 (token_key tenant_id) in
      let clock = draw_time R laws bucket n (R.time s) s1 in
      let clock1 = draw_time R laws requests (level_of R s requests) (R.time s) s in
      let low = level_now tpm (R.time s) (n -ℤ pos (unit * tokens)) in
      ground (
        arith,
        limited,
        wait_of_zero R laws s bucket limited,
        stored,
        clock,
        clock1,
        low,
        str_eq_refl (token_key tenant_id),
        +ℤ_parts (left R tenant_id rpm tpm s) (pos 0),
        -ℤ_parts n (pos (unit * tokens)),
        +ℤ_parts (left R tenant_id rpm tpm (draw R bucket n (R.time s) s1)) (pos (unit * tokens)),
      )

  adjust_left :
      (s : R.Store) (delta : ℤ)
      → let s' = (adjust R s tenant_id tpm delta).1 in
        (R.time s' ≡ R.time s)
        × (left R tenant_id rpm tpm s' ≤ℤ left R tenant_id rpm tpm s +ℤ pos (unit * pos_part delta))
  unfolding adjust adjust_script
  adjust_left s delta =
      let k = token_key tenant_id in
      let now = R.time s in
      let m = adjusted tpm now (in_units delta) (R.hmget s k) in
      let s1 = R.hset s k m now in
      let n = left R tenant_id rpm tpm s in
      ground (
        arith,
        limited,
        laws.hmget-hset s k m now k,
        laws.hmget-pexpire s1 k 120_000 k,
        laws.time-hset s k m now,
        laws.time-pexpire s1 k 120_000,
        level_now tpm now m,
        adjusted_le tpm now (in_units delta) (R.hmget s k),
        in_units_parts delta,
        str_eq_refl k,
        +ℤ_parts n (pos (unit * pos_part delta)),
        +ℤ_parts n (pos (pos_part (in_units delta))),
      )

  -- The bucket's books: time goes on, and what was taken and is left is what there was, what came
  -- back and what time filled in.
  abbrev Balanced : R.Store → ℕ → ℕ → R.Store → Type 0
  Balanced from taken refunded s =
      (R.time from ≤ R.time s)
      × (left R tenant_id rpm tpm s +ℤ pos (unit * taken)
          ≤ℤ pos (unit * (tpm + refunded) + tpm * (R.time s - R.time from)))

  fills : (a t u : ℕ) → a ≤ t → t ≤ u → tpm * (u - a) ≡ tpm * (t - a) + tpm * (u - t)
  fills a t u h k =
      let e : u - a ≡ (t - a) + (u - t) = omega arith in
      ap (λ n. tpm * n) e ∙ mul-add tpm (t - a) (u - t)

  stepped :
      (from s s' : R.Store) (taken refunded n d taken' refunded' : ℕ)
      → (taken' ≡ taken + n) × (refunded' ≡ refunded + d)
      → R.time s ≤ R.time s'
      → left R tenant_id rpm tpm s' +ℤ pos (unit * n)
        ≤ℤ left R tenant_id rpm tpm s +ℤ pos (unit * d + tpm * (R.time s' - R.time s))
      → Balanced from taken refunded s
      → Balanced from taken' refunded' s'
  stepped from s s' taken refunded n d taken' refunded' (e, f) h g (k, b) =
      let a = left R tenant_id rpm tpm s in
      let a' = left R tenant_id rpm tpm s' in
      (
        omega arith,
        ground (
          arith,
          fills (R.time from) (R.time s) (R.time s') k h,
          +ℤ_parts a' (pos (unit * n)),
          +ℤ_parts a' (pos (unit * taken')),
          +ℤ_parts a (pos (unit * taken)),
          +ℤ_parts a (pos (unit * d + tpm * (R.time s' - R.time s))),
        ),
      )

  expired :
      (t : ℕ) (n : ℤ) (ts f : ℕ)
      → pos 0 -ℤ pos (unit * (tpm + f)) ≤ℤ n
      → ts + 120_000 ≤ t
      → pos (unit * tpm) ≤ℤ level tpm t (some (n, ts)) +ℤ pos (unit * f)
  unfolding level
  expired t n ts f d l =
      let most : tpm * 120_000 ≤ tpm * (t - ts) = mul-le-mul_left tpm (omega arith) in
      ground (
        arith,
        most,
        -ℤ_parts (pos 0) (pos (unit * (tpm + f))),
        +ℤ_parts n (pos (tpm * (t - ts))),
        +ℤ_parts (level tpm t (some (n, ts))) (pos (unit * f)),
      )

  Window-Balanced :
      (from : R.Store) {s : R.Store} {taken refunded : ℕ}
      → Window R tenant_id rpm tpm from taken refunded s
      → Balanced from taken refunded s
  Window-Balanced from opens =
      let full = level_le tpm (R.time from) (R.hmget from (token_key tenant_id)) in
      (omega arith, ground (arith, full, +ℤ_parts (left R tenant_id rpm tpm from) (pos 0)))
  Window-Balanced from (takes {taken} {refunded} {s} tokens w) =
      let (out, s') = take R s tenant_id rpm tpm tokens in
      let n = granted out tokens in
      let (clock, drawn) = take_left s tokens in
      let a = left R tenant_id rpm tpm s in
      stepped from s s' taken refunded n 0 (taken + n) refunded (omega arith) (omega arith)
        (ground (arith, drawn, clock, +ℤ_parts a (pos (unit * 0 + tpm * (R.time s' - R.time s)))))
        (Window-Balanced from w)
  Window-Balanced from (adjusts {taken} {refunded} {s} delta w) =
      let s' = (adjust R s tenant_id tpm delta).1 in
      let d = pos_part delta in
      let (clock, drawn) = adjust_left s delta in
      let a = left R tenant_id rpm tpm s in
      let a' = left R tenant_id rpm tpm s' in
      stepped from s s' taken refunded 0 d taken (refunded + d) (omega arith) (omega arith)
        (ground (
          arith,
          drawn,
          clock,
          +ℤ_parts a (pos (unit * d)),
          +ℤ_parts a' (pos (unit * 0)),
          +ℤ_parts a (pos (unit * d + tpm * (R.time s' - R.time s))),
        ))
        (Window-Balanced from w)
  Window-Balanced from (passes {taken} {refunded} {s} {s'} h e w) =
      let a' = left R tenant_id rpm tpm s' in
      let a = left R tenant_id rpm tpm s in
      let filled = level_later tpm (R.time s) (R.time s') (R.hmget s (token_key tenant_id)) h in
      stepped from s s' taken refunded 0 0 taken refunded (omega arith) h
        (ground (
          arith,
          e,
          filled,
          +ℤ_parts a (pos (tpm * (R.time s' - R.time s))),
          +ℤ_parts a' (pos (unit * 0)),
          +ℤ_parts a (pos (unit * 0 + tpm * (R.time s' - R.time s))),
        ))
        (Window-Balanced from w)
  Window-Balanced from (expires {taken} {refunded} {s} {s'} n ts f h e d l g w) =
      let a' = left R tenant_id rpm tpm s' in
      let a = left R tenant_id rpm tpm s in
      let full = expired (R.time s) n ts f d l in
      let most = level_le tpm (R.time s') (R.hmget s' (token_key tenant_id)) in
      stepped from s s' taken refunded 0 f taken (refunded + f) (omega arith) (omega arith)
        (ground (
          arith,
          h,
          e,
          full,
          +ℤ_parts a (pos (unit * f)),
          most,
          +ℤ_parts a' (pos (unit * 0)),
          +ℤ_parts a (pos (unit * f + tpm * (R.time s' - R.time s))),
        ))
        (Window-Balanced from w)

  -- In exact arithmetic, without the rounding of Lua's doubles: whatever a bucket's clients do in a
  -- window that starts at `from`, under a limit on tokens, what was taken in it and is left at its end
  -- is no more than one full bucket, what was given back and what the rate fills in over the time of
  -- the window. Given back is by corrections of estimates, and by the end of a key, after 120 seconds
  -- without a write, what it owes above one bucket.
  pub taken_within_rate :
      (from s : R.Store) (taken refunded : ℕ)
      → Window R tenant_id rpm tpm from taken refunded s
      → left R tenant_id rpm tpm s +ℤ pos (unit * taken)
        ≤ℤ pos (unit * (tpm + refunded) + tpm * (R.time s - R.time from))
  taken_within_rate from s taken refunded w = (Window-Balanced from w).1
