-- ===== src/RateLimit/Buckets/Levels.antt =====
-- How the levels of internal/ratelimit/limiter.go change with time, draws and adjustments.
use native.Mathlib.Nat.{mul-add, mul-le-mul_left, le-div_iff_mul-le}
use proofgate.Base.{
  ℕ, suc, ◌+◌, ◌-◌, ◌*◌, ◌<◌, ◌≤◌, ◌≡◌, refl, ◌∙◌, ◌⊎◌, true, false, ◌&&◌, Option, none, some, [],
  ◌∷◌, ◌++◌, ltb, arith, subst, if◌then◌else◌,
}
use proofgate.Base.Int.{
  ℤ, pos, negsuc, ◌+ℤ◌, ◌-ℤ◌, ◌≤ℤ◌, ltb_ℤ, +ℤ_parts, -ℤ_parts, eq_of_parts, pos_part, neg_part,
}
use proofgate.Base.Bytes.{Bytes, codes, str_eq}
use proofgate.RateLimit.Buckets.{
  BucketRedis, BucketLaws, Bucket, unit, min_ℤ, level, wait_for, level_of, wait_of, draw, adjusted,
  request_key, token_key, in_units,
}

pub min_le : (a b c : ℤ) → (a ≤ℤ c) ⊎ (b ≤ℤ c) → min_ℤ a b ≤ℤ c
min_le a b c h = ground arith

min_mono : (a b d : ℤ) → pos 0 ≤ℤ d → min_ℤ a (b +ℤ d) ≤ℤ min_ℤ a b +ℤ d
min_mono a b d h = ground (arith, +ℤ_parts a d, +ℤ_parts b d)

pub elapsed : (size t u ts : ℕ) → t ≤ u → size * (u - ts) ≤ size * (t - ts) + size * (u - t)
elapsed size t u ts h =
    subst (λ n. size * (u - ts) ≤ n) (mul-add size (t - ts) (u - t))
      (mul-le-mul_left size (omega arith))

-- A bucket fills by its rate at most.
pub level_later :
    (size t u : ℕ) (stored : Option (ℤ × ℕ))
    → t ≤ u
    → level size u stored ≤ℤ level size t stored +ℤ pos (size * (u - t))
unfolding level
level_later size t u none h = omega (arith, +ℤ_parts (pos (unit * size)) (pos (size * (u - t))))
level_later size t u (some (n, ts)) h =
    let a = size * (t - ts) in
    let b = size * (u - t) in
    ground (
      arith,
      elapsed size t u ts h,
      +ℤ_parts n (pos (size * (u - ts))),
      +ℤ_parts n (pos a),
      +ℤ_parts (n +ℤ pos a) (pos b),
      +ℤ_parts (pos (unit * size)) (pos b),
    )

pub level_le : (size t : ℕ) (stored : Option (ℤ × ℕ)) → level size t stored ≤ℤ pos (unit * size)
unfolding level
level_le size t none = omega arith
level_le size t (some (n, ts)) = ground arith

-- A write at the present time.
pub still : (size t : ℕ) → size * (t - t) ≡ 0
still size t = let e : t - t ≡ 0 = omega arith in rw e (omega arith)

pub level_now : (size t : ℕ) (n : ℤ) → level size t (some (n, t)) ≤ℤ n
unfolding level
level_now size t n = ground (arith, +ℤ_parts n (pos (size * (t - t))), still size t)

-- An extra charge never raises the level, and a refund raises it by its size at most.
pub adjusted_le :
    (size t : ℕ) (delta : ℤ) (stored : Option (ℤ × ℕ))
    → adjusted size t delta stored ≤ℤ level size t stored +ℤ pos (pos_part delta)
unfolding level adjusted
adjusted_le size t delta none =
    ground (
      arith,
      +ℤ_parts (pos (unit * size)) delta,
      +ℤ_parts (pos (unit * size)) (pos (pos_part delta)),
    )
adjusted_le size t delta (some (n, ts)) =
    let raw = n +ℤ pos (size * (t - ts)) in
    let d = pos (pos_part delta) in
    ground (arith, +ℤ_parts raw delta, +ℤ_parts raw d, +ℤ_parts (pos (unit * size)) d)

pub in_units_parts :
    (d : ℤ)
    → (pos_part (in_units d) ≡ unit * pos_part d) × (neg_part (in_units d) ≡ unit * neg_part d)
in_units_parts (pos n) = (refl, omega arith)
in_units_parts (negsuc n) =
    let d : pos 0 -ℤ negsuc n ≡ pos (suc n) =
      eq_of_parts (pos 0 -ℤ negsuc n) (pos (suc n)) (omega (arith, -ℤ_parts (pos 0) (negsuc n))) in
    ground (arith, d, -ℤ_parts (pos 0) (pos (unit * pos_part (pos 0 -ℤ negsuc n))))

str_eq_append : (p s t : Bytes) → str_eq (p ++ s) (p ++ t) ≡ str_eq s t
unfolding str_eq
str_eq_append [] s t = refl
str_eq_append (c ∷ p) s t = ground (arith, str_eq_append p s t)

keys_apart : (tenant_id : Bytes) → str_eq (request_key tenant_id) (token_key tenant_id) ≡ false
unfolding request_key token_key
keys_apart tenant_id =
    str_eq_append (codes "rl:{t:") (tenant_id ++ codes "}:req") (tenant_id ++ codes "}:tok")
    ∙ (str_eq_append tenant_id (codes "}:req") (codes "}:tok") ∙ unfold str_eq in refl)

-- A bucket that lacks tokens asks for a wait.
wait_for_pos :
    (size cost : ℕ) (n : ℤ)
    → 0 < size
    → ltb_ℤ n (pos (unit * cost)) ≡ true
    → 0 < wait_for size cost n
unfolding wait_for
wait_for_pos size cost n h e =
    let lack = pos_part (pos (unit * cost) -ℤ n) in
    let some_lack : 0 < lack = ground (arith, -ℤ_parts (pos (unit * cost)) n) in
    let least : 1 * size ≤ lack + size - 1 = omega arith in (le-div_iff_mul-le h).1 least

module _ (R : BucketRedis) (laws : BucketLaws R) where
  pub draw_stored :
      (b : Bucket) (n : ℤ) (now : ℕ) (s : R.Store) (k : Bytes)
      → R.hmget (draw R b n now s) k ≡ (
          if ltb 0 b.size && str_eq b.key k
          then some (n -ℤ pos (unit * b.cost), now)
          else R.hmget s k)
  unfolding draw
  draw_stored b n now s k =
      let m = n -ℤ pos (unit * b.cost) in
      ground (
        arith,
        laws.hmget-hset s b.key m now k,
        laws.hmget-pexpire (R.hset s b.key m now) b.key 120_000 k,
      )

  pub draw_time :
      (b : Bucket) (n : ℤ) (now : ℕ) (s : R.Store) → R.time (draw R b n now s) ≡ R.time s
  unfolding draw
  draw_time b n now s =
      let m = n -ℤ pos (unit * b.cost) in
      ground (
        arith,
        laws.time-hset s b.key m now,
        laws.time-pexpire (R.hset s b.key m now) b.key 120_000,
      )

  pub wait_of_zero :
      (s : R.Store) (b : Bucket)
      → 0 < b.size
      → wait_of R s b ≡ 0
      → pos (unit * b.cost) ≤ℤ level_of R s b
  unfolding wait_of
  wait_of_zero s b h e = ground (arith, wait_for_pos b.size b.cost (level_of R s b))
