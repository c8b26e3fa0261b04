-- ===== src/RateLimit/Buckets.antt =====
-- internal/ratelimit/limiter.go: the two scripts and the calls of them. A bucket's level is counted
-- in 60000ths of a token, in which all numbers of the scripts are whole: this is the scripts in exact
-- arithmetic, which the rounding of Lua's doubles can miss by a fraction of a token, and a wait by a
-- millisecond. The Redis commands are an interface with their documented laws.
pub mod Levels
pub mod Window
pub mod Throughput
use proofgate.Base.{
  ℕ, ◌+◌, ◌-◌, ◌*◌, ◌/◌, ◌==◌, ◌<◌, ◌≤◌, ◌≡◌, Bool, true, false, ◌&&◌, ◌||◌, Option, none, some,
  ◌++◌, ltb, leb, max, if◌then◌else◌,
}
use proofgate.Base.Int.{ℤ, pos, ◌+ℤ◌, ◌-ℤ◌, leb_ℤ, ltb_ℤ, pos_part}
use proofgate.Base.Bytes.{Bytes, codes, str_eq}

-- `HMGET key t ts` reads both fields or neither, as `HSET` writes them.
pub record BucketRedis : Type 1 where
  pub Store : Type 0
  pub reachable : Store → Bool
  pub time : Store → ℕ
  pub hmget : Store → Bytes → Option (ℤ × ℕ)
  pub hset : Store → Bytes → ℤ → ℕ → Store
  pub pexpire : Store → Bytes → ℕ → Store

-- Within a script the time stands still.
pub record BucketLaws (R : BucketRedis) : Type 0 where
  pub hmget-hset :
      (s : R.Store) (k : Bytes) (t : ℤ) (ts : ℕ) (k' : Bytes)
      → R.hmget (R.hset s k t ts) k' ≡ (if str_eq k k' then some (t, ts) else R.hmget s k')
  pub hmget-pexpire :
      (s : R.Store) (k : Bytes) (ttl : ℕ) (k' : Bytes)
      → 0 < ttl
      → R.hmget (R.pexpire s k ttl) k' ≡ R.hmget s k'
  pub time-hset : (s : R.Store) (k : Bytes) (t : ℤ) (ts : ℕ) → R.time (R.hset s k t ts) ≡ R.time s
  pub time-pexpire : (s : R.Store) (k : Bytes) (ttl : ℕ) → R.time (R.pexpire s k ttl) ≡ R.time s

-- a token, and the milliseconds in which a bucket fills
abbrev pub unit : ℕ
unit = 60_000

abbrev pub min_ℤ : ℤ → ℤ → ℤ
min_ℤ a b = if leb_ℤ a b then a else b

pub record Bucket : Type 0 where
  pub key : Bytes
  pub size : ℕ
  pub cost : ℕ

-- What is in a bucket at a time: full where nothing is stored.
unfoldable pub level : ℕ → ℕ → Option (ℤ × ℕ) → ℤ
level size now none = pos (unit * size)
level size now (some (t, ts)) = min_ℤ (pos (unit * size)) (t +ℤ pos (size * (now - ts)))

-- `math.ceil((cost - tokens) / rate)`
unfoldable pub wait_for : ℕ → ℕ → ℤ → ℕ
wait_for size cost tokens = (pos_part (pos (unit * cost) -ℤ tokens) + size - 1) / size

pub data Decision : Type 0 where
  allowed too_large : Decision
  denied : ℕ → Decision

-- The bucket is not capped before the delta is added.
unfoldable pub adjusted : ℕ → ℕ → ℤ → Option (ℤ × ℕ) → ℤ
adjusted size now delta none = min_ℤ (pos (unit * size)) (pos (unit * size) +ℤ delta)
adjusted size now delta (some (t, ts)) =
    min_ℤ (pos (unit * size)) ((t +ℤ pos (size * (now - ts))) +ℤ delta)

-- `keys`
unfoldable pub request_key : Bytes → Bytes
request_key tenant_id = codes "rl:{t:" ++ (tenant_id ++ codes "}:req")

unfoldable pub token_key : Bytes → Bytes
token_key tenant_id = codes "rl:{t:" ++ (tenant_id ++ codes "}:tok")

-- A product with 60000, of tokens that may be negative.
abbrev pub in_units : ℤ → ℤ
in_units (pos n) = pos (unit * n)
in_units n = pos 0 -ℤ pos (unit * pos_part (pos 0 -ℤ n))

module _ (R : BucketRedis) where
  open R use {Store, reachable, time, hmget, hset, pexpire}

  unfoldable pub level_of : Store → Bucket → ℤ
  unfolding level
  level_of s b = level b.size (time s) (hmget s b.key)

  -- a cost above the capacity, in a bucket that has one
  abbrev pub exceeds : Bucket → Bool
  exceeds b = ltb 0 b.size && ltb b.size b.cost

  -- the milliseconds that a bucket asks for
  unfoldable pub wait_of : Store → Bucket → ℕ
  unfolding level_of wait_for
  wait_of s b =
      if ltb 0 b.size && ltb_ℤ (level_of s b) (pos (unit * b.cost))
      then wait_for b.size b.cost (level_of s b)
      else 0

  -- the write of the last loop, from a level that was read before the writes
  unfoldable pub draw : Bucket → ℤ → ℕ → Store → Store
  draw b tokens now s =
      if ltb 0 b.size
      then pexpire (hset s b.key (tokens -ℤ pos (unit * b.cost)) now) b.key 120_000
      else s

  unfoldable pub take_script : Bucket → Bucket → Store → Decision × Store
  unfolding wait_of draw
  take_script requests tokens s =
      let wait = max (wait_of s requests) (wait_of s tokens) in
      if exceeds requests || exceeds tokens
      then (too_large, s)
      else if ltb 0 wait
      then (denied wait, s)
      else (
        allowed,
        draw tokens (level_of s tokens) (time s) (draw requests (level_of s requests) (time s) s),
      )

  -- `delta` is in 60000ths too.
  unfoldable pub adjust_script : Bytes → ℕ → ℤ → Store → Store
  unfolding adjusted
  adjust_script key size delta s =
      let now = time s in
      if size == 0
      then s
      else pexpire (hset s key (adjusted size now delta (hmget s key)) now) key 120_000

  unfoldable pub take : Store → Bytes → ℕ → ℕ → ℕ → Option Decision × Store
  unfolding take_script
  take s tenant_id rpm tpm tokens =
      let (d, s') =
        take_script (record { key = request_key tenant_id; size = rpm; cost = 1 })
          (record { key = token_key tenant_id; size = tpm; cost = tokens }) s in
      if reachable s then (some d, s') else (none, s)

  -- `true` unless Redis is not reached
  unfoldable pub adjust : Store → Bytes → ℕ → ℤ → Bool × Store
  unfolding adjust_script
  adjust s tenant_id tpm delta =
      let s' = adjust_script (token_key tenant_id) tpm (in_units delta) s in
      if (leb_ℤ delta (pos 0) && leb_ℤ (pos 0) delta) || tpm == 0
      then (true, s)
      else if reachable s
      then (true, s')
      else (false, s)
