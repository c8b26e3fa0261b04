-- ===== src/Redis.antt =====
-- The Redis commands that the modelled scripts call, on keys that hold counters, and what Redis
-- documents of them. A store is all that a run of a script can see; time does not pass within one. On
-- a store that is not `reachable` a command does nothing and its caller gets an error; on one that
-- does not `replies` it is done and its caller gets an error all the same. `tostring` is the amount
-- that Lua's text of a number is read back as; the text has 14 digits at most.
use proofgate.Base.{ℕ, ◌<◌, ◌≡◌, Bool, true, Option, none, some, if◌then◌else◌}
use proofgate.Base.Int.{ℤ, pos, ◌+ℤ◌, ◌≤ℤ◌}
use proofgate.Base.Bytes.{Bytes, str_eq}

pub record Redis : Type 1 where
  pub Store : Type 0
  pub reachable : Store → Bool
  pub replies : Store → Bool
  pub tostring : ℤ → ℤ
  pub get : Store → Bytes → Option ℤ
  pub set : Store → Bytes → ℤ → Store
  pub incr_by : Store → Bytes → ℤ → Store
  pub expire : Store → Bytes → ℕ → Store

-- `tonumber(redis.call('GET', key) or '0')`
abbrev pub or_zero : Option ℤ → ℤ
or_zero none = pos 0
or_zero (some n) = n

abbrev pub most_exact : ℤ
most_exact = pos 99_999_999_999_999

pub record RedisLaws (R : Redis) : Type 0 where
  pub tostring_exact : (n : ℤ) → pos 0 ≤ℤ n → n ≤ℤ most_exact → R.tostring n ≡ n
  pub get-set :
      (s : R.Store) (k : Bytes) (n : ℤ) (k' : Bytes)
      → R.get (R.set s k n) k' ≡ (if str_eq k k' then some n else R.get s k')
  pub get-incr_by :
      (s : R.Store) (k : Bytes) (n : ℤ) (k' : Bytes)
      → R.get (R.incr_by s k n) k'
        ≡ (if str_eq k k' then some (or_zero (R.get s k) +ℤ n) else R.get s k')
  pub get-expire :
      (s : R.Store) (k : Bytes) (ttl : ℕ) (k' : Bytes)
      → 0 < ttl
      → R.get (R.expire s k ttl) k' ≡ R.get s k'

-- Keys without expiry, for runs at concrete inputs.
pub record Cells : Type 0 where
  pub up : Bool
  pub cell : Bytes → Option ℤ

pub write : Cells → Bytes → ℤ → Cells
write s k n = record s { cell = λ k'. if str_eq k k' then some n else s.cell k' }

unfoldable pub cells : Redis
unfolding write
cells = record {
  Store = Cells;
  reachable = λ s. s.up;
  replies = λ s. true;
  tostring = λ n. n;
  get = λ s k. s.cell k;
  set = λ s k n. write s k n;
  incr_by = λ s k n. write s k (or_zero (s.cell k) +ℤ n);
  expire = λ s k ttl. s;
}
