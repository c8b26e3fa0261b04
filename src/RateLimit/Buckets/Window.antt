-- ===== src/RateLimit/Buckets/Window.antt =====
-- What happens to a bucket of internal/ratelimit/limiter.go in a window of time.
use proofgate.Base.{ℕ, ◌+◌, ◌*◌, ◌≤◌, ◌≡◌, Option, none, some}
use proofgate.Base.Int.{ℤ, pos, ◌-ℤ◌, ◌≤ℤ◌, pos_part}
use proofgate.Base.Bytes.{Bytes}
use proofgate.RateLimit.Buckets.{
  BucketRedis, Decision, allowed, too_large, denied, unit, level, token_key, take, adjust,
}

-- The tokens that a decision lets through.
unfoldable pub granted : Option Decision → ℕ → ℕ
granted (some allowed) n = n
granted (some too_large) n = 0
granted (some (denied w)) n = 0
granted none n = 0

module _ (R : BucketRedis) (tenant_id : Bytes) (rpm tpm : ℕ) where
  -- What is left of the tenant's tokens, in 60000ths.
  abbrev pub left : R.Store → ℤ
  left s = level tpm (R.time s) (R.hmget s (token_key tenant_id))

  -- What happens from a store on: the tokens taken and those given back. In `passes` others work on
  -- the store, or time goes by; in `expires` the bucket's key is dropped 120 seconds after it was
  -- written, and what it owes above the bucket's size is given back by that.
  pub data Window (from : R.Store) : ℕ → ℕ → R.Store → Type 0 where
    opens : Window from 0 0 from
    takes :
        {taken refunded : ℕ} {s : R.Store} (tokens : ℕ)
        → Window from taken refunded s
        → Window from
            (taken + granted (take R s tenant_id rpm tpm tokens).0 tokens)
            refunded
            (take R s tenant_id rpm tpm tokens).1
    adjusts :
        {taken refunded : ℕ} {s : R.Store} (delta : ℤ)
        → Window from taken refunded s
        → Window from taken (refunded + pos_part delta) (adjust R s tenant_id tpm delta).1
    passes :
        {taken refunded : ℕ} {s s' : R.Store}
        → R.time s ≤ R.time s'
        → R.hmget s' (token_key tenant_id) ≡ R.hmget s (token_key tenant_id)
        → Window from taken refunded s
        → Window from taken refunded s'
    expires :
        {taken refunded : ℕ} {s s' : R.Store} (n : ℤ) (ts forgiven : ℕ)
        → R.time s' ≡ R.time s
        → R.hmget s (token_key tenant_id) ≡ some (n, ts)
        → pos 0 -ℤ pos (unit * (tpm + forgiven)) ≤ℤ n
        → ts + 120_000 ≤ R.time s
        → R.hmget s' (token_key tenant_id) ≡ none
        → Window from taken refunded s
        → Window from taken (refunded + forgiven) s'
