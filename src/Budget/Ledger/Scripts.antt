-- ===== src/Budget/Ledger/Scripts.antt =====
-- The scripts of `RedisLedger` (internal/budget/budget.go) keep the ledger's promises.
use proofgate.Base.{◌≡◌, true, arith, if◌then◌else◌}
use proofgate.Base.Int.{ℤ, ◌+ℤ◌, ◌≤ℤ◌, ltb_ℤ}
use proofgate.Base.Bytes.{Bytes, str_eq_refl}
use proofgate.Redis.{Redis, RedisLaws, or_zero, most_exact}
use proofgate.Budget.Ledger.{
  IsLedger, clamped, ledger_key, ttl_secs, reserve_script, add_script, redis_ledger, spent, add,
  reserve,
}

module _ (R : Redis) (laws : RedisLaws R) where
  abbrev stored : R.Store → Bytes → ℤ
  stored s k = or_zero (R.get s k)

  stored-reserve_script :
      (k : Bytes) (est limit : ℤ) (s : R.Store)
      → stored (reserve_script R k est limit ttl_secs s).1 k
        ≡ (if ltb_ℤ limit (stored s k +ℤ est) then stored s k else stored s k +ℤ est)
  unfolding reserve_script
  stored-reserve_script k est limit s = ground (
    arith,
    laws.get-incr_by s k est k,
    laws.get-expire (R.incr_by s k est) k ttl_secs k,
    str_eq_refl k,
  )

  stored-add_script :
      (k : Bytes) (delta : ℤ) (s : R.Store)
      → stored s k +ℤ delta ≤ℤ most_exact
      → stored (add_script R k delta ttl_secs s).1 k ≡ clamped (stored s k +ℤ delta)
  unfolding add_script
  stored-add_script k delta s h =
      let next = clamped (or_zero (R.get s k) +ℤ delta) in
      ground (
        arith,
        h,
        laws.tostring_exact next,
        laws.get-set s k (R.tostring next) k,
        laws.get-expire (R.set s k (R.tostring next)) k ttl_secs k,
        str_eq_refl k,
      )

  -- As long as no reply of Redis is lost, the ledger on Redis keeps the promises of a ledger, for
  -- every tenant and month: `Reserve` is a check and an increment in one step, `Add` moves the
  -- balance and never leaves a negative one, where the result has at most 14 digits, and a call
  -- that fails has done nothing.
  pub redis_ledger-IsLedger :
      ((s : R.Store) → R.reachable s ≡ true → R.replies s ≡ true)
      → (tenant_id month : Bytes) → IsLedger (redis_ledger R) tenant_id month
  unfolding redis_ledger spent add reserve reserve_script add_script
  redis_ledger-IsLedger heard tenant_id month =
      let k = ledger_key tenant_id month in
      record {
        balance = λ s. stored s k;
        spent_balance = λ w n h. ground arith;
        reserve_taken =
            λ w w' est limit n h. ground (arith, heard w, stored-reserve_script k est limit w);
        reserve_refused =
            λ w w' est limit n h. ground (arith, heard w, stored-reserve_script k est limit w);
        reserve_failed = λ w w' est limit h. ground (arith, heard w);
        add_done = λ w w' delta m h. ground (arith, m, heard w, stored-add_script k delta w);
        add_failed = λ w w' delta h. ground (arith, heard w);
      }
