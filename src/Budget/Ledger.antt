-- ===== src/Budget/Ledger.antt =====
-- `Ledger` and `RedisLedger` of internal/budget/budget.go. A call of the ledger answers `none` (or
-- false) where it returns an error. Lua's sums and comparisons are taken as those of integers, which
-- they are below 2^53; its `tostring` is a parameter, exact on at most 14 digits.
pub mod Scripts
use proofgate.Base.{
  ℕ, ◌*◌, ◌≡◌, ◌+◌, Bool, true, false, ◌&&◌, Option, none, some, List, ◌++◌, if◌then◌else◌,
}
use proofgate.Base.Int.{ℤ, pos, negsuc, ◌+ℤ◌, ◌≤ℤ◌, ltb_ℤ}
use proofgate.Base.Bytes.{Bytes, codes}
use proofgate.Redis.{Redis, or_zero, most_exact}

pub record Ledger : Type 1 where
  pub World : Type 0
  pub spent : World → Bytes → Bytes → Option ℤ
  pub add : World → Bytes → Bytes → ℤ → Bool × World
  pub reserve : World → Bytes → Bytes → ℤ → ℤ → Option (Bool × ℤ) × World

-- What a ledger promises of one tenant's month: a balance that `reserve` raises by the estimate
-- exactly where the sum stays within the limit, and that `add` moves by the delta, not below zero, as
-- long as it stays below 10^14 micros. A call that fails has done nothing.
abbrev pub clamped : ℤ → ℤ
clamped n = if ltb_ℤ n (pos 0) then pos 0 else n

pub record IsLedger (L : Ledger) (tenant_id month : Bytes) : Type 0 where
  pub balance : L.World → ℤ
  pub spent_balance : (w : L.World) (n : ℤ) → L.spent w tenant_id month ≡ some n → n ≡ balance w
  pub reserve_taken :
      (w w' : L.World) (est limit n : ℤ)
      → L.reserve w tenant_id month est limit ≡ (some (true, n), w')
      → (balance w +ℤ est ≤ℤ limit) × (n ≡ balance w +ℤ est) × (balance w' ≡ balance w +ℤ est)
  pub reserve_refused :
      (w w' : L.World) (est limit n : ℤ)
      → L.reserve w tenant_id month est limit ≡ (some (false, n), w')
      → (ltb_ℤ limit (balance w +ℤ est) ≡ true) × (n ≡ balance w) × (balance w' ≡ balance w)
  pub reserve_failed :
      (w w' : L.World) (est limit : ℤ)
      → L.reserve w tenant_id month est limit ≡ (none, w')
      → balance w' ≡ balance w
  pub add_done :
      (w w' : L.World) (delta : ℤ)
      → balance w +ℤ delta ≤ℤ most_exact
      → L.add w tenant_id month delta ≡ (true, w')
      → balance w' ≡ clamped (balance w +ℤ delta)
  pub add_failed :
      (w w' : L.World) (delta : ℤ)
      → L.add w tenant_id month delta ≡ (false, w')
      → balance w' ≡ balance w

-- `"budget:{t:" + tenantID + "}:" + month`
unfoldable pub ledger_key : Bytes → Bytes → Bytes
ledger_key tenant_id month = codes "budget:{t:" ++ (tenant_id ++ (codes "}:" ++ month))

abbrev pub ttl_secs : ℕ
ttl_secs = 40 * 24 * 3600

module _ (R : Redis) where
  open R use {Store, reachable, replies, tostring, get, set, incr_by, expire}

  unfoldable pub reserve_script : Bytes → ℤ → ℤ → ℕ → Store → (Bool × ℤ) × Store
  reserve_script key est limit ttl s =
      let cur = or_zero (get s key) in
      if ltb_ℤ limit (cur +ℤ est)
      then ((false, cur), s)
      else ((true, cur +ℤ est), expire (incr_by s key est) key ttl)

  unfoldable pub add_script : Bytes → ℤ → ℕ → Store → ℤ × Store
  add_script key delta ttl s =
      let next = clamped (or_zero (get s key) +ℤ delta) in
      (next, expire (set s key (tostring next)) key ttl)

  unfoldable pub spent : Store → Bytes → Bytes → Option ℤ
  spent s tenant_id month =
      if reachable s && replies s then some (or_zero (get s (ledger_key tenant_id month))) else none

  unfoldable pub add : Store → Bytes → Bytes → ℤ → Bool × Store
  unfolding add_script
  add s tenant_id month micros =
      let (_, s') = add_script (ledger_key tenant_id month) micros ttl_secs s in
      if reachable s then (replies s, s') else (false, s)

  unfoldable pub reserve : Store → Bytes → Bytes → ℤ → ℤ → Option (Bool × ℤ) × Store
  unfolding reserve_script
  reserve s tenant_id month est limit =
      let (answer, s') = reserve_script (ledger_key tenant_id month) est limit ttl_secs s in
      if reachable s then (if replies s then some answer else none, s') else (none, s)

  unfoldable pub redis_ledger : Ledger
  unfolding spent add reserve
  redis_ledger = record { World = Store; spent = spent; add = add; reserve = reserve }
