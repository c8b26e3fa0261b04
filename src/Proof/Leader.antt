-- ===== src/Proof/Leader.antt =====
-- internal/proof/leader.go: leader election over one key in Redis. The commands are an interface
-- with their documented laws: on a store that is not `reachable` a command does nothing and its
-- caller gets an error, and on one that does not `replies` it is done but its caller gets an error.
-- Expiry is a change of the store between two steps. A replica is its
-- `Leader` with the flag, and the mutex around the flag is left out.
mod Examples
pub mod Election
use proofgate.Base.{
  ℕ, zero, ◌*◌, ◌<◌, ◌==◌, ◌≡◌, Bool, true, false, ◌&&◌, Option, none, some, List, [], ◌∷◌,
  if◌then◌else◌,
}
use proofgate.Base.Bytes.{Bytes, codes, str_eq}
use proofgate.Router.Route.{is_empty}

pub record LeaseRedis : Type 1 where
  pub Store : Type 0
  pub reachable : Store → Bool
  pub replies : Store → Bool
  pub get : Store → Bytes → Option Bytes
  pub set_nx : Store → Bytes → Bytes → ℕ → Bool × Store
  pub pexpire : Store → Bytes → ℕ → Store
  pub del : Store → Bytes → Store

abbrev pub is_none : Option Bytes → Bool
is_none none = true
is_none (some _) = false

pub record LeaseLaws (R : LeaseRedis) : Type 0 where
  pub set_nx_done :
      (s : R.Store) (k v : Bytes) (ttl : ℕ) → (R.set_nx s k v ttl).0 ≡ is_none (R.get s k)
  pub get-set_nx :
      (s : R.Store) (k v : Bytes) (ttl : ℕ)
      → 0 < ttl
      → R.get (R.set_nx s k v ttl).1 k ≡ (if is_none (R.get s k) then some v else R.get s k)
  pub get-pexpire :
      (s : R.Store) (k : Bytes) (ttl : ℕ) → 0 < ttl → R.get (R.pexpire s k ttl) k ≡ R.get s k
  pub get-del : (s : R.Store) (k : Bytes) → R.get (R.del s k) k ≡ none

-- Durations are milliseconds; those that are not positive are 0.
pub record Leader : Type 0 where
  pub instance_id : Bytes
  pub key : Bytes
  pub ttl : ℕ
  pub renew_every : ℕ
  pub is_leader : Bool

unfoldable pub new_leader : Bytes → Bytes → ℕ → ℕ → Leader
new_leader instance_id key ttl renew_every = record {
  instance_id = instance_id;
  key = if is_empty key then codes "proof:leader" else key;
  ttl = if ttl == 0 then 30_000 else ttl;
  renew_every = if renew_every == 0 then 10_000 else renew_every;
  is_leader = false;
}

abbrev pub set_leader : Bool → Leader → Leader
set_leader val l = record l { is_leader = val }

-- `redis.call("get", KEYS[1]) == ARGV[1]`
abbrev pub holds : Option Bytes → Bytes → Bool
holds none id = false
holds (some v) id = str_eq v id

module _ (R : LeaseRedis) where
  open R use {Store, reachable, replies, get, set_nx, pexpire, del}

  unfoldable pub renew_script : Bytes → Bytes → ℕ → Store → Bool × Store
  renew_script key id ttl s = if holds (get s key) id then (true, pexpire s key ttl) else (false, s)

  unfoldable pub release_script : Bytes → Bytes → Store → Store
  release_script key id s = if holds (get s key) id then del s key else s

  unfoldable pub step : Leader → Store → Leader × Store
  unfolding renew_script
  step l s =
      let (renewed, s1) = renew_script l.key l.instance_id l.ttl s in
      let (acquired, s2) = set_nx s l.key l.instance_id l.ttl in
      if l.is_leader
      then if reachable s
        then (if renewed && replies s then (l, s1) else (set_leader false l, s1))
        else (set_leader false l, s)
      else if reachable s
      then (if acquired && replies s then (set_leader true l, s2) else (l, s2))
      else (l, s)

  -- The two steps of `release`, between which other replicas go on: the script, whose failure is
  -- ignored, and the flag.
  unfoldable pub release_lease : Leader → Store → Store
  unfolding release_script
  release_lease l s = if l.is_leader && reachable s then release_script l.key l.instance_id s else s

unfoldable pub release_flag : Leader → Leader
release_flag l = if l.is_leader then set_leader false l else l
