-- ===== src/Admin/Store.antt =====
-- internal/adminauth/store.go: the interface `SessionStore`, and the keys of session.go under which
-- the service writes. A call may fail at any time; a failed call changes nothing. Within a call nothing
-- expires: the end of an entry is a change of the store between two calls.
use proofgate.Base.{
  ℕ, suc, ◌<◌, ◌≡◌, Bool, true, false, not, ◌&&◌, ◌||◌, Option, none, some, List, ◌++◌,
  if◌then◌else◌,
}
use proofgate.Base.Bytes.{Bytes, codes, str_eq}
use proofgate.Base.Maps.{elem}

-- The errors of session.go, and those that the stores and the codecs hand on.
pub data AdminError : Type 0 where
  session_not_found session_expired session_idle invalid_session_token : AdminError
  account_locked ip_rate_limited invalid_credentials : AdminError
  store_error codec_error token_error : AdminError

pub data Result {ℓ} (A : Type ℓ) : Type ℓ where
  ok : A → Result A
  err : AdminError → Result A

abbrev pub is_ok {ℓ} : {A : Type ℓ} → Result A → Bool
is_ok (ok a) = true
is_ok (err e) = false

abbrev pub is_some {ℓ} : {A : Type ℓ} → Option A → Bool
is_some (some a) = true
is_some none = false

-- `count`, `value` and `has` are what a look at the store would show: a live counter, a live value,
-- and whether a set has a member.
pub record SessionStore : Type 1 where
  pub Store : Type 0
  pub now : Store → ℕ
  pub count : Store → Bytes → ℕ
  pub value : Store → Bytes → Option Bytes
  pub has : Store → Bytes → Bytes → Bool
  pub set : Store → Bytes → Bytes → ℕ → Result (Unit {0}) × Store
  pub set_xx : Store → Bytes → Bytes → ℕ → Result Bool × Store
  pub get : Store → Bytes → Result Bytes × Store
  pub del : Store → List Bytes → Result (Unit {0}) × Store
  pub incr_with_ttl : Store → Bytes → ℕ → Result ℕ × Store
  pub get_with_ttl : Store → Bytes → Result (ℕ × ℕ) × Store
  pub sadd : Store → Bytes → List Bytes → Result (Unit {0}) × Store
  pub srem : Store → Bytes → List Bytes → Result (Unit {0}) × Store
  pub smembers : Store → Bytes → Result (List Bytes) × Store
  pub scan : Store → Bytes → Result (List Bytes) × Store

-- What each call does to a counter. A value of another key is none of the counter's business.
pub record CounterLaws (S : SessionStore) : Type 0 where
  pub incr-ok :
      (s : S.Store) (k : Bytes) (ttl n : ℕ)
      → (S.incr_with_ttl s k ttl).0 ≡ ok n
      → n ≡ suc (S.count s k)
  pub count-incr :
      (s : S.Store) (k : Bytes) (ttl : ℕ) (j : Bytes)
      → 0 < ttl
      → S.count (S.incr_with_ttl s k ttl).1 j ≡ (
          if is_ok (S.incr_with_ttl s k ttl).0 && str_eq k j
          then suc (S.count s k)
          else S.count s j)
  pub count-get_with_ttl :
      (s : S.Store) (k j : Bytes) → S.count (S.get_with_ttl s k).1 j ≡ S.count s j
  pub count-del :
      (s : S.Store) (ks : List Bytes) (j : Bytes)
      → S.count (S.del s ks).1 j ≡ (if is_ok (S.del s ks).0 && elem j ks then 0 else S.count s j)
  pub count-set :
      (s : S.Store) (k v : Bytes) (ttl : ℕ) (j : Bytes)
      → str_eq k j ≡ false
      → S.count (S.set s k v ttl).1 j ≡ S.count s j
  pub count-sadd :
      (s : S.Store) (k : Bytes) (l : List Bytes) (j : Bytes)
      → S.count (S.sadd s k l).1 j ≡ S.count s j

-- What each call does to a value, and what it answers by it.
pub record ValueLaws (S : SessionStore) : Type 0 where
  pub now-get : (s : S.Store) (k : Bytes) → S.now (S.get s k).1 ≡ S.now s
  pub get-ok : (s : S.Store) (k v : Bytes) → (S.get s k).0 ≡ ok v → S.value s k ≡ some v
  pub get-none : (s : S.Store) (k : Bytes) → S.value s k ≡ none → is_ok (S.get s k).0 ≡ false
  pub value-get : (s : S.Store) (k j : Bytes) → S.value (S.get s k).1 j ≡ S.value s j
  pub value-set :
      (s : S.Store) (k v : Bytes) (ttl : ℕ) (j : Bytes)
      → S.value (S.set s k v ttl).1 j
        ≡ (if is_ok (S.set s k v ttl).0 && str_eq k j then some v else S.value s j)
  pub set_xx-ok :
      (s : S.Store) (k v : Bytes) (ttl : ℕ) (b : Bool)
      → (S.set_xx s k v ttl).0 ≡ ok b
      → b ≡ is_some (S.value s k)
  pub value-set_xx :
      (s : S.Store) (k v : Bytes) (ttl : ℕ) (j : Bytes)
      → S.value (S.set_xx s k v ttl).1 j ≡ (
          if is_ok (S.set_xx s k v ttl).0 && is_some (S.value s k) && str_eq k j
          then some v
          else S.value s j)
  pub value-del :
      (s : S.Store) (ks : List Bytes) (j : Bytes)
      → S.value (S.del s ks).1 j ≡ (if is_ok (S.del s ks).0 && elem j ks then none else S.value s j)
  pub value-sadd :
      (s : S.Store) (k : Bytes) (l : List Bytes) (j : Bytes)
      → S.value (S.sadd s k l).1 j ≡ S.value s j
  pub value-srem :
      (s : S.Store) (k : Bytes) (l : List Bytes) (j : Bytes)
      → S.value (S.srem s k l).1 j ≡ S.value s j
  pub value-smembers : (s : S.Store) (k j : Bytes) → S.value (S.smembers s k).1 j ≡ S.value s j

-- What each call does to the sets.
pub record IndexLaws (S : SessionStore) : Type 0 where
  pub smembers-ok :
      (s : S.Store) (k : Bytes) (l : List Bytes) (x : Bytes)
      → (S.smembers s k).0 ≡ ok l
      → elem x l ≡ S.has s k x
  pub has-sadd :
      (s : S.Store) (k : Bytes) (l : List Bytes) (j x : Bytes)
      → S.has (S.sadd s k l).1 j x
        ≡ (is_ok (S.sadd s k l).0 && str_eq k j && elem x l || S.has s j x)
  pub has-srem :
      (s : S.Store) (k : Bytes) (l : List Bytes) (j x : Bytes)
      → S.has (S.srem s k l).1 j x
        ≡ (not (is_ok (S.srem s k l).0 && str_eq k j && elem x l) && S.has s j x)
  pub has-set :
      (s : S.Store) (k v : Bytes) (ttl : ℕ) (j x : Bytes)
      → S.has (S.set s k v ttl).1 j x ≡ S.has s j x
  pub has-set_xx :
      (s : S.Store) (k v : Bytes) (ttl : ℕ) (j x : Bytes)
      → S.has (S.set_xx s k v ttl).1 j x ≡ S.has s j x
  pub has-smembers : (s : S.Store) (k j x : Bytes) → S.has (S.smembers s k).1 j x ≡ S.has s j x
  pub has-get : (s : S.Store) (k j x : Bytes) → S.has (S.get s k).1 j x ≡ S.has s j x
  pub has-del :
      (s : S.Store) (ks : List Bytes) (j x : Bytes)
      → elem j ks ≡ false
      → S.has (S.del s ks).1 j x ≡ S.has s j x

unfoldable pub session_key : Bytes → Bytes
session_key hash = codes "proofgate:session:" ++ hash

unfoldable pub user_sessions_key : Bytes → Bytes
user_sessions_key username = codes "proofgate:user_sessions:{" ++ (username ++ codes "}")

unfoldable pub login_fail_key : Bytes → Bytes
login_fail_key username = codes "proofgate:login_fail:" ++ username

unfoldable pub all_users_key : Bytes
all_users_key = codes "proofgate:all_session_users"

unfoldable pub login_fail_user_ip_key : Bytes → Bytes → Bytes
login_fail_user_ip_key username ip =
    codes "proofgate:login_fail:userip:" ++ (username ++ (codes "|" ++ ip))

unfoldable pub login_fail_ip_key : Bytes → Bytes
login_fail_ip_key ip = codes "proofgate:login_fail:ip:" ++ ip

unfoldable pub login_fail_user_alert_key : Bytes → Bytes
login_fail_user_alert_key username = codes "proofgate:login_fail:user:" ++ username
