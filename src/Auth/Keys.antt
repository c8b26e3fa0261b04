-- ===== src/Auth/Keys.antt =====
-- internal/auth: the lookup of an API key through its two caches, the check of a request and the
-- evictions. The policies are parameters, since nothing here reads them but the flag for direct
-- targets; so are SHA-256, the hexadecimal codec, the store of keys and golang.org/x/time/rate. A lookup
-- inside `singleflight` is a read of the store and a write of the caches, with the calls of other
-- requests before, between and after them.
pub mod Cache
pub mod Requests
mod Examples
use proofgate.Base.{
  ℕ, ◌+◌, ◌≡◌, Bool, true, false, not, ◌&&◌, ◌||◌, Option, none, some, List, [], ◌∷◌, ltb, leb,
  ◌==◌, if◌then◌else◌,
}
use proofgate.Base.Bytes.{Bytes, codes, str_eq}
use proofgate.Base.Maps.{elem}
use proofgate.RateLimit.Stage.{has_prefix}
use proofgate.Router.Route.{is_empty}
use proofgate.Api.Errors.{ApiError, unauthorized}
use proofgate.Auth.Lru.{LruCache, new_lru, get, set, remove, remove_where, purge}

-- internal/store/store.go: the parts of a key and its tenant that a principal takes over. `T` is the
-- policy of a tenant, and `K` that of a key besides its flag for direct targets.
pub record KeyRecord (T K : Type 0) : Type 0 where
  pub tenant_id : Bytes
  pub tenant_name : Bytes
  pub tenant_policy : T
  pub key_id : Bytes
  pub key_name : Bytes
  pub allowed_routes : List Bytes
  pub allow_direct : Bool
  pub key_policy : K

pub record Principal (T K : Type 0) : Type 0 where
  pub tenant_id : Bytes
  pub tenant_name : Bytes
  pub key_id : Bytes
  pub key_name : Bytes
  pub allowed_routes : List Bytes
  pub allow_direct : Bool
  pub tenant : T
  pub key : K

-- A result with `store.ErrNotFound` apart from the other errors.
pub data Lookup (A : Type 0) : Type 0 where
  found : A → Lookup A
  missing failed : Lookup A

-- What other packages give: the store of keys, SHA-256 and the hexadecimal codec.
pub record KeyEnv (T K : Type 0) : Type 0 where
  pub key_by_hash : Bytes → Lookup (KeyRecord T K)
  pub hash_key : Bytes → Bytes
  pub decode_hex : Bytes → Option Bytes

-- golang.org/x/time/rate at a time: `NewLimiter` of a rate and a burst, `Allow`, and `Tokens` below 1.
pub record RateLib : Type 1 where
  pub Limiter : Type 0
  pub new_limiter : ℕ → ℕ → Limiter
  pub allow : ℕ → Limiter → Bool × Limiter
  pub is_drained : ℕ → Limiter → Bool

-- The limiters are pointers into a heap.
pub record Middleware (T K : Type 0) (R : RateLib) : Type 0 where
  pub pos_cache : LruCache (Principal T K)
  pub neg_cache : LruCache (Unit {0})
  pub failed_limiters : LruCache ℕ
  pub limiter_at : ℕ → R.Limiter
  pub next_limiter : ℕ
  pub failed_auth_rate : ℕ
  pub failed_auth_burst : ℕ

pub data Answer (T K : Type 0) : Type 0 where
  calls_next : Principal T K → Answer T K
  refuses : ApiError → Answer T K

abbrev pub too_many_failures : ApiError
too_many_failures = record {
  status = 429;
  kind = codes "rate_limit_error";
  code = codes "failed_auth_limit_exceeded";
  retry_after = 0;
}

abbrev pub auth_unavailable : ApiError
auth_unavailable = record {
  status = 503;
  kind = codes "api_error";
  code = codes "auth_unavailable";
  retry_after = 0;
}

-- `strings.TrimSpace(s) == ""` on ASCII
unfoldable pub is_blank : Bytes → Bool
is_blank [] = true
is_blank (c ∷ s) = (c == b' ' || leb 9 c && leb c 13) && is_blank s

module _ {T K : Type 0} where
  unfoldable pub to_principal : KeyRecord T K → Principal T K
  to_principal rec = record {
    tenant_id = rec.tenant_id;
    tenant_name = rec.tenant_name;
    key_id = rec.key_id;
    key_name = rec.key_name;
    allowed_routes = rec.allowed_routes;
    allow_direct = rec.allow_direct;
    tenant = rec.tenant_policy;
    key = rec.key_policy;
  }

  unfoldable pub can_use_route : Principal T K → Bytes → Bool
  can_use_route p name = elim p.allowed_routes [ [] ↦ true | r ∷ rs ↦ elem name (r ∷ rs) ]

module _ {T K : Type 0} {R : RateLib} where
  -- The caches before the store: an answer, or none
  unfoldable pub cached :
      ℕ → Middleware T K R → Bytes → Option (Lookup (Principal T K)) × Middleware T K R
  cached now m h =
      let (p, pos) = get now h m.pos_cache in
      let m1 = record m { pos_cache = pos } in
      elim p [
        | some p ↦ (some (found p), m1)
        | none ↦
            let (n, neg) = get now h m.neg_cache in
            (elim n [ some _ ↦ some missing | none ↦ none ], record m1 { neg_cache = neg })
      ]

  -- The answer of the store, written into the caches
  unfoldable pub remember :
      ℕ
      → Middleware T K R
      → Bytes
      → Lookup (KeyRecord T K)
      → Lookup (Principal T K) × Middleware T K R
  unfolding to_principal
  remember now m h (found rec) =
      (found (to_principal rec), record m { pos_cache = set now h (to_principal rec) m.pos_cache })
  remember now m h missing = (missing, record m { neg_cache = set now h tt m.neg_cache })
  remember now m h failed = (failed, m)

  unfoldable pub resolve :
      ℕ → KeyEnv T K → Middleware T K R → Bytes → Lookup (Principal T K) × Middleware T K R
  unfolding cached remember
  resolve now env m key =
      let h = env.hash_key key in
      let (fast, m1) = cached now m h in
      elim fast [
        | some answer ↦ (answer, m1)
        | none ↦
            let (again, m2) = cached now m1 h in
            elim again [ some answer ↦ (answer, m2) | none ↦ remember now m2 h (env.key_by_hash h) ]
      ]

  unfoldable pub set_failed_auth_limiter : ℕ → ℕ → Middleware T K R → Middleware T K R
  set_failed_auth_limiter rate burst m = record m {
    failed_auth_rate = rate;
    failed_auth_burst = burst;
    failed_limiters = purge m.failed_limiters;
  }

  unfoldable pub get_limiter : ℕ → Bytes → Middleware T K R → ℕ × Middleware T K R
  get_limiter now ip m =
      let (hit, limiters) = get now ip m.failed_limiters in
      let m1 = record m { failed_limiters = limiters } in
      elim hit [
        | some lim ↦ (lim, m1)
        | none ↦
            let made = R.new_limiter m.failed_auth_rate m.failed_auth_burst in
            (
              m.next_limiter,
              record m1 {
                failed_limiters = set now ip m.next_limiter limiters;
                limiter_at = λ l. if l == m.next_limiter then made else m.limiter_at l;
                next_limiter = m.next_limiter + 1;
              },
            )
      ]

  -- A failure takes a token, or finds none.
  unfoldable pub refuse_failure :
      ℕ → ℕ → ApiError → Middleware T K R → Answer T K × Middleware T K R
  refuse_failure now lim error m =
      let (allowed, limiter) = R.allow now (m.limiter_at lim) in
      (
        refuses (if allowed then error else too_many_failures),
        record m { limiter_at = λ l. if l == lim then limiter else m.limiter_at l },
      )

  -- The path to the store, with the limiter of the client's IP
  unfoldable pub slow_path :
      ℕ → KeyEnv T K → ℕ → Bytes → Middleware T K R → Answer T K × Middleware T K R
  unfolding refuse_failure
  slow_path now env lim key m =
      let (answer, m1) = resolve now env m key in
      let looked_up : Answer T K × Middleware T K R = elim answer [
        | found p ↦ (calls_next p, m1)
        | missing ↦ refuse_failure now lim unauthorized m1
        | failed ↦ (refuses auth_unavailable, m1)
      ] in
      if R.is_drained now (m.limiter_at lim) then (refuses too_many_failures, m) else looked_up

  -- A request with the client's IP and the key of its headers
  unfoldable pub handler :
      ℕ → KeyEnv T K → Bytes → Bytes → Middleware T K R → Answer T K × Middleware T K R
  unfolding refuse_failure slow_path
  handler now env ip key m =
      if is_empty key || not (has_prefix key (codes "pg_"))
      then (let (lim, m1) = get_limiter now ip m in refuse_failure now lim unauthorized m1)
      else (let (hit, pos) = get now (env.hash_key key) m.pos_cache in
          let m1 = record m { pos_cache = pos } in
          elim hit [
            | some p ↦ (calls_next p, m1)
            | none ↦ let (lim, m2) = get_limiter now ip m1 in slow_path now env lim key m2
          ])

  unfoldable pub evict_hash : Bytes → Middleware T K R → Middleware T K R
  evict_hash h m = record m { pos_cache = remove h m.pos_cache; neg_cache = remove h m.neg_cache }

  unfoldable pub evict_key : KeyEnv T K → Bytes → Middleware T K R → Middleware T K R
  unfolding evict_hash
  evict_key env key_hash m =
      let m1 = evict_hash key_hash m in
      elim (env.decode_hex key_hash) [ none ↦ m1 | some h ↦ evict_hash h m1 ]

  unfoldable pub evict_tenant : Bytes → Middleware T K R → ℕ × Middleware T K R
  evict_tenant tenant_id m =
      let (n, pos) = remove_where (λ h p. str_eq p.tenant_id tenant_id) m.pos_cache in
      if is_blank tenant_id then (0, m) else (n, record m { pos_cache = pos })

  unfoldable pub purge_keys : Middleware T K R → Middleware T K R
  purge_keys m = record m { pos_cache = purge m.pos_cache; neg_cache = purge m.neg_cache }

  -- `NewMiddlewareWithConfig`; what unallocated items and limiters hold is arbitrary.
  unfoldable pub new_middleware : Principal T K → R.Limiter → ℕ → ℕ → ℕ → Middleware T K R
  new_middleware p lim ttl negative_ttl max_entries =
      let entries = if max_entries == 0 then 10_000 else max_entries in
      record {
        pos_cache = new_lru p entries ttl;
        neg_cache = new_lru tt (if ltb entries 2_000 then entries else 2_000) negative_ttl;
        failed_limiters = new_lru 0 10_000 600_000_000_000;
        limiter_at = λ l. lim;
        next_limiter = 0;
        failed_auth_rate = 20;
        failed_auth_burst = 20;
      }
