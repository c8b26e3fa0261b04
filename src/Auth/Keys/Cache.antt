-- ===== src/Auth/Keys/Cache.antt =====
-- The caches of API keys agree with the store, and a lookup through them is a lookup in the store.
use proofgate.Base.{ℕ, ◌≡◌, refl, ◌∙◌, false, some, arith, Option-cases, inl, inr}
use proofgate.Base.Bytes.{Bytes, str_eq}
use proofgate.Auth.Lru.{get, remove, remove_where}
use proofgate.Auth.Lru.Contents.{
  Holds, get-Holds, get-hit, set-Holds, remove_gone, remove_where_gone, Holds-weaken, purge-Holds,
  new_lru-Holds,
}
use proofgate.Auth.Keys.{
  KeyRecord, Principal, Lookup, found, missing, failed, KeyEnv, RateLib, Middleware, to_principal,
  cached, remember, resolve, evict_hash, evict_key, evict_tenant, purge_keys, new_middleware,
  is_blank,
}

module _ {T K : Type 0} where
  -- A lookup without caches.
  unfoldable pub answer : Lookup (KeyRecord T K) → Lookup (Principal T K)
  answer (found rec) = found (to_principal rec)
  answer missing = missing
  answer failed = failed

  abbrev pub PosAgrees : KeyEnv T K → Bytes → Principal T K → Type 0
  PosAgrees env h p = answer (env.key_by_hash h) ≡ found p

  abbrev pub NegAgrees : KeyEnv T K → Bytes → Unit {0} → Type 0
  NegAgrees env h _ = env.key_by_hash h ≡ missing

-- Every cached principal is the one of the store, and what is cached as missing is missing there.
pub record Agrees {T K : Type 0} {R : RateLib} (env : KeyEnv T K) (m : Middleware T K R)
    : Type 0 where
  pub pos : Holds (PosAgrees env) m.pos_cache
  pub neg : Holds (NegAgrees env) m.neg_cache

module _ {T K : Type 0} {R : RateLib} (env : KeyEnv T K) where
  cached_lem :
      (now : ℕ) (m : Middleware T K R) (h : Bytes)
      → Agrees env m
      → Agrees env (cached now m h).1
        × ((a : Lookup (Principal T K))
            → (cached now m h).0 ≡ some a
            → a ≡ answer (env.key_by_hash h))
  unfolding cached
  cached_lem now m h v = elim (Option-cases (get now h m.pos_cache).0) [
    | inr (p, e) ↦
        let hit : answer (env.key_by_hash h) ≡ found p =
          get-hit (PosAgrees env) now h p m.pos_cache v.pos e in
        rw (e, cached)
          (
            record { pos = get-Holds (PosAgrees env) now h m.pos_cache v.pos; neg = v.neg },
            λ a f. ground arith,
          )
    | inl e ↦ elim (Option-cases (get now h m.neg_cache).0) [
      | inr (u, n) ↦
          let hit : env.key_by_hash h ≡ missing =
            get-hit (NegAgrees env) now h u m.neg_cache v.neg n in
          rw (e, cached)
            (rw n (
              record {
                pos = get-Holds (PosAgrees env) now h m.pos_cache v.pos;
                neg = get-Holds (NegAgrees env) now h m.neg_cache v.neg;
              },
              λ a f. unfold answer in ground arith,
            ))
      | inl n ↦
          rw (e, cached)
            (rw n (
              record {
                pos = get-Holds (PosAgrees env) now h m.pos_cache v.pos;
                neg = get-Holds (NegAgrees env) now h m.neg_cache v.neg;
              },
              λ a f. absurd (ground arith),
            ))
    ]
  ]

  remember_lem :
      (now : ℕ) (m : Middleware T K R) (h : Bytes) (r : Lookup (KeyRecord T K))
      → env.key_by_hash h ≡ r
      → Agrees env m
      → Agrees env (remember now m h r).1 × ((remember now m h r).0 ≡ answer r)
  unfolding remember answer
  remember_lem now m h (found rec) e v = (
    record {
      pos =
          set-Holds (PosAgrees env) now h (to_principal rec) m.pos_cache
            (rw e (unfold answer in refl)) v.pos;
      neg = v.neg;
    },
    refl,
  )
  remember_lem now m h missing e v =
      (record { pos = v.pos; neg = set-Holds (NegAgrees env) now h tt m.neg_cache e v.neg }, refl)
  remember_lem now m h failed e v = (v, refl)

  -- While the caches agree with the store, resolving a key gives what a lookup in the store would: the
  -- principal of its record, nothing for a key that is missing, or an error; and the caches
  -- still agree with it.
  pub resolve_lem :
      (now : ℕ) (m : Middleware T K R) (key : Bytes)
      → Agrees env m
      → ((resolve now env m key).0 ≡ answer (env.key_by_hash (env.hash_key key)))
        × Agrees env (resolve now env m key).1
  unfolding resolve
  resolve_lem now m key v =
      let h = env.hash_key key in
      let (v1, a1) = cached_lem now m h v in
      let m1 = (cached now m h).1 in
      let (v2, a2) = cached_lem now m1 h v1 in
      let m2 = (cached now m1 h).1 in
      elim (Option-cases (cached now m h).0) [
        | inr (a, e) ↦ rw (e, resolve) (a1 a e, v1)
        | inl e ↦ elim (Option-cases (cached now m1 h).0) [
          | inr (a, f) ↦ rw (e, resolve) (rw f (a2 a f, v2))
          | inl f ↦
              let (v3, a3) = remember_lem now m2 h (env.key_by_hash h) refl v2 in
              rw (e, resolve) (rw f (a3, v3))
        ]
      ]

-- Evicting a hash under which nothing has changed
evict_raw :
    {T K : Type 0} {R : RateLib} {env : KeyEnv T K} (m : Middleware T K R) (h : Bytes)
    → Agrees env m
    → Agrees env (evict_hash h m)
unfolding evict_hash
evict_raw {env = env} m h v = record {
  pos =
      Holds-weaken (λ j p. PosAgrees env j p × (str_eq h j ≡ false)) (PosAgrees env)
        (remove h m.pos_cache) (λ j p e. e.0) (remove_gone (PosAgrees env) h m.pos_cache v.pos);
  neg =
      Holds-weaken (λ j u. NegAgrees env j u × (str_eq h j ≡ false)) (NegAgrees env)
        (remove h m.neg_cache) (λ j u e. e.0) (remove_gone (NegAgrees env) h m.neg_cache v.neg);
}

-- The store after one key has changed, and after a tenant is gone.
module _ {T K : Type 0} {R : RateLib} (env new : KeyEnv T K) where
  evict_hash-Agrees :
      (h : Bytes) (m : Middleware T K R)
      → ((j : Bytes) → str_eq h j ≡ false → new.key_by_hash j ≡ env.key_by_hash j)
      → Agrees env m
      → Agrees new (evict_hash h m)
  unfolding evict_hash
  evict_hash-Agrees h m same v = record {
    pos =
        Holds-weaken (λ j p. PosAgrees env j p × (str_eq h j ≡ false)) (PosAgrees new)
          (remove h m.pos_cache) (λ j p e. rw (same j e.1) e.0)
          (remove_gone (PosAgrees env) h m.pos_cache v.pos);
    neg =
        Holds-weaken (λ j u. NegAgrees env j u × (str_eq h j ≡ false)) (NegAgrees new)
          (remove h m.neg_cache) (λ j u e. same j e.1 ∙ e.0)
          (remove_gone (NegAgrees env) h m.neg_cache v.neg);
  }

  -- When one key has changed in the store, revoked for instance, and its hash is evicted by its
  -- hexadecimal text, the caches agree with the store as it is now: every key is resolved as
  -- the store has it, the changed one included.
  pub evict_key_lem :
      (now : ℕ) (m : Middleware T K R) (key_hash h key : Bytes)
      → env.decode_hex key_hash ≡ some h
      → ((j : Bytes) → str_eq h j ≡ false → new.key_by_hash j ≡ env.key_by_hash j)
      → Agrees env m
      → Agrees new (evict_key env key_hash m)
        × ((resolve now new (evict_key env key_hash m) key).0
            ≡ answer (new.key_by_hash (new.hash_key key)))
  unfolding evict_key
  evict_key_lem now m key_hash h key e same v =
      let m1 = evict_hash key_hash m in
      let v1 : Agrees env m1 = evict_raw m key_hash v in
      let v2 : Agrees new (evict_key env key_hash m) =
        rw (e, evict_key) (evict_hash-Agrees h m1 same v1) in
      (v2, (resolve_lem new now (evict_key env key_hash m) key v2).0)

  -- When a tenant is erased, the keys of other tenants are as they were and missing keys still missing,
  -- then after the tenant's eviction the caches agree with the store as it is now.
  pub evict_tenant-Agrees :
      (m : Middleware T K R) (tenant_id : Bytes)
      → is_blank tenant_id ≡ false
      → ((j : Bytes) (p : Principal T K)
          → answer (env.key_by_hash j) ≡ found p
          → str_eq p.tenant_id tenant_id ≡ false
          → answer (new.key_by_hash j) ≡ found p)
      → ((j : Bytes) → env.key_by_hash j ≡ missing → new.key_by_hash j ≡ missing)
      → Agrees env m
      → Agrees new (evict_tenant tenant_id m).1
  unfolding evict_tenant
  evict_tenant-Agrees m tenant_id b others absent v = rw b (record {
    pos =
        Holds-weaken (λ j p. PosAgrees env j p × (str_eq p.tenant_id tenant_id ≡ false))
          (PosAgrees new) (remove_where (λ h p. str_eq p.tenant_id tenant_id) m.pos_cache).1
          (λ j p e. others j p e.0 e.1)
          (remove_where_gone (PosAgrees env) (λ h p. str_eq p.tenant_id tenant_id) m.pos_cache
            v.pos);
    neg = Holds-weaken (NegAgrees env) (NegAgrees new) m.neg_cache (λ j u e. absent j e) v.neg;
  })

  pub new_middleware-Agrees :
      (p : Principal T K) (lim : R.Limiter) (ttl negative_ttl max_entries : ℕ)
      → Agrees new (new_middleware {R = R} p lim ttl negative_ttl max_entries)
  unfolding new_middleware
  new_middleware-Agrees p lim ttl negative_ttl max_entries = record {
    pos = new_lru-Holds (PosAgrees new) p _ ttl;
    neg = new_lru-Holds (NegAgrees new) tt _ negative_ttl;
  }

  -- After a purge nothing is cached that could disagree.
  purge_keys-Agrees : (m : Middleware T K R) → Agrees new (purge_keys m)
  unfolding purge_keys
  purge_keys-Agrees m = record {
    pos = purge-Holds (PosAgrees new) m.pos_cache;
    neg = purge-Holds (NegAgrees new) m.neg_cache;
  }
