-- ===== src/Auth/Keys/Requests.antt =====
-- Which requests the middleware lets through, and that the caches stay in step with the store.
use proofgate.Base.{
  ℕ, ◌≡◌, refl, sym, ◌∙◌, true, false, not, ◌||◌, [], ◌∷◌, arith, Option-cases, Bool-cases, inl,
  inr, ◌⊎◌,
}
use proofgate.Base.Bytes.{Bytes, codes}
use proofgate.RateLimit.Stage.{has_prefix}
use proofgate.Router.Route.{is_empty}
use proofgate.Api.Errors.{ApiError, unauthorized}
use proofgate.Auth.Lru.{get}
use proofgate.Auth.Lru.Contents.{get-Holds, get-hit}
use proofgate.Auth.Keys.{
  Principal, Lookup, found, missing, failed, KeyEnv, RateLib, Middleware, Answer, calls_next,
  refuses, too_many_failures, auth_unavailable, get_limiter, refuse_failure, resolve, slow_path,
  handler,
}
use proofgate.Auth.Keys.Cache.{answer, PosAgrees, Agrees, resolve_lem}

Lookup-cases :
    {A : Type 0} (r : Lookup A) → ((a : A) × (r ≡ found a)) ⊎ ((r ≡ missing) ⊎ (r ≡ failed))
Lookup-cases (found a) = inl (a, refl)
Lookup-cases missing = inr (inl refl)
Lookup-cases failed = inr (inr refl)

prefixed_full :
    (key : Bytes)
    → has_prefix key (codes "pg_") ≡ true
    → is_empty key || not (has_prefix key (codes "pg_")) ≡ false
prefixed_full [] h = unfold has_prefix in absurd (ground arith)
prefixed_full (c ∷ key) h = ground arith

module _ {T K : Type 0} {R : RateLib} (env : KeyEnv T K) where
  get_limiter-Agrees :
      (now : ℕ) (ip : Bytes) (m : Middleware T K R)
      → Agrees env m
      → Agrees env (get_limiter now ip m).1
  unfolding get_limiter
  get_limiter-Agrees now ip m v = elim (Option-cases (get now ip m.failed_limiters).0) [
    | inl e ↦ rw (e, get_limiter) (record { pos = v.pos; neg = v.neg })
    | inr (l, e) ↦ rw (e, get_limiter) (record { pos = v.pos; neg = v.neg })
  ]

  -- The answer lets a request through only as the principal that the store has for its key, and the
  -- caches agree with the store.
  abbrev Judged : Bytes → Answer T K × Middleware T K R → Type 0
  Judged key r =
      ((p : Principal T K)
        → r.0 ≡ calls_next p
        → (has_prefix key (codes "pg_") ≡ true)
          × (answer (env.key_by_hash (env.hash_key key)) ≡ found p))
      × Agrees env r.1

  refuse_failure-Judged :
      (now lim : ℕ) (error : ApiError) (m : Middleware T K R) (key : Bytes)
      → Agrees env m
      → Judged key (refuse_failure now lim error m)
  unfolding refuse_failure
  refuse_failure-Judged now lim error m key v =
      (λ p e. absurd (ground arith), record { pos = v.pos; neg = v.neg })

  refused-Judged :
      (error : ApiError) (m : Middleware T K R) (key : Bytes)
      → Agrees env m
      → Judged key (refuses error, m)
  refused-Judged error m key v = (λ p e. absurd (ground arith), v)

  slow_path-Judged :
      (now lim : ℕ) (key : Bytes) (m : Middleware T K R)
      → has_prefix key (codes "pg_") ≡ true
      → Agrees env m
      → Judged key (slow_path now env lim key m)
  unfolding slow_path
  slow_path-Judged now lim key m h v =
      let (a, v1) = resolve_lem env now m key v in
      let m1 = (resolve now env m key).1 in
      elim (Bool-cases (R.is_drained now (m.limiter_at lim))) [
        | inl d ↦ rw (d, slow_path) (refused-Judged too_many_failures m key v)
        | inr d ↦ elim (Lookup-cases (resolve now env m key).0) [
          | inl (p, e) ↦ rw (d, slow_path) (rw e ((λ q f. (h, sym a ∙ (e ∙ (cc)))), v1))
          | inr (inl e) ↦
              rw (d, slow_path) (rw e (refuse_failure-Judged now lim unauthorized m1 key v1))
          | inr (inr e) ↦ rw (d, slow_path) (rw e (refused-Judged auth_unavailable m1 key v1))
        ]
      ]

  -- With caches that agree with the store, a request is let through only when its key has the prefix
  -- `pg_` and the store has a record for the key's hash, and then as the principal of this
  -- record; after any request the caches agree with the store.
  pub handler-Judged :
      (now : ℕ) (ip key : Bytes) (m : Middleware T K R)
      → Agrees env m
      → ((p : Principal T K)
          → (handler now env ip key m).0 ≡ calls_next p
          → (has_prefix key (codes "pg_") ≡ true)
            × (answer (env.key_by_hash (env.hash_key key)) ≡ found p))
        × Agrees env (handler now env ip key m).1
  unfolding handler
  handler-Judged now ip key m v =
      let h = env.hash_key key in
      elim (Bool-cases (is_empty key || not (has_prefix key (codes "pg_")))) [
        | inl b ↦
            rw (b, handler)
              (refuse_failure-Judged now (get_limiter now ip m).0 unauthorized
                (get_limiter now ip m).1 key (get_limiter-Agrees now ip m v))
        | inr b ↦
            let prefixed : has_prefix key (codes "pg_") ≡ true = ground arith in
            let m1 = record m { pos_cache = (get now h m.pos_cache).1 } in
            let v1 : Agrees env m1 = record {
              pos = get-Holds (PosAgrees env) now h m.pos_cache v.pos;
              neg = v.neg;
            } in
            elim (Option-cases (get now h m.pos_cache).0) [
              | inr (p, e) ↦
                  let hit : answer (env.key_by_hash h) ≡ found p =
                    get-hit (PosAgrees env) now h p m.pos_cache v.pos e in
                  rw (b, handler) (rw e ((λ q f. (prefixed, hit ∙ (cc))), v1))
              | inl e ↦
                  rw (b, handler)
                    (rw e (
                      slow_path-Judged now (get_limiter now ip m1).0 key (get_limiter now ip m1).1
                        prefixed (get_limiter-Agrees now ip m1 v1)))
            ]
      ]

  slow_path_passes :
      (now lim : ℕ) (key : Bytes) (m : Middleware T K R) (p : Principal T K)
      → Agrees env m
      → answer (env.key_by_hash (env.hash_key key)) ≡ found p
      → ((slow_path now env lim key m).0 ≡ calls_next p)
        ⊎ ((slow_path now env lim key m).0 ≡ refuses too_many_failures)
  unfolding slow_path
  slow_path_passes now lim key m p v a =
      let r : (resolve now env m key).0 ≡ found p = (resolve_lem env now m key v).0 ∙ a in
      elim (Bool-cases (R.is_drained now (m.limiter_at lim))) [
        | inl d ↦ inr (rw (d, slow_path) refl)
        | inr d ↦ inl (rw (d, slow_path) (rw r refl))
      ]

  -- A key with the prefix whose hash the store has a record for is let through as the principal of this
  -- record, unless failures of its IP have drained the limiter: then the answer is status 429.
  pub known_key_passes :
      (now : ℕ) (ip key : Bytes) (m : Middleware T K R) (p : Principal T K)
      → Agrees env m
      → has_prefix key (codes "pg_") ≡ true
      → answer (env.key_by_hash (env.hash_key key)) ≡ found p
      → ((handler now env ip key m).0 ≡ calls_next p)
        ⊎ ((handler now env ip key m).0 ≡ refuses too_many_failures)
  unfolding handler
  known_key_passes now ip key m p v h a =
      let k = env.hash_key key in
      let m1 = record m { pos_cache = (get now k m.pos_cache).1 } in
      let v1 : Agrees env m1 = record {
        pos = get-Holds (PosAgrees env) now k m.pos_cache v.pos;
        neg = v.neg;
      } in
      let b : is_empty key || not (has_prefix key (codes "pg_")) ≡ false = prefixed_full key h in
      elim (Option-cases (get now k m.pos_cache).0) [
        | inr (q, e) ↦
            let hit : answer (env.key_by_hash k) ≡ found q =
              get-hit (PosAgrees env) now k q m.pos_cache v.pos e in
            inl (rw (b, handler) (rw e (cc)))
        | inl e ↦
            let (lim, m2) = get_limiter now ip m1 in
            rw (b, handler)
              (rw e (slow_path_passes now lim key m2 p (get_limiter-Agrees now ip m1 v1) a))
      ]
