-- ===== src/Auth/Keys/Examples.antt =====
-- Runs of internal/auth: two keys of two tenants, and a limiter that counts down.
use proofgate.Base.{ℕ, ◌-◌, ◌≡◌, refl, true, false, none, some, [], ◌∷◌, ◌==◌, if◌then◌else◌, arith}
use proofgate.Base.Bytes.{Bytes, codes, str_eq, str_eq_iff}
use proofgate.RateLimit.Stage.{has_prefix}
use proofgate.Auth.Keys.{
  KeyRecord, Principal, found, missing, KeyEnv, RateLib, Middleware, calls_next, to_principal,
  resolve, handler, evict_key, new_middleware,
}
use proofgate.Auth.Keys.Cache.{answer, Agrees, resolve_lem, evict_key_lem, new_middleware-Agrees}
use proofgate.Auth.Keys.Requests.{handler-Judged}

abbrev No : Type 0
No = Unit {0}

abbrev countdown : RateLib
countdown = record {
  Limiter = ℕ;
  new_limiter = λ rate burst. burst;
  allow = λ now n. if n == 0 then (false, 0) else (true, n - 1);
  is_drained = λ now n. n == 0;
}

abbrev key_of : Bytes → KeyRecord No No
key_of tenant = record {
  tenant_id = tenant;
  tenant_name = tenant;
  tenant_policy = tt;
  key_id = codes "k";
  key_name = codes "key";
  allowed_routes = [];
  allow_direct = false;
  key_policy = tt;
}

-- The hash is the text of the key, and the hexadecimal text of a hash is the hash after `#`.
abbrev before : KeyEnv No No
before = record {
  key_by_hash = λ h.
      if str_eq h (codes "pg_a")
      then found (key_of (codes "acme"))
      else if str_eq h (codes "pg_b")
      then found (key_of (codes "bolt"))
      else missing;
  hash_key = λ key. key;
  decode_hex = λ s. elim s [ [] ↦ none | c ∷ h ↦ if c == b'#' then some h else none ];
}

-- The key of `acme` is gone.
abbrev later : KeyEnv No No
later = record before {
  key_by_hash = λ h. if str_eq h (codes "pg_b") then found (key_of (codes "bolt")) else missing;
}

abbrev fresh : Middleware No No countdown
fresh = new_middleware (to_principal (key_of [])) 0 60 10 100

abbrev warm : Middleware No No countdown
warm = (resolve 1 before fresh (codes "pg_a")).1

fresh-Agrees : Agrees before fresh
fresh-Agrees =
    new_middleware-Agrees {R = countdown} before before (to_principal (key_of [])) 0 60 10 100

resolve_lem_example :
    ((resolve 1 before fresh (codes "pg_a")).0 ≡ answer (before.key_by_hash (codes "pg_a")))
    × Agrees before warm
resolve_lem_example = resolve_lem before 1 fresh (codes "pg_a") fresh-Agrees

warm-Agrees : Agrees before warm
warm-Agrees = (resolve_lem before 1 fresh (codes "pg_a") fresh-Agrees).1

unchanged :
    (j : Bytes) → str_eq (codes "pg_a") j ≡ false → later.key_by_hash j ≡ before.key_by_hash j
unchanged j h = ground (arith, str_eq_iff j (codes "pg_a"), str_eq_iff (codes "pg_a") j)

evict_key_lem_example :
    Agrees later (evict_key before (codes "#pg_a") warm)
    × ((resolve 2 later (evict_key before (codes "#pg_a") warm) (codes "pg_a")).0
        ≡ answer (later.key_by_hash (codes "pg_a")))
evict_key_lem_example =
    evict_key_lem before later 2 warm (codes "#pg_a") (codes "pg_a") (codes "pg_a") refl unchanged
      warm-Agrees

handler-Judged_example :
    ((p : Principal No No)
      → (handler 2 before (codes "ip") (codes "pg_a") warm).0 ≡ calls_next p
      → (has_prefix (codes "pg_a") (codes "pg_") ≡ true)
        × (answer (before.key_by_hash (codes "pg_a")) ≡ found p))
    × Agrees before (handler 2 before (codes "ip") (codes "pg_a") warm).1
handler-Judged_example = handler-Judged before 2 (codes "ip") (codes "pg_a") warm warm-Agrees
