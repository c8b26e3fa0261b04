-- ===== src/Admin/Login/Guesses.antt =====
-- What a login leaves of the comparisons that one user at one IP has.
use proofgate.Base.{
  ℕ, suc, ◌+◌, ◌-◌, ◌<◌, ◌≤◌, ◌≡◌, refl, Bool, true, false, ◌&&◌, Option, none, some, List, [], ◌∷◌,
  ◌++◌, if◌then◌else◌, arith, inl, inr, Option-cases,
}
use proofgate.Base.Bytes.{Bytes, codes, str_eq, str_eq_iff}
use proofgate.Base.Maps.{elem}
use proofgate.Admin.Store.{
  ok, is_ok, SessionStore, CounterLaws, login_fail_key, login_fail_user_ip_key, login_fail_ip_key,
  login_fail_user_alert_key,
}
use proofgate.Admin.Roles.{validate_username}
use proofgate.Admin.Session.{AdminUser, AdminConfig, Codec, create_session, token_prefix}
use proofgate.Admin.Session.Laws.{Result-cases}
use proofgate.Admin.Login.{
  Accounts, Attempt, LoginWorld, audit, compare_noted, audit_failure, check_ip_lockout,
  check_login_lockout, count_attempt, succeed, verify, attempt, login,
}
use proofgate.Admin.Login.Keys.{user_ip_key_apart}

-- The comparisons noted for a user at an IP.
unfoldable pub tries : Bytes → Bytes → List (Bytes × Bytes) → ℕ
tries u i [] = 0
tries u i ((v, j) ∷ l) = let n = tries u i l in if str_eq v u && str_eq j i then suc n else n

-- The attempt would be let in: its user is there and enabled, and the password is the user's.
unfoldable pub is_right : Accounts → Attempt → Bool
is_right D a = elim (D.get_admin_user a.username) [
  | none ↦ false
  | some user ↦ user.enabled && D.check_password user.password_hash a.password
]

module _ (S : SessionStore) (L : CounterLaws S) (C : Codec) (D : Accounts) (cfg : AdminConfig)
    (positive : 0 < cfg.lockout_duration) (u i : Bytes) (valid : validate_username u ≡ true) where
  -- The counter of the user at the IP.
  unfoldable pub failures : S.Store → ℕ
  failures s = S.count s (login_fail_user_ip_key u i)

  unfoldable pub is_for : Attempt → Bool
  is_for a = str_eq a.username u && str_eq a.ip i

  pub failures-count_attempt :
      (s : S.Store) (a : Attempt)
      → validate_username a.username ≡ true
      → failures (count_attempt S C D cfg s a).1 ≡ (
          if is_for a && is_ok (count_attempt S C D cfg s a).0
          then suc (failures s)
          else failures s)
  unfolding count_attempt failures is_for
  failures-count_attempt s a h =
      let ttl = cfg.lockout_duration in
      let k = login_fail_user_ip_key u i in
      let k1 = login_fail_user_ip_key a.username a.ip in
      let k2 = login_fail_ip_key a.ip in
      let k3 = login_fail_user_alert_key a.username in
      let k4 = login_fail_key a.username in
      let s1 = (S.incr_with_ttl s k1 ttl).1 in
      let s2 = (S.incr_with_ttl s1 k2 ttl).1 in
      let s3 = (S.incr_with_ttl s2 k3 ttl).1 in
      let (same, ip_apart, alert_apart, user_apart, _) =
        user_ip_key_apart a.username a.ip u i [] h valid in
      ground (
        arith,
        L.count-incr s k1 ttl k positive,
        L.count-incr s1 k2 ttl k positive,
        L.count-incr s2 k3 ttl k positive,
        L.count-incr s3 k4 ttl k positive,
        str_eq_iff k1 k,
      )

  pub count_attempt-failures :
      (s : S.Store) (a : Attempt) (n m : ℕ)
      → validate_username a.username ≡ true
      → (count_attempt S C D cfg s a).0 ≡ ok (n, m)
      → is_for a ≡ true
      → n ≡ suc (failures s)
  unfolding count_attempt failures is_for
  count_attempt-failures s a n m h e f =
      let k = login_fail_user_ip_key u i in
      let k1 = login_fail_user_ip_key a.username a.ip in
      let (same, _, _, _, _) = user_ip_key_apart a.username a.ip u i [] h valid in
      ground (arith, L.incr-ok s k1 cfg.lockout_duration n, str_eq_iff k1 k)

  failures-create_session :
      (s : S.Store) (user : AdminUser) (ip ua : Bytes) (random : Option Bytes)
      → failures (create_session S C cfg s user ip ua random).1 ≡ failures s
  unfolding create_session failures
  failures-create_session s user ip ua none = refl
  failures-create_session s user ip ua (some random) =
      let hash = C.hash_hex (token_prefix ++ random) in
      let (_, _, _, _, apart) = user_ip_key_apart u i u i hash valid valid in
      grind (arith, L.count-sadd, L.count-set)

  failures-succeed :
      (w : LoginWorld S) (a : Attempt) (user : AdminUser)
      → validate_username a.username ≡ true
      → is_for a ≡ false
      → (failures (succeed S C D cfg w a user).1.sessions ≡ failures w.sessions)
        × ((succeed S C D cfg w a user).1.compared ≡ w.compared)
  unfolding succeed audit failures is_for elem
  failures-succeed w a user h f =
      let k = login_fail_user_ip_key u i in
      let k1 = login_fail_user_ip_key a.username a.ip in
      let k4 = login_fail_key a.username in
      let s1 = (S.del w.sessions (k1 ∷ k4 ∷ [])).1 in
      let (same, _, _, user_apart, _) = user_ip_key_apart a.username a.ip u i [] h valid in
      ground (
        arith,
        L.count-del w.sessions (k1 ∷ k4 ∷ []) k,
        failures-create_session s1 user a.ip a.user_agent a.random,
      )

  audit_failure_frame :
      (w : LoginWorld S) (a : Attempt) (why : Bytes) (n : ℕ)
      → ((audit_failure cfg w a why n).sessions ≡ w.sessions)
        × ((audit_failure cfg w a why n).compared ≡ w.compared)
  unfolding audit_failure audit
  audit_failure_frame w a why n = ground arith

  pub tries-verify :
      (w : LoginWorld S) (a : Attempt) (n : ℕ)
      → validate_username a.username ≡ true
      → (is_for a ≡ true → is_right D a ≡ false)
      → (tries u i (verify S C D cfg w a n).1.compared
          ≡ (if is_for a then suc (tries u i w.compared) else tries u i w.compared))
        × (failures (verify S C D cfg w a n).1.sessions ≡ failures w.sessions)
  unfolding verify compare_noted tries is_for is_right
  tries-verify w a n h wrong =
      let w1 = compare_noted w a in
      elim (Option-cases (D.get_admin_user a.username)) [
        | inl e ↦ rw (e, verify) (ground (arith, audit_failure_frame w1 a (codes "not_found") n))
        | inr (user, e) ↦
            rw (e, verify)
              (ground (
                arith,
                wrong,
                audit_failure_frame w1 a (codes "disabled") n,
                audit_failure_frame w1 a (codes "invalid_password") n,
                failures-succeed w1 a user h,
              ))
      ]

  -- What the user at the IP can still try, with what has been tried.
  unfoldable pub spent : LoginWorld S → ℕ
  spent w = tries u i w.compared + (cfg.max_login_attempts - failures w.sessions)

  spent-attempt :
      (w : LoginWorld S) (a : Attempt)
      → validate_username a.username ≡ true
      → (is_for a ≡ true → is_right D a ≡ false)
      → spent (attempt S C D cfg w a).1 ≤ spent w
  unfolding attempt spent audit
  spent-attempt w a h wrong =
      let s1 = (count_attempt S C D cfg w.sessions a).1 in
      let w1 = record w { sessions = s1 } in
      elim (Result-cases (count_attempt S C D cfg w.sessions a).0) [
        | inr (f, g) ↦ ground (arith, failures-count_attempt w.sessions a h)
        | inl ((n, m), g) ↦ ground (
          arith,
          failures-count_attempt w.sessions a h,
          count_attempt-failures w.sessions a n m h g,
          tries-verify w1 a n h wrong,
        )
      ]

  pub spent-login :
      (w : LoginWorld S) (a : Attempt)
      → (is_for a ≡ true → is_right D a ≡ false)
      → spent (login S C D cfg w a).1 ≤ spent w
  unfolding login check_ip_lockout check_login_lockout spent failures audit
  spent-login w a wrong =
      let k = login_fail_user_ip_key u i in
      let (r1, s1) = check_ip_lockout S C D cfg w.sessions a.ip in
      let (r2, s2) = check_login_lockout S C D cfg s1 a.username a.ip in
      ground (
        arith,
        L.count-get_with_ttl w.sessions (login_fail_ip_key a.ip) k,
        L.count-get_with_ttl s1 (login_fail_key a.username) k,
        L.count-get_with_ttl s1 (login_fail_user_ip_key a.username a.ip) k,
        spent-attempt (record w { sessions = s2 }) a,
        wrong,
      )
