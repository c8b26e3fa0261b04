-- ===== src/Admin/Login.antt =====
-- internal/adminauth/login.go over the interfaces of the session store and of the accounts. A
-- password check is a parameter, and so is the hash for users that are not there; the log line for
-- a user with a hundred failures is left out.
pub mod Keys
pub mod Guesses
pub mod Races
pub mod Entry
use proofgate.Base.{
  ℕ, ◌+◌, ◌/◌, ◌≡◌, Bool, true, false, not, ◌&&◌, ◌||◌, Option, none, some, List, [], ◌∷◌, ◌++◌,
  ltb, leb, ◌==◌, if◌then◌else◌,
}
use proofgate.Base.Bytes.{Bytes, codes, str_eq}
use proofgate.RateLimit.Stage.{has_prefix}
use proofgate.Router.Route.{is_empty}
use proofgate.Admin.Store.{
  AdminError, account_locked, ip_rate_limited, invalid_credentials, invalid_session_token, Result,
  ok, err, SessionStore, session_key, login_fail_key, login_fail_user_ip_key, login_fail_ip_key,
  login_fail_user_alert_key,
}
use proofgate.Admin.Roles.{validate_username}
use proofgate.Admin.Session.{
  AdminSession, AdminUser, AdminConfig, Codec, token_prefix, create_session, revoke_session,
}

-- The detail of an audit event besides the IP.
pub data AuditDetail : Type 0 where
  retry_after_s : ℕ → AuditDetail
  attempts : ℕ → AuditDetail
  reason : Bytes → ℕ → AuditDetail
  session : Bytes → AuditDetail

pub record Audit : Type 0 where
  pub actor : Bytes
  pub action : Bytes
  pub ip : Bytes
  pub detail : AuditDetail
  pub result : Bytes

-- The accounts, and bcrypt's comparison.
pub record Accounts : Type 0 where
  pub get_admin_user : Bytes → Option AdminUser
  pub check_password : Bytes → Bytes → Bool
  pub dummy_hash : Bytes

-- The events recorded and the passwords compared so far, the latest first; a comparison is noted by
-- its user and IP.
pub record LoginWorld (S : SessionStore) : Type 0 where
  pub sessions : S.Store
  pub audits : List Audit
  pub compared : List (Bytes × Bytes)

pub record Attempt : Type 0 where
  pub username : Bytes
  pub password : Bytes
  pub ip : Bytes
  pub user_agent : Bytes
  pub random : Option Bytes

abbrev pub LoginResult : Type 0
LoginResult = Result (Bytes × AdminSession)

-- `if ttl <= 0 { ttl = s.cfg.LockoutDuration }`, when the counter has reached the ceiling
unfoldable pub lockout : AdminConfig → ℕ → Result (ℕ × ℕ) → Result (Option ℕ)
lockout cfg ceiling (err e) = err e
lockout cfg ceiling (ok (n, ttl)) =
    if leb ceiling n then ok (some (if ttl == 0 then cfg.lockout_duration else ttl)) else ok none

abbrev pub or_zero : Result ℕ → ℕ
or_zero (ok n) = n
or_zero (err e) = 0

abbrev pub max_ip_failures : ℕ
max_ip_failures = 30

unfoldable pub audit :
    {S : SessionStore} → LoginWorld S → Attempt → Bytes → AuditDetail → Bytes → LoginWorld S
audit w a action detail result = record w {
  audits =
      record { actor = a.username; action = action; ip = a.ip; detail = detail; result = result }
      ∷ w.audits;
}

unfoldable pub compare_noted : {S : SessionStore} → LoginWorld S → Attempt → LoginWorld S
compare_noted w a = record w { compared = (a.username, a.ip) ∷ w.compared }

-- The events of a failed login, with the lockout that it starts.
unfoldable pub audit_failure :
    {S : SessionStore} → AdminConfig → LoginWorld S → Attempt → Bytes → ℕ → LoginWorld S
unfolding audit
audit_failure cfg w a why n =
    let w1 = audit w a (codes "login_failed") (reason why n) (codes "denied") in
    if n == cfg.max_login_attempts
    then audit w1 a (codes "login_locked") (attempts n) (codes "denied")
    else w1

module _ (S : SessionStore) (C : Codec) (D : Accounts) (cfg : AdminConfig) where
  unfoldable pub check_ip_lockout : S.Store → Bytes → Result (Option ℕ) × S.Store
  unfolding lockout
  check_ip_lockout s ip =
      let (r, s1) = S.get_with_ttl s (login_fail_ip_key ip) in (lockout cfg max_ip_failures r, s1)

  unfoldable pub check_login_lockout : S.Store → Bytes → Bytes → Result (Option ℕ) × S.Store
  unfolding lockout
  check_login_lockout s username ip =
      let key =
        if is_empty ip then login_fail_key username else login_fail_user_ip_key username ip in
      let (r, s1) = S.get_with_ttl s key in (lockout cfg cfg.max_login_attempts r, s1)

  -- The four increments: the counts of the user at the IP and of the IP, where only the first one's
  -- failure ends the login.
  unfoldable pub count_attempt : S.Store → Attempt → Result (ℕ × ℕ) × S.Store
  count_attempt s a =
      let ttl = cfg.lockout_duration in
      let (r, s1) = S.incr_with_ttl s (login_fail_user_ip_key a.username a.ip) ttl in
      elim r [
        | err e ↦ (err e, s1)
        | ok n ↦
            let (r_ip, s2) = S.incr_with_ttl s1 (login_fail_ip_key a.ip) ttl in
            let (_, s3) = S.incr_with_ttl s2 (login_fail_user_alert_key a.username) ttl in
            let (_, s4) = S.incr_with_ttl s3 (login_fail_key a.username) ttl in
            (ok (n, or_zero r_ip), s4)
      ]

  unfoldable pub succeed : LoginWorld S → Attempt → AdminUser → LoginResult × LoginWorld S
  unfolding audit
  succeed w a user =
      let (_, s1) =
        S.del w.sessions
          (login_fail_user_ip_key a.username a.ip ∷ login_fail_key a.username ∷ []) in
      let (r, s2) = create_session S C cfg s1 user a.ip a.user_agent a.random in
      let w2 = record w { sessions = s2 } in
      elim r [
        | err e ↦ (err e, w2)
        | ok (token, sess) ↦
            (ok (token, sess), audit w2 a (codes "login") (session sess.id) (codes "ok"))
      ]

  -- From the lookup of the account on, in the attempt that is the `n`th
  unfoldable pub verify : LoginWorld S → Attempt → ℕ → LoginResult × LoginWorld S
  unfolding succeed audit_failure compare_noted
  verify w a n =
      let w1 = compare_noted w a in
      elim (D.get_admin_user a.username) [
        | none ↦ (err invalid_credentials, audit_failure cfg w1 a (codes "not_found") n)
        | some user ↦
            if not user.enabled
            then (err invalid_credentials, audit_failure cfg w1 a (codes "disabled") n)
            else if D.check_password user.password_hash a.password
            then succeed w1 a user
            else (err invalid_credentials, audit_failure cfg w1 a (codes "invalid_password") n)
      ]

  -- From the increments on
  unfoldable pub attempt : LoginWorld S → Attempt → LoginResult × LoginWorld S
  unfolding count_attempt verify audit
  attempt w a =
      let (r, s1) = count_attempt w.sessions a in
      let w1 = record w { sessions = s1 } in
      elim r [
        | err e ↦ (err e, w1)
        | ok (n, n_ip) ↦
            if ltb max_ip_failures n_ip
            then (
              err ip_rate_limited,
              audit w1 a (codes "login_ip_locked") (attempts n_ip) (codes "denied"),
            )
            else if ltb cfg.max_login_attempts n
            then (
              err account_locked,
              audit w1 a (codes "login_locked") (attempts n) (codes "denied"),
            )
            else verify w1 a n
      ]

  unfoldable pub login : LoginWorld S → Attempt → LoginResult × LoginWorld S
  unfolding check_ip_lockout check_login_lockout attempt audit
  login w a =
      if validate_username a.username
      then (let (r, s1) = check_ip_lockout w.sessions a.ip in
          let w1 = record w { sessions = s1 } in
          elim r [
            | err e ↦ (err e, w1)
            | ok (some ttl) ↦ (
              err ip_rate_limited,
              audit w1 a (codes "login_ip_locked") (retry_after_s (ttl / 1_000_000_000))
                  (codes "denied"),
            )
            | ok none ↦
                let (r2, s2) = check_login_lockout s1 a.username a.ip in
                let w2 = record w { sessions = s2 } in
                elim r2 [
                  | err e ↦ (err e, w2)
                  | ok (some ttl) ↦ (
                    err account_locked,
                    audit w2 a (codes "login_locked") (retry_after_s (ttl / 1_000_000_000))
                        (codes "denied"),
                  )
                  | ok none ↦ attempt w2 a
                ]
          ])
      else (err invalid_credentials, w)

  unfoldable pub reset_failed_login : S.Store → Bytes → Bytes → S.Store
  reset_failed_login s username ip =
      let (_, s1) = S.del s (login_fail_key username ∷ []) in
      let (_, s2) = S.del s1 (login_fail_user_alert_key username ∷ []) in
      if is_empty ip
      then (let (r, s3) =
            S.scan s2 (codes "proofgate:login_fail:userip:" ++ (username ++ codes "|*")) in
          elim r [ err e ↦ s3 | ok [] ↦ s3 | ok (k ∷ ks) ↦ (S.del s3 (k ∷ ks)).1 ])
      else (let (_, s3) = S.del s2 (login_fail_user_ip_key username ip ∷ []) in
          (S.del s3 (login_fail_ip_key ip ∷ [])).1)

  -- The answer of `Logout` with the session's ID and the user whose logout is recorded.
  unfoldable pub logout : S.Store → Bytes → Result (Option (Bytes × Bytes)) × S.Store
  logout s token =
      if has_prefix token token_prefix
      then (let hash = C.hash_hex token in
          let (r, s1) = S.get s (session_key hash) in
          let s2 = revoke_session S C cfg s1 hash in
          elim r [
            | err e ↦ (ok none, s2)
            | ok v ↦ elim (C.unmarshal v) [
              | none ↦ (ok none, s2)
              | some sess ↦
                  (ok (if is_empty sess.username then none else some (hash, sess.username)), s2)
            ]
          ])
      else (err invalid_session_token, s)
