-- ===== src/Admin/Login/Entry.antt =====
-- Whom a login lets in.
use proofgate.Base.{
  ℕ, ◌≡◌, refl, true, Option, none, some, [], ◌∷◌, ◌++◌, arith, sym, ap, subst, ◌∙◌, inl, inr,
  Option-cases,
}
use proofgate.Base.Bytes.{Bytes, str_eq_refl}
use proofgate.Admin.Store.{
  ok, SessionStore, ValueLaws, user_sessions_key, all_users_key, login_fail_user_ip_key,
  login_fail_key, session_key,
}
use proofgate.RateLimit.Stage.{has_prefix}
use proofgate.Admin.Roles.{validate_username}
use proofgate.Admin.Session.{
  AdminSession, AdminUser, AdminConfig, Codec, CodecLaws, new_session, create_session, token_prefix,
}
use proofgate.Admin.Session.Laws.{Result-cases, stored, stored_of_value}
use proofgate.Admin.Login.{
  Accounts, Attempt, LoginResult, LoginWorld, audit, check_ip_lockout, check_login_lockout,
  count_attempt, succeed, verify, attempt, login,
}

-- The attempt is by an enabled user with the user's password; the token names a session of this user,
-- with the user's role, which the store holds.
pub record Entered (S : SessionStore) (C : Codec) (D : Accounts) (a : Attempt) (token : Bytes)
    (sess : AdminSession) (s : S.Store) : Type 0 where
  pub user : AdminUser
  pub valid : validate_username a.username ≡ true
  pub found : D.get_admin_user a.username ≡ some user
  pub enabled : user.enabled ≡ true
  pub right : D.check_password user.password_hash a.password ≡ true
  pub owner : sess.username ≡ user.username
  pub role : sess.role ≡ user.role
  pub is_token : has_prefix token token_prefix ≡ true
  pub held : stored S C s (C.hash_hex token) ≡ some sess

has_prefix-append : (p s : Bytes) → has_prefix (p ++ s) p ≡ true
unfolding has_prefix
has_prefix-append [] [] = refl
has_prefix-append [] (c ∷ s) = refl
has_prefix-append (c ∷ p) s = ground (arith, has_prefix-append p s)

module _ (S : SessionStore) (V : ValueLaws S) (C : Codec) (K : CodecLaws C) (D : Accounts)
    (cfg : AdminConfig) where
  create_session-stored :
      (s : S.Store) (user : AdminUser) (ip ua : Bytes) (random : Option Bytes) (token : Bytes)
      (sess : AdminSession)
      → (create_session S C cfg s user ip ua random).0 ≡ ok (token, sess)
      → (sess.username ≡ user.username)
        × (sess.role ≡ user.role)
        × (has_prefix token token_prefix ≡ true)
        × (stored S C (create_session S C cfg s user ip ua random).1 (C.hash_hex token) ≡ some sess)
  unfolding create_session new_session
  create_session-stored s user ip ua none token sess h = absurd (ground arith)
  create_session-stored s user ip ua (some random) token sess h =
      let t = token_prefix ++ random in
      let k = session_key (C.hash_hex t) in
      let made = new_session (S.now s) (C.hash_hex t) user ip ua in
      elim (Option-cases (C.marshal made)) [
        | inl e ↦ absurd (ground arith)
        | inr (w, e) ↦ elim (Result-cases (S.set s k w cfg.session_abs_timeout).0) [
          | inr (f, g) ↦ absurd (ground arith)
          | inl (_, g) ↦
              let s1 = (S.set s k w cfg.session_abs_timeout).1 in
              let s2 = (S.sadd s1 (user_sessions_key user.username) (C.hash_hex t ∷ [])).1 in
              let s3 = (S.sadd s2 all_users_key (user.username ∷ [])).1 in
              let v : S.value s3 k ≡ some w = ground (
                arith,
                V.value-sadd s2 all_users_key (user.username ∷ []) k,
                V.value-sadd s1 (user_sessions_key user.username) (C.hash_hex t ∷ []) k,
                V.value-set s k w cfg.session_abs_timeout k,
                str_eq_refl k,
              ) in
              ground (
                arith,
                has_prefix-append token_prefix random,
                stored_of_value S V C cfg s3 (C.hash_hex t) w v,
                K.unmarshal-marshal made w e,
              )
        ]
      ]

  verify-Entered :
      (w : LoginWorld S) (a : Attempt) (n : ℕ) (token : Bytes) (sess : AdminSession)
      → validate_username a.username ≡ true
      → (verify S C D cfg w a n).0 ≡ ok (token, sess)
      → Entered S C D a token sess (verify S C D cfg w a n).1.sessions
  unfolding verify succeed audit
  verify-Entered w a n token sess v h = elim (Option-cases (D.get_admin_user a.username)) [
    | inl e ↦ absurd (ground arith)
    | inr (user, e) ↦
        let k1 = login_fail_user_ip_key a.username a.ip in
        let s1 = (S.del w.sessions (k1 ∷ login_fail_key a.username ∷ [])).1 in
        let made = create_session-stored s1 user a.ip a.user_agent a.random token sess in
        record {
          user = user;
          valid = v;
          found = e;
          enabled = ground arith;
          right = ground arith;
          owner = ground (arith, made);
          role = ground (arith, made);
          is_token = ground (arith, made);
          held = ground (arith, made);
        }
  ]

  attempt-ok :
      (w : LoginWorld S) (a : Attempt) (x : Bytes × AdminSession)
      → (attempt S C D cfg w a).0 ≡ ok x
      → (w1 : LoginWorld S) × (n : ℕ) × (attempt S C D cfg w a ≡ verify S C D cfg w1 a n)
  unfolding attempt
  attempt-ok w a x h = elim (Result-cases (count_attempt S C D cfg w.sessions a).0) [
    | inr (f, g) ↦ absurd (ground arith)
    | inl ((n, m), g) ↦
        (record w { sessions = (count_attempt S C D cfg w.sessions a).1 }, n, ground arith)
  ]

  login-ok :
      (w : LoginWorld S) (a : Attempt) (x : Bytes × AdminSession)
      → (login S C D cfg w a).0 ≡ ok x
      → (validate_username a.username ≡ true)
        × ((w1 : LoginWorld S) × (login S C D cfg w a ≡ attempt S C D cfg w1 a))
  unfolding login
  login-ok w a x h =
      let (r, s1) = check_ip_lockout S C D cfg w.sessions a.ip in
      let s2 = (check_login_lockout S C D cfg s1 a.username a.ip).1 in
      (ground arith, (record w { sessions = s2 }, ground arith))

  -- A login that answers with a token and a session is by an enabled user, under a username of the
  -- allowed form and with the user's password; the token has the prefix of tokens, the session names
  -- the user and has the user's role, and the store then holds it under the token's hash.
  pub login-Entered :
      (w : LoginWorld S) (a : Attempt) (token : Bytes) (sess : AdminSession)
      → (login S C D cfg w a).0 ≡ ok (token, sess)
      → Entered S C D a token sess (login S C D cfg w a).1.sessions
  login-Entered w a token sess h =
      let (v, (w1, e)) = login-ok w a (token, sess) h in
      let h1 : (attempt S C D cfg w1 a).0 ≡ ok (token, sess) =
        sym (ap (λ (p : LoginResult × LoginWorld S). p.0) e) ∙ h in
      let (w2, n, e2) = attempt-ok w1 a (token, sess) h1 in
      let h2 : (verify S C D cfg w2 a n).0 ≡ ok (token, sess) =
        sym (ap (λ (p : LoginResult × LoginWorld S). p.0) e2) ∙ h1 in
      subst (λ (p : LoginResult × LoginWorld S). Entered S C D a token sess p.1.sessions)
        (sym (e ∙ e2)) (verify-Entered w2 a n token sess v h2)
