-- ===== src/Admin/Session/Validated.antt =====
-- A validation keeps the index of sessions complete.
use proofgate.Base.{
  ℕ, ◌≡◌, refl, true, some, arith, sym, inl, inr, Bool-cases, Option-cases, ◌⊎◌, subst,
}
use proofgate.Base.Bytes.{Bytes, str_eq_iff}
use proofgate.RateLimit.Stage.{has_prefix}
use proofgate.Admin.Store.{
  is_ok, SessionStore, ValueLaws, IndexLaws, session_key, user_sessions_key,
}
use proofgate.Admin.Session.{
  AdminSession, AdminConfig, Codec, CodecLaws, token_prefix, revoke_id, check_session, refresh,
  validate_session,
}
use proofgate.Admin.Session.Laws.{Result-cases, check_session-InTime, stored}
use proofgate.Admin.Session.Index.{Reliable, Indexed, revoke_id-Indexed, str_eq-session_key}

module _ (S : SessionStore) (V : ValueLaws S) (I : IndexLaws S) (R : Reliable S) (C : Codec)
    (K : CodecLaws C) (cfg : AdminConfig) where
  get-Indexed : (s : S.Store) (k : Bytes) → Indexed S C s → Indexed S C (S.get s k).1
  get-Indexed s k h id v sess hv hu = ground (
    arith,
    V.value-get s k (session_key id),
    I.has-get s k (user_sessions_key sess.username) id,
    h id v sess,
  )

  -- A check leaves the store as the read left it, or with the session revoked.
  check_leaves :
      (s : S.Store) (hash : Bytes)
      → let s1 = (S.get s (session_key hash)).1 in
        ((check_session S C cfg s hash).1 ≡ s1)
        ⊎ ((check_session S C cfg s hash).1 ≡ revoke_id S C cfg s1 hash)
  unfolding check_session
  check_leaves s hash = ground arith

  check_leaves_ok :
      (s : S.Store) (hash : Bytes)
      → is_ok (check_session S C cfg s hash).0 ≡ true
      → (check_session S C cfg s hash).1 ≡ (S.get s (session_key hash)).1
  unfolding check_session
  check_leaves_ok s hash h = ground arith

  check_session-Indexed :
      (s : S.Store) (hash : Bytes) → Indexed S C s → Indexed S C (check_session S C cfg s hash).1
  check_session-Indexed s hash h =
      let s1 = (S.get s (session_key hash)).1 in
      let h1 : Indexed S C s1 = get-Indexed s (session_key hash) h in
      elim (check_leaves s hash) [
        | inl e ↦ subst (λ t. Indexed S C t) (sym e) h1
        | inr e ↦ subst (λ t. Indexed S C t) (sym e) (revoke_id-Indexed S V I R C K cfg s1 hash h1)
      ]

  stored_listed :
      (s : S.Store) (hash : Bytes) (sess : AdminSession)
      → Indexed S C s
      → stored S C s hash ≡ some sess
      → S.has s (user_sessions_key sess.username) hash ≡ true
  unfolding stored
  stored_listed s hash sess h e = elim (Option-cases (S.value s (session_key hash))) [
    | inl n ↦ absurd (ground arith)
    | inr (v, n) ↦ h hash v sess n (ground arith)
  ]

  refresh-Indexed :
      (s : S.Store) (hash : Bytes) (active : AdminSession) (w : Bytes) (left : ℕ)
      → C.unmarshal w ≡ some active
      → S.has s (user_sessions_key active.username) hash ≡ true
      → Indexed S C s
      → Indexed S C (refresh S C cfg s hash (active, (w, left))).1
  unfolding refresh
  refresh-Indexed s hash active w left u e h id v sess hv hu =
      let k = session_key hash in
      elim (Result-cases (S.set_xx s k w left).0) [
        | inr (f, g) ↦ ground (
          arith,
          V.value-set_xx s k w left (session_key id),
          I.has-set_xx s k w left (user_sessions_key sess.username) id,
          h id v sess,
        )
        | inl (b, g) ↦ ground (
          arith,
          V.value-set_xx s k w left (session_key id),
          I.has-set_xx s k w left (user_sessions_key sess.username) id,
          str_eq-session_key hash id,
          str_eq_iff hash id,
          h id v sess,
        )
      ]

  pub validate_session-Indexed :
      (s : S.Store) (token : Bytes)
      → Indexed S C s
      → Indexed S C (validate_session S C cfg s token).1
  unfolding validate_session
  validate_session-Indexed s token h =
      let hash = C.hash_hex token in
      let k = session_key hash in
      let s1 = (check_session S C cfg s hash).1 in
      let h1 : Indexed S C s1 = check_session-Indexed s hash h in
      elim (Bool-cases (has_prefix token token_prefix)) [
        | inr p ↦ rw (p, validate_session) h
        | inl p ↦ elim (Result-cases (check_session S C cfg s hash).0) [
          | inr (f, g) ↦ rw (p, validate_session) (rw g h1)
          | inl ((active, (w, left)), g) ↦
              let (sess, st, time, act, m, l) =
                check_session-InTime S V C cfg s hash active w left g in
              let listed : S.has s1 (user_sessions_key active.username) hash ≡ true = ground (
                arith,
                check_leaves_ok s hash (rw g refl),
                I.has-get s k (user_sessions_key sess.username) hash,
                stored_listed s hash sess h st,
              ) in
              rw (p, validate_session)
                (rw g (
                  refresh-Indexed s1 hash active w left (K.unmarshal-marshal active w m) listed h1))
        ]
      ]
