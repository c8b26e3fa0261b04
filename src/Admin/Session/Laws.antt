-- ===== src/Admin/Session/Laws.antt =====
-- A session that is validated, and one that is revoked.
use proofgate.Base.{
  ℕ, ◌+◌, ◌-◌, ◌<◌, ◌≤◌, ◌≡◌, refl, true, false, Option, none, some, [], ◌∷◌, arith, ◌∙◌, ◌⊎◌, inl,
  inr, Bool-cases, Option-cases,
}
use proofgate.Base.Bytes.{Bytes, str_eq_refl}
use proofgate.Base.Maps.{elem}
use proofgate.RateLimit.Stage.{has_prefix}
use proofgate.Admin.Store.{AdminError, Result, ok, err, is_ok, SessionStore, ValueLaws, session_key}
use proofgate.Admin.Session.{
  AdminSession, AdminConfig, Codec, CodecLaws, token_prefix, revoke_id, session_id, revoke_session,
  check_session, refresh, validate_session,
}

pub Result-cases {ℓ} :
    {A : Type ℓ} (r : Result A) → ((a : A) × (r ≡ ok a)) ⊎ ((e : AdminError) × (r ≡ err e))
Result-cases (ok a) = inl (a, refl)
Result-cases (err e) = inr (e, refl)

-- The session that the store holds under a hash.
unfoldable pub stored : (S : SessionStore) → Codec → S.Store → Bytes → Option AdminSession
stored S C s hash = elim (S.value s (session_key hash)) [ none ↦ none | some v ↦ C.unmarshal v ]

-- The stored session has been seen within the idle timeout, and its absolute timeout is ahead.
pub record InTime (cfg : AdminConfig) (now : ℕ) (sess : AdminSession) : Type 0 where
  pub not_idle : now ≤ sess.last_active_at + cfg.session_idle_timeout
  pub not_over : now < sess.created_at + cfg.session_abs_timeout

module _ (S : SessionStore) (L : ValueLaws S) (C : Codec) (cfg : AdminConfig) where
  get-stored :
      (s : S.Store) (hash v : Bytes)
      → (S.get s (session_key hash)).0 ≡ ok v
      → stored S C s hash ≡ C.unmarshal v
  unfolding stored
  get-stored s hash v h = rw (stored, L.get-ok s (session_key hash) v h) refl

  pub check_session-InTime :
      (s : S.Store) (hash : Bytes) (active : AdminSession) (w : Bytes) (left : ℕ)
      → (check_session S C cfg s hash).0 ≡ ok (active, (w, left))
      → (sess : AdminSession) × (stored S C s hash ≡ some sess)
        × InTime cfg (S.now s) sess
        × (active ≡ record sess { last_active_at = S.now s })
        × (C.marshal active ≡ some w)
        × (left ≡ sess.created_at + cfg.session_abs_timeout - S.now s)
  unfolding check_session
  check_session-InTime s hash active w left h = elim (Result-cases (S.get s (session_key hash)).0) [
    | inr (e, g) ↦ absurd (ground arith)
    | inl (v, g) ↦ elim (Option-cases (C.unmarshal v)) [
      | inl u ↦ absurd (ground arith)
      | inr (sess, u) ↦ (
        sess,
        get-stored s hash v g ∙ u,
        ground (arith, L.now-get s (session_key hash)),
        ground (arith, L.now-get s (session_key hash)),
        ground (arith, L.now-get s (session_key hash)),
        ground (arith, L.now-get s (session_key hash)),
      )
    ]
  ]

  pub stored_of_value :
      (s : S.Store) (hash w : Bytes)
      → S.value s (session_key hash) ≡ some w
      → stored S C s hash ≡ C.unmarshal w
  unfolding stored
  stored_of_value s hash w h = rw (stored, h) refl

  refresh-stored :
      CodecLaws C
      → (s : S.Store) (hash : Bytes) (active : AdminSession) (w : Bytes) (left : ℕ)
        (a : AdminSession)
      → C.marshal active ≡ some w
      → (refresh S C cfg s hash (active, (w, left))).0 ≡ ok a
      → (a ≡ active)
        × (stored S C (refresh S C cfg s hash (active, (w, left))).1 hash ≡ some active)
  unfolding refresh
  refresh-stored K s hash active w left a m h =
      let k = session_key hash in
      elim (Result-cases (S.set_xx s k w left).0) [
        | inr (e, g) ↦ absurd (ground arith)
        | inl (b, g) ↦
            let v : S.value (S.set_xx s k w left).1 k ≡ some w =
              ground
                (arith, L.value-set_xx s k w left k, L.set_xx-ok s k w left b g, str_eq_refl k) in
            (
              ground arith,
              rw (g, refresh)
                  (stored_of_value (S.set_xx s k w left).1 hash w v
                    ∙ K.unmarshal-marshal active w m),
            )
      ]

  -- A token is validated only with the prefix `pgadmin_` and with a stored session that was active
  -- within the idle timeout and whose absolute timeout is ahead. The answer is that session with the
  -- present as its last activity, and the store then holds it.
  pub validate_session-InTime :
      CodecLaws C
      → (s : S.Store) (token : Bytes) (a : AdminSession)
      → (validate_session S C cfg s token).0 ≡ ok a
      → (has_prefix token token_prefix ≡ true)
        × ((sess : AdminSession) × (stored S C s (C.hash_hex token) ≡ some sess)
            × InTime cfg (S.now s) sess
            × (a ≡ record sess { last_active_at = S.now s })
            × (stored S C (validate_session S C cfg s token).1 (C.hash_hex token) ≡ some a))
  unfolding validate_session
  validate_session-InTime K s token a h =
      let hash = C.hash_hex token in
      elim (Bool-cases (has_prefix token token_prefix)) [
        | inr p ↦ absurd (ground arith)
        | inl p ↦ elim (Result-cases (check_session S C cfg s hash).0) [
          | inr (e, g) ↦ absurd (ground arith)
          | inl ((active, (w, left)), g) ↦
              let (sess, st, time, act, m, l) = check_session-InTime s hash active w left g in
              let s1 = (check_session S C cfg s hash).1 in
              let r : (refresh S C cfg s1 hash (active, (w, left))).0 ≡ ok a = ground arith in
              let (e, done) = refresh-stored K s1 hash active w left a m r in
              (p, (sess, st, time, e ∙ act, ground arith))
        ]
      ]

  revoked_gone :
      (s : S.Store) (id : Bytes)
      → is_ok (S.del (S.get s (session_key id)).1 (session_key id ∷ [])).0 ≡ true
      → S.value (revoke_id S C cfg s id) (session_key id) ≡ none
  unfolding revoke_id elem
  revoked_gone s id h =
      let k = session_key id in
      let s1 = (S.get s k).1 in
      let s2 = (S.del s1 (k ∷ [])).1 in
      let v : S.value s2 k ≡ none = ground (arith, L.value-del s1 (k ∷ []) k, str_eq_refl k) in
      grind (arith, L.value-srem)

  missing_fails :
      (s : S.Store) (hash : Bytes)
      → S.value s (session_key hash) ≡ none
      → is_ok (check_session S C cfg s hash).0 ≡ false
  unfolding check_session
  missing_fails s hash h = ground (arith, L.get-none s (session_key hash) h)

  refresh_fails :
      (s : S.Store) (hash : Bytes) (checked : AdminSession × (Bytes × ℕ))
      → S.value s (session_key hash) ≡ none
      → (is_ok (refresh S C cfg s hash checked).0 ≡ false)
        × (S.value (refresh S C cfg s hash checked).1 (session_key hash) ≡ none)
  unfolding refresh
  refresh_fails s hash (active, (w, left)) h =
      let k = session_key hash in
      elim (Result-cases (S.set_xx s k w left).0) [
        | inr (e, g) ↦ ground (arith, L.value-set_xx s k w left k)
        | inl (b, g) ↦ ground (arith, L.value-set_xx s k w left k, L.set_xx-ok s k w left b g)
      ]

  validate_fails :
      (s : S.Store) (token : Bytes)
      → S.value s (session_key (C.hash_hex token)) ≡ none
      → is_ok (validate_session S C cfg s token).0 ≡ false
  unfolding validate_session
  validate_fails s token h = ground (arith, missing_fails s (C.hash_hex token) h)

  -- When the deletion in `RevokeSession` has gone through, the token is not validated any more; and a
  -- validation that had checked the session before, whatever it read, fails at its write and does
  -- not bring the session back.
  pub revoked_not_revived :
      (s : S.Store) (token : Bytes) (checked : AdminSession × (Bytes × ℕ))
      → has_prefix token token_prefix ≡ true
      → is_ok
          (S.del
            (S.get s (session_key (C.hash_hex token))).1
            (session_key (C.hash_hex token) ∷ [])).0
        ≡ true
      → (is_ok (validate_session S C cfg (revoke_session S C cfg s token) token).0 ≡ false)
        × (is_ok (refresh S C cfg (revoke_session S C cfg s token) (C.hash_hex token) checked).0
            ≡ false)
        × (S.value
              (refresh S C cfg (revoke_session S C cfg s token) (C.hash_hex token) checked).1
              (session_key (C.hash_hex token))
            ≡ none)
  unfolding revoke_session session_id
  revoked_not_revived s token checked p h =
      let gone : S.value (revoke_session S C cfg s token) (session_key (C.hash_hex token)) ≡ none =
        ground (arith, revoked_gone s (C.hash_hex token) h) in
      let (fails, none_left) =
        refresh_fails (revoke_session S C cfg s token) (C.hash_hex token) checked gone in
      (validate_fails _ token gone, fails, none_left)
