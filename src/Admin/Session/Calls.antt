-- ===== src/Admin/Session/Calls.antt =====
-- The calls on sessions in any order: the index stays complete, and revoking a user finds every one
-- of the user's sessions.
use proofgate.Base.{
  ◌≡◌, refl, false, Option, none, some, List, [], ◌∷◌, if◌then◌else◌, arith, sym, ◌∙◌, inl, inr,
}
use proofgate.Base.Bytes.{Bytes, str_eq, str_eq_refl, str_eq_iff}
use proofgate.Base.Maps.{elem}
use proofgate.Admin.Store.{
  SessionStore, ValueLaws, IndexLaws, session_key, user_sessions_key, all_users_key,
}
use proofgate.Admin.Session.{
  AdminSession, AdminUser, AdminConfig, Codec, CodecLaws, create_session, session_id,
  revoke_session, validate_session, del_sessions, revoke_user,
}
use proofgate.Admin.Session.Laws.{Result-cases}
use proofgate.Admin.Session.Validated.{validate_session-Indexed}
use proofgate.Admin.Session.Index.{
  Reliable, Indexed, value-del_sessions, has-del_sessions, create_session-Indexed,
  revoke_id-Indexed, user_sessions_key_injective, session_key-users,
}

pub data SessionCall : Type 0 where
  creates : AdminUser → Bytes → Bytes → Option Bytes → SessionCall
  validates : Bytes → SessionCall
  revokes : Bytes → SessionCall
  revokes_user : Bytes → SessionCall

module _ (S : SessionStore) (C : Codec) (cfg : AdminConfig) where
  unfoldable pub session_step : S.Store → SessionCall → S.Store
  session_step s (creates user ip ua random) = (create_session S C cfg s user ip ua random).1
  session_step s (validates token) = (validate_session S C cfg s token).1
  session_step s (revokes token_or_id) = revoke_session S C cfg s token_or_id
  session_step s (revokes_user username) = (revoke_user S C cfg s username).1

  unfoldable pub session_run : S.Store → List SessionCall → S.Store
  unfolding session_step
  session_run s [] = s
  session_run s (c ∷ cs) = session_run (session_step s c) cs

all_users-user_sessions : (u : Bytes) → str_eq all_users_key (user_sessions_key u) ≡ false
unfolding all_users_key user_sessions_key str_eq
all_users-user_sessions u = refl

-- No session that the store holds names the user.
abbrev pub NoSessionOf : (S : SessionStore) → Codec → Bytes → S.Store → Type 0
NoSessionOf S C u s =
    (id v : Bytes) (sess : AdminSession)
    → S.value s (session_key id) ≡ some v
    → C.unmarshal v ≡ some sess
    → str_eq sess.username u ≡ false

module _ (S : SessionStore) (V : ValueLaws S) (I : IndexLaws S) (R : Reliable S) (C : Codec)
    (K : CodecLaws C) (cfg : AdminConfig) where
  value-purged :
      (s : S.Store) (u : Bytes) (sids : List Bytes) (id : Bytes)
      → let s1 = (del_sessions S C cfg s sids).1 in
        S.value (S.del s1 (user_sessions_key u ∷ [])).1 (session_key id)
        ≡ (if elem id sids then none else S.value s (session_key id))
  unfolding elem
  value-purged s u sids id =
      let s1 = (del_sessions S C cfg s sids).1 in
      ground (
        arith,
        V.value-del s1 (user_sessions_key u ∷ []) (session_key id),
        session_key-users id u,
        value-del_sessions S V I R C K cfg s sids id,
      )

  has-purged :
      (s : S.Store) (u w : Bytes) (sids : List Bytes) (id : Bytes)
      → str_eq w u ≡ false
      → let s1 = (del_sessions S C cfg s sids).1 in
        S.has (S.del s1 (user_sessions_key u ∷ [])).1 (user_sessions_key w) id
        ≡ S.has s (user_sessions_key w) id
  unfolding elem
  has-purged s u w sids id h =
      let s1 = (del_sessions S C cfg s sids).1 in
      ground (
        arith,
        I.has-del s1 (user_sessions_key u ∷ []) (user_sessions_key w) id,
        user_sessions_key_injective u w,
        str_eq_refl w,
        has-del_sessions S V I R C K cfg s sids w id,
      )

  -- The part that both loops of `RevokeAllUserSessions` do for a user.
  purged :
      (s : S.Store) (u : Bytes) (sids : List Bytes)
      → ((x : Bytes) → elem x sids ≡ S.has s (user_sessions_key u) x)
      → Indexed S C s
      → let s1 = (del_sessions S C cfg s sids).1 in
        let s2 = (S.del s1 (user_sessions_key u ∷ [])).1 in Indexed S C s2 × NoSessionOf S C u s2
  purged s u sids e h = (
    λ id v sess hv hu. ground (
      arith,
      value-purged s u sids id,
      has-purged s u sess.username sids id,
      h id v sess,
      e id,
      str_eq_iff sess.username u,
    ),
    λ id v sess hv hu.
        ground (arith, value-purged s u sids id, h id v sess, e id, str_eq_iff sess.username u),
  )

  srem_users-Indexed :
      (s : S.Store) (u : Bytes) → Indexed S C s → Indexed S C (S.srem s all_users_key (u ∷ [])).1
  srem_users-Indexed s u h id v sess hv hu = ground (
    arith,
    V.value-srem s all_users_key (u ∷ []) (session_key id),
    I.has-srem s all_users_key (u ∷ []) (user_sessions_key sess.username) id,
    all_users-user_sessions sess.username,
    h id v sess,
  )

  srem_users-NoSessionOf :
      (s : S.Store) (u w : Bytes)
      → NoSessionOf S C w s
      → NoSessionOf S C w (S.srem s all_users_key (u ∷ [])).1
  srem_users-NoSessionOf s u w h id v sess hv hu =
      ground (arith, V.value-srem s all_users_key (u ∷ []) (session_key id), h id v sess)

  smembers-Indexed : (s : S.Store) (k : Bytes) → Indexed S C s → Indexed S C (S.smembers s k).1
  smembers-Indexed s k h id v sess hv hu = ground (
    arith,
    V.value-smembers s k (session_key id),
    I.has-smembers s k (user_sessions_key sess.username) id,
    h id v sess,
  )

  pub revoke_user_lem :
      (s : S.Store) (u : Bytes)
      → Indexed S C s
      → Indexed S C (revoke_user S C cfg s u).1 × NoSessionOf S C u (revoke_user S C cfg s u).1
  unfolding revoke_user
  revoke_user_lem s u h =
      let k = user_sessions_key u in
      let s1 = (S.smembers s k).1 in
      elim (Result-cases (S.smembers s k).0) [
        | inr (f, g) ↦ absurd (ground (arith, R.reads s k))
        | inl (sids, g) ↦
            let s2 = (del_sessions S C cfg s1 sids).1 in
            let s3 = (S.del s2 (k ∷ [])).1 in
            let (h3, n3) =
              purged s1 u sids (λ x. I.smembers-ok s k sids x g ∙ sym (I.has-smembers s k k x))
                (smembers-Indexed s k h) in
            rw (g, revoke_user) (srem_users-Indexed s3 u h3, srem_users-NoSessionOf s3 u u n3)
      ]

  session_step-Indexed :
      (s : S.Store) (c : SessionCall) → Indexed S C s → Indexed S C (session_step S C cfg s c)
  unfolding session_step revoke_session
  session_step-Indexed s (creates user ip ua random) h =
      create_session-Indexed S V I R C K cfg s user ip ua random h
  session_step-Indexed s (validates token) h = validate_session-Indexed S V I R C K cfg s token h
  session_step-Indexed s (revokes t) h =
      revoke_id-Indexed S V I R C K cfg s (session_id S C cfg t) h
  session_step-Indexed s (revokes_user u) h = (revoke_user_lem s u h).0

  pub session_run-Indexed :
      (s : S.Store) (cs : List SessionCall) → Indexed S C s → Indexed S C (session_run S C cfg s cs)
  unfolding session_run
  session_run-Indexed s [] h = h
  session_run-Indexed s (c ∷ cs) h =
      session_run-Indexed (session_step S C cfg s c) cs (session_step-Indexed s c h)

  -- While the deletions and the calls on the sets go through: after any creations, validations and
  -- revocations on a store whose sessions are all in the index of their user, every session is in
  -- the index again, and revoking a user leaves no session that names the user.
  pub revoke_user_complete :
      (s : S.Store) (cs : List SessionCall) (u : Bytes)
      → Indexed S C s
      → Indexed S C (session_run S C cfg s cs)
        × NoSessionOf S C u (revoke_user S C cfg (session_run S C cfg s cs) u).1
  revoke_user_complete s cs u h =
      let run : Indexed S C (session_run S C cfg s cs) = session_run-Indexed s cs h in
      (run, (revoke_user_lem (session_run S C cfg s cs) u run).1)
