-- ===== src/Admin/Session/Index.antt =====
-- The index of sessions by user: a session under its key is in the set of its user, so that
-- `RevokeAllUserSessions` finds it.
use proofgate.Base.{
  ℕ, ◌≡◌, refl, true, false, Option, none, some, List, [], ◌∷◌, ◌++◌, if◌then◌else◌, arith, length,
  length-append, ap, sym, ◌∙◌, inl, inr, Option-cases,
}
use proofgate.Base.Bytes.{Bytes, codes, str_eq, str_eq_refl, str_eq_iff}
use proofgate.Base.Maps.{elem}
use proofgate.Admin.Store.{
  is_ok, SessionStore, ValueLaws, IndexLaws, session_key, user_sessions_key, all_users_key,
}
use proofgate.Admin.Session.{
  AdminSession, AdminUser, AdminConfig, Codec, CodecLaws, token_prefix, new_session, create_session,
  revoke_id, del_sessions,
}
use proofgate.Admin.Session.Laws.{Result-cases}

-- The keys of sessions, of users and of the set of all users are apart, and each tells its owner.
str_eq-append : (p s t : Bytes) → str_eq (p ++ s) (p ++ t) ≡ str_eq s t
unfolding str_eq
str_eq-append [] s t = refl
str_eq-append (c ∷ p) s t = ground (arith, str_eq-append p s t)

pub str_eq-session_key : (x y : Bytes) → str_eq (session_key x) (session_key y) ≡ str_eq x y
unfolding session_key
str_eq-session_key x y = str_eq-append (codes "proofgate:session:") x y

pub session_key-users : (x u : Bytes) → str_eq (user_sessions_key u) (session_key x) ≡ false
unfolding session_key user_sessions_key str_eq
session_key-users x u = refl

str_eq-suffix : (s t r : Bytes) → str_eq (s ++ r) (t ++ r) ≡ true → length s ≡ length t → s ≡ t
unfolding str_eq
str_eq-suffix [] [] r h e = refl
str_eq-suffix (a ∷ s) (b ∷ t) r h e = ground (arith, str_eq-suffix s t r)
str_eq-suffix [] (b ∷ t) r h e = absurd (omega arith)
str_eq-suffix (a ∷ s) [] r h e = absurd (omega arith)

pub user_sessions_key_injective :
    (u w : Bytes) → str_eq (user_sessions_key u) (user_sessions_key w) ≡ true → u ≡ w
unfolding user_sessions_key
user_sessions_key_injective u w h =
    let p = codes "proofgate:user_sessions:{" in
    let e : str_eq (u ++ codes "}") (w ++ codes "}") ≡ true =
      sym (str_eq-append p (u ++ codes "}") (w ++ codes "}")) ∙ h in
    let same : u ++ codes "}" ≡ w ++ codes "}" = (str_eq_iff _ _).0 e in
    str_eq-suffix u w (codes "}") e
      (omega (arith, ap length same, length-append u (codes "}"), length-append w (codes "}")))

-- The calls on which the index rests go through.
pub record Reliable (S : SessionStore) : Type 0 where
  pub dels : (s : S.Store) (ks : List Bytes) → is_ok (S.del s ks).0 ≡ true
  pub adds : (s : S.Store) (k : Bytes) (l : List Bytes) → is_ok (S.sadd s k l).0 ≡ true
  pub reads : (s : S.Store) (k : Bytes) → is_ok (S.smembers s k).0 ≡ true

-- Every session that the store holds is in the index of the user that it names.
abbrev pub Indexed : (S : SessionStore) → Codec → S.Store → Type 0
Indexed S C s =
    (id v : Bytes) (sess : AdminSession)
    → S.value s (session_key id) ≡ some v
    → C.unmarshal v ≡ some sess
    → S.has s (user_sessions_key sess.username) id ≡ true

module _ (S : SessionStore) (V : ValueLaws S) (I : IndexLaws S) (R : Reliable S) (C : Codec)
    (K : CodecLaws C) (cfg : AdminConfig) where
  pub value-del_sessions :
      (s : S.Store) (ids : List Bytes) (id : Bytes)
      → S.value (del_sessions S C cfg s ids).1 (session_key id)
        ≡ (if elem id ids then none else S.value s (session_key id))
  unfolding del_sessions elem
  value-del_sessions s [] id = refl
  value-del_sessions s (x ∷ ids) id =
      let k = session_key x ∷ [] in
      let s1 = (S.del s k).1 in
      rw (value-del_sessions s1 ids id)
        (ground (arith, R.dels s k, V.value-del s k (session_key id), str_eq-session_key x id))

  has-del_session :
      (s : S.Store) (x u id : Bytes)
      → S.has (S.del s (session_key x ∷ [])).1 (user_sessions_key u) id
        ≡ S.has s (user_sessions_key u) id
  unfolding elem
  has-del_session s x u id = I.has-del s (session_key x ∷ []) (user_sessions_key u) id (
      ground (
        arith,
        session_key-users x u,
        str_eq_iff (session_key x) (user_sessions_key u),
        str_eq_refl (session_key x),
      ))

  pub has-del_sessions :
      (s : S.Store) (ids : List Bytes) (u id : Bytes)
      → S.has (del_sessions S C cfg s ids).1 (user_sessions_key u) id
        ≡ S.has s (user_sessions_key u) id
  unfolding del_sessions
  has-del_sessions s [] u id = refl
  has-del_sessions s (x ∷ ids) u id =
      has-del_sessions (S.del s (session_key x ∷ [])).1 ids u id ∙ has-del_session s x u id

  add_session-Indexed :
      (s : S.Store) (hash w : Bytes) (ttl : ℕ) (sess : AdminSession)
      → C.unmarshal w ≡ some sess
      → Indexed S C s
      → let s1 = (S.set s (session_key hash) w ttl).1 in
        let s2 = (S.sadd s1 (user_sessions_key sess.username) (hash ∷ [])).1 in
        Indexed S C (S.sadd s2 all_users_key (sess.username ∷ [])).1
  unfolding elem
  add_session-Indexed s hash w ttl sess u h id v other hv hu =
      let s1 = (S.set s (session_key hash) w ttl).1 in
      let s2 = (S.sadd s1 (user_sessions_key sess.username) (hash ∷ [])).1 in
      let j = user_sessions_key other.username in
      ground (
        arith,
        V.value-sadd s2 all_users_key (sess.username ∷ []) (session_key id),
        V.value-sadd s1 (user_sessions_key sess.username) (hash ∷ []) (session_key id),
        V.value-set s (session_key hash) w ttl (session_key id),
        str_eq-session_key hash id,
        I.has-sadd s2 all_users_key (sess.username ∷ []) j id,
        I.has-sadd s1 (user_sessions_key sess.username) (hash ∷ []) j id,
        I.has-set s (session_key hash) w ttl j id,
        h id v other,
        R.adds s1 (user_sessions_key sess.username) (hash ∷ []),
        str_eq_refl j,
      )

  set_fails-Indexed :
      (s : S.Store) (k w : Bytes) (ttl : ℕ)
      → is_ok (S.set s k w ttl).0 ≡ false
      → Indexed S C s
      → Indexed S C (S.set s k w ttl).1
  set_fails-Indexed s k w ttl f h id v sess hv hu = ground (
    arith,
    V.value-set s k w ttl (session_key id),
    I.has-set s k w ttl (user_sessions_key sess.username) id,
    h id v sess,
  )

  pub create_session-Indexed :
      (s : S.Store) (user : AdminUser) (ip user_agent : Bytes) (random : Option Bytes)
      → Indexed S C s
      → Indexed S C (create_session S C cfg s user ip user_agent random).1
  unfolding create_session
  create_session-Indexed s user ip ua none h = h
  create_session-Indexed s user ip ua (some random) h =
      let hash = C.hash_hex (token_prefix ++ random) in
      let sess = new_session (S.now s) hash user ip ua in
      elim (Option-cases (C.marshal sess)) [
        | inl e ↦ rw (e, create_session) h
        | inr (w, e) ↦
            elim (Result-cases (S.set s (session_key hash) w cfg.session_abs_timeout).0) [
              | inr (f, g) ↦
                  rw (e, create_session)
                    (rw g (
                      set_fails-Indexed s (session_key hash) w cfg.session_abs_timeout (rw g refl)
                        h))
              | inl (_, g) ↦
                  rw (e, create_session)
                    (rw g (
                      unfold new_session in
                      add_session-Indexed s hash w cfg.session_abs_timeout sess
                        (K.unmarshal-marshal sess w e) h))
            ]
      ]

  pub value-revoke_id :
      (s : S.Store) (x id : Bytes)
      → S.value (revoke_id S C cfg s x) (session_key id)
        ≡ (if str_eq x id then none else S.value s (session_key id))
  unfolding revoke_id elem
  value-revoke_id s x id =
      let k = session_key x in
      let s1 = (S.get s k).1 in
      grind (
        arith,
        V.value-srem,
        V.value-get s k (session_key id),
        V.value-del s1 (k ∷ []) (session_key id),
        R.dels s1 (k ∷ []),
        str_eq-session_key x id,
      )

  pub has-revoke_id :
      (s : S.Store) (x u id : Bytes)
      → str_eq x id ≡ false
      → S.has (revoke_id S C cfg s x) (user_sessions_key u) id ≡ S.has s (user_sessions_key u) id
  unfolding revoke_id elem
  has-revoke_id s x u id h =
      let s1 = (S.get s (session_key x)).1 in
      grind (
        arith,
        I.has-srem,
        I.has-get s (session_key x) (user_sessions_key u) id,
        has-del_session s1 x u id,
      )

  pub revoke_id-Indexed :
      (s : S.Store) (x : Bytes) → Indexed S C s → Indexed S C (revoke_id S C cfg s x)
  revoke_id-Indexed s x h id v sess hv hu =
      ground (arith, value-revoke_id s x id, has-revoke_id s x sess.username id, h id v sess)
