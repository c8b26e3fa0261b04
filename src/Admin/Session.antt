-- ===== src/Admin/Session.antt =====
-- internal/adminauth/session.go over the interface of Admin/Store. The JSON codec, SHA-256 with its
-- hexadecimal text and the random token are parameters; the log scrubber is left out.
pub mod Laws
pub mod Index
pub mod Validated
pub mod Calls
use proofgate.Base.{
  ℕ, ◌+◌, ◌-◌, ◌<◌, ◌≡◌, Bool, true, false, not, ◌&&◌, Option, none, some, List, [], ◌∷◌, ◌++◌, ltb,
  leb, if◌then◌else◌,
}
use proofgate.Base.Bytes.{Bytes, codes, str_eq}
use proofgate.RateLimit.Stage.{has_prefix}
use proofgate.Router.Route.{is_empty}
use proofgate.Admin.Store.{
  AdminError, session_not_found, session_expired, session_idle, invalid_session_token, codec_error,
  token_error, Result, ok, err, SessionStore, session_key, user_sessions_key, all_users_key,
}

pub record AdminSession : Type 0 where
  pub id : Bytes
  pub user_id : Bytes
  pub username : Bytes
  pub role : Bytes
  pub created_at : ℕ
  pub last_active_at : ℕ
  pub ip : Bytes
  pub user_agent : Bytes

-- internal/store: what the login and the sessions read of an account
pub record AdminUser : Type 0 where
  pub id : Bytes
  pub username : Bytes
  pub password_hash : Bytes
  pub role : Bytes
  pub enabled : Bool

pub record AdminConfig : Type 0 where
  pub max_login_attempts : ℕ
  pub lockout_duration : ℕ
  pub session_abs_timeout : ℕ
  pub session_idle_timeout : ℕ

-- The code of other packages that the sessions call.
pub record Codec : Type 0 where
  pub marshal : AdminSession → Option Bytes
  pub unmarshal : Bytes → Option AdminSession
  pub hash_hex : Bytes → Bytes  -- `hex.EncodeToString(sha256.Sum256(token))`

pub record CodecLaws (C : Codec) : Type 0 where
  pub unmarshal-marshal :
      (sess : AdminSession) (v : Bytes) → C.marshal sess ≡ some v → C.unmarshal v ≡ some sess

-- `errors.Is(err, ErrSessionNotFound)`
unfoldable pub not_found : AdminError → Bool
not_found session_not_found = true
not_found _ = false

abbrev pub token_prefix : Bytes
token_prefix = codes "pgadmin_"

unfoldable pub new_session : ℕ → Bytes → AdminUser → Bytes → Bytes → AdminSession
new_session now hash user ip user_agent = record {
  id = hash;
  user_id = user.id;
  username = user.username;
  role = user.role;
  created_at = now;
  last_active_at = now;
  ip = ip;
  user_agent = user_agent;
}

module _ (S : SessionStore) (C : Codec) (cfg : AdminConfig) where
  -- The answer is the token and its session; `random` is the text of the random bytes, none on error.
  unfoldable pub create_session :
      S.Store → AdminUser → Bytes → Bytes → Option Bytes → Result (Bytes × AdminSession) × S.Store
  create_session s user ip user_agent none = (err token_error, s)
  create_session s user ip user_agent (some random) =
      let token = token_prefix ++ random in
      let hash = C.hash_hex token in
      let sess = new_session (S.now s) hash user ip user_agent in
      elim (C.marshal sess) [
        | none ↦ (err codec_error, s)
        | some v ↦
            let (r, s1) = S.set s (session_key hash) v cfg.session_abs_timeout in
            elim r [
              | err e ↦ (err e, s1)
              | ok _ ↦
                  let (_, s2) = S.sadd s1 (user_sessions_key user.username) (hash ∷ []) in
                  let (_, s3) = S.sadd s2 all_users_key (user.username ∷ []) in
                  (ok (token, sess), s3)
            ]
      ]

  -- `RevokeSession` on a session's ID
  unfoldable pub revoke_id : S.Store → Bytes → S.Store
  revoke_id s id =
      let (val, s1) = S.get s (session_key id) in
      let (_, s2) = S.del s1 (session_key id ∷ []) in
      elim val [
        | err e ↦ s2
        | ok v ↦ elim (if is_empty v then none else C.unmarshal v) [
          | none ↦ s2
          | some sess ↦
              if is_empty sess.username
              then s2
              else (S.srem s2 (user_sessions_key sess.username) (id ∷ [])).1
        ]
      ]

  unfoldable pub session_id : Bytes → Bytes
  session_id token_or_id =
      if has_prefix token_or_id token_prefix then C.hash_hex token_or_id else token_or_id

  unfoldable pub revoke_session : S.Store → Bytes → S.Store
  unfolding revoke_id session_id
  revoke_session s token_or_id = revoke_id s (session_id token_or_id)

  -- The first half of `ValidateSession`, up to the write: the session as it will be written, its text
  -- and the time that it has left.
  unfoldable pub check_session : S.Store → Bytes → Result (AdminSession × (Bytes × ℕ)) × S.Store
  unfolding revoke_id
  check_session s hash =
      let (r, s1) = S.get s (session_key hash) in
      elim r [
        | err e ↦ (err e, s1)
        | ok v ↦ elim (C.unmarshal v) [
          | none ↦ (err codec_error, s1)
          | some sess ↦
              let now = S.now s1 in
              if ltb cfg.session_abs_timeout (now - sess.created_at)
              then (err session_expired, revoke_id s1 hash)
              else if ltb cfg.session_idle_timeout (now - sess.last_active_at)
              then (err session_idle, revoke_id s1 hash)
              else if leb (sess.created_at + cfg.session_abs_timeout) now
              then (err session_expired, revoke_id s1 hash)
              else (let active = record sess { last_active_at = now } in
                  elim (C.marshal active) [
                    | none ↦ (err codec_error, s1)
                    | some w ↦
                        (ok (active, (w, sess.created_at + cfg.session_abs_timeout - now)), s1)
                  ])
        ]
      ]

  -- The second half: `SetXX`, which other calls may precede.
  unfoldable pub refresh :
      S.Store → Bytes → AdminSession × (Bytes × ℕ) → Result AdminSession × S.Store
  refresh s hash (sess, (w, remaining)) =
      let (r, s1) = S.set_xx s (session_key hash) w remaining in
      elim r [
        | err e ↦ (err e, s1)
        | ok done ↦ (if done then ok sess else err session_not_found, s1)
      ]

  unfoldable pub validate_session : S.Store → Bytes → Result AdminSession × S.Store
  unfolding check_session refresh
  validate_session s token =
      if has_prefix token token_prefix
      then (let (r, s1) = check_session s (C.hash_hex token) in
          elim r [ err e ↦ (err e, s1) | ok checked ↦ refresh s1 (C.hash_hex token) checked ])
      else (err invalid_session_token, s)

  -- The loop over the IDs of one user, with the number of deletions that went through.
  unfoldable pub del_sessions : S.Store → List Bytes → ℕ × S.Store
  del_sessions s [] = (0, s)
  del_sessions s (id ∷ ids) =
      let (r, s1) = S.del s (session_key id ∷ []) in
      let (count, s2) = del_sessions s1 ids in (elim r [ ok _ ↦ count + 1 | err _ ↦ count ], s2)

  -- `RevokeAllUserSessions` for one user
  unfoldable pub revoke_user : S.Store → Bytes → Result ℕ × S.Store
  unfolding del_sessions
  revoke_user s username =
      let (r, s1) = S.smembers s (user_sessions_key username) in
      elim r [
        | err e ↦ (err e, s1)
        | ok sids ↦
            let (count, s2) = del_sessions s1 sids in
            let (_, s3) = S.del s2 (user_sessions_key username ∷ []) in
            let (_, s4) = S.srem s3 all_users_key (username ∷ []) in (ok count, s4)
      ]

  -- Its loop over every user, where an index that cannot be read counts as empty
  unfoldable pub revoke_users : S.Store → List Bytes → ℕ × S.Store
  unfolding del_sessions
  revoke_users s [] = (0, s)
  revoke_users s (u ∷ us) =
      let (r, s1) = S.smembers s (user_sessions_key u) in
      let (count, s2) = del_sessions s1 (elim r [ ok sids ↦ sids | err _ ↦ [] ]) in
      let (_, s3) = S.del s2 (user_sessions_key u ∷ []) in
      let (total, s4) = revoke_users s3 us in (count + total, s4)

  unfoldable pub revoke_all_user_sessions : S.Store → Bytes → Result ℕ × S.Store
  unfolding revoke_user revoke_users
  revoke_all_user_sessions s username =
      if is_empty username
      then (let (r, s1) = S.smembers s all_users_key in
          elim r [
            | err e ↦ (err e, s1)
            | ok users ↦
                let (total, s2) = revoke_users s1 users in
                (ok total, (S.del s2 (all_users_key ∷ [])).1)
          ])
      else revoke_user s username

  -- The loops of `ListSessions` without the sort of the result
  unfoldable pub list_ids : S.Store → Bytes → List Bytes → List AdminSession × S.Store
  list_ids s u [] = ([], s)
  list_ids s u (id ∷ ids) =
      let (r, s1) = S.get s (session_key id) in
      let s2 : S.Store = elim r [
        | err e ↦ if not_found e then (S.srem s1 (user_sessions_key u) (id ∷ [])).1 else s1
        | ok v ↦ s1
      ] in
      let (rest, s3) = list_ids s2 u ids in
      let found : List AdminSession = elim r [
        | err _ ↦ rest
        | ok v ↦ elim (C.unmarshal v) [ none ↦ rest | some sess ↦ sess ∷ rest ]
      ] in
      (found, s3)

  unfoldable pub list_users : S.Store → List Bytes → List AdminSession × S.Store
  unfolding list_ids
  list_users s [] = ([], s)
  list_users s (u ∷ us) =
      let (r, s1) = S.smembers s (user_sessions_key u) in
      let (here, s2) = list_ids s1 u (elim r [ ok sids ↦ sids | err _ ↦ [] ]) in
      let (rest, s3) = list_users s2 us in (here ++ rest, s3)

  -- `ListSessions` before its sort by the time of creation
  unfoldable pub list_sessions : S.Store → Bytes → Result (List AdminSession) × S.Store
  unfolding list_users
  list_sessions s username =
      if is_empty username
      then (let (r, s1) = S.smembers s all_users_key in
          elim r [
            | err e ↦ (err e, s1)
            | ok users ↦ let (found, s2) = list_users s1 users in (ok found, s2)
          ])
      else (let (found, s1) = list_users s (username ∷ []) in (ok found, s1))
