-- ===== src/Admin/Gate.antt =====
-- internal/adminauth/middleware.go: what stands before the console's handlers. The token is taken from
-- the header before.
use proofgate.Base.{ℕ, ◌≡◌, true, Option, none, some, if◌then◌else◌, arith, inl, inr, ◌∙◌}
use proofgate.Base.Bytes.{Bytes}
use proofgate.Router.Route.{is_empty}
use proofgate.RateLimit.Stage.{has_prefix}
use proofgate.Admin.Store.{ok, err, SessionStore, ValueLaws}
use proofgate.Admin.Roles.{has_permission}
use proofgate.Admin.Session.{
  AdminSession, AdminConfig, Codec, CodecLaws, token_prefix, validate_session,
}
use proofgate.Admin.Session.Laws.{Result-cases, InTime, stored, validate_session-InTime}

-- The handler is called with a session, or the response is an error with a status.
pub data Gate : Type 0 where
  calls_next : AdminSession → Gate
  refuses : ℕ → Gate

unfoldable pub require_permission : Bytes → Option AdminSession → Gate
require_permission perm none = refuses 401
require_permission perm (some sess) =
    if has_permission sess.role perm then calls_next sess else refuses 403

module _ (S : SessionStore) (C : Codec) (cfg : AdminConfig) where
  unfoldable pub require_auth : S.Store → Bytes → (AdminSession → Gate) → Gate × S.Store
  require_auth s token handler =
      if is_empty token
      then (refuses 401, s)
      else (let (r, s1) = validate_session S C cfg s token in
          elim r [ err e ↦ (refuses 401, s1) | ok sess ↦ (handler sess, s1) ])

module _ (S : SessionStore) (V : ValueLaws S) (C : Codec) (K : CodecLaws C)
    (cfg : AdminConfig) where
  -- A request reaches a handler behind both checks only with the token of a session that the store
  -- holds, that is within both timeouts and whose role has the permission; the handler sees this
  -- session with the present as its last activity.
  pub gate_sound :
      (s : S.Store) (token perm : Bytes) (a : AdminSession)
      → (require_auth S C cfg s token (λ sess. require_permission perm (some sess))).0
        ≡ calls_next a
      → (has_permission a.role perm ≡ true)
        × (has_prefix token token_prefix ≡ true)
        × ((sess : AdminSession) × (stored S C s (C.hash_hex token) ≡ some sess)
            × InTime cfg (S.now s) sess
            × (a ≡ record sess { last_active_at = S.now s }))
  unfolding require_auth require_permission
  gate_sound s token perm a h = elim (Result-cases (validate_session S C cfg s token).0) [
    | inr (e, g) ↦ absurd (ground arith)
    | inl (b, g) ↦
        let (p, (sess, st, time, act, held)) = validate_session-InTime S V C cfg K s token b g in
        let same : a ≡ b = ground arith in (ground arith, p, (sess, st, time, same ∙ act))
  ]
