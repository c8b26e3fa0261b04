-- ===== src/Admin/Roles.antt =====
-- internal/adminauth/rbac.go, and the username of login.go: roles and permissions are texts.
use proofgate.Base.{
  ℕ, ◌≡◌, refl, Bool, true, false, ◌&&◌, ◌||◌, none, some, List, [], ◌∷◌, leb, ◌==◌, length, arith,
}
use proofgate.Base.Bytes.{Bytes, codes, str_eq}
use proofgate.Base.Maps.{Map, lookup, elem}

abbrev pub user_manage : Bytes
user_manage = codes "user:manage"

abbrev pub provider_manage : Bytes
provider_manage = codes "provider:manage"

abbrev pub config_reload : Bytes
config_reload = codes "config:reload"

abbrev pub config_view : Bytes
config_view = codes "config:view"

abbrev pub cache_purge : Bytes
cache_purge = codes "cache:purge"

abbrev pub session_manage : Bytes
session_manage = codes "session:manage"

abbrev pub health_view : Bytes
health_view = codes "health:view"

abbrev pub status_view : Bytes
status_view = codes "status:view"

abbrev pub chat_test : Bytes
chat_test = codes "chat:test"

abbrev pub debug_pprof : Bytes
debug_pprof = codes "debug:pprof"

abbrev pub audit_view : Bytes
audit_view = codes "audit:view"

abbrev pub admin : Bytes
admin = codes "admin"

abbrev pub operator : Bytes
operator = codes "operator"

abbrev pub viewer : Bytes
viewer = codes "viewer"

unfoldable pub role_permissions : Map (List Bytes)
role_permissions =
    (
      admin,
      user_manage ∷ provider_manage ∷ config_reload ∷ config_view ∷ cache_purge ∷ session_manage
          ∷ health_view ∷ status_view ∷ chat_test ∷ debug_pprof ∷ audit_view ∷ [],
    )
    ∷ (
      operator,
      provider_manage ∷ config_reload ∷ config_view ∷ cache_purge ∷ health_view ∷ status_view
          ∷ chat_test ∷ [],
    )
    ∷ (viewer, config_view ∷ health_view ∷ status_view ∷ [])
    ∷ []

unfoldable pub has_permission : Bytes → Bytes → Bool
unfolding role_permissions
has_permission role perm = elim (lookup role role_permissions) [
  | none ↦ false
  | some perms ↦ elem perm perms
]

-- `^[A-Za-z0-9._@-]{1,64}$`
unfoldable pub is_username_byte : ℕ → Bool
is_username_byte c =
    leb b'A' c && leb c b'Z'
    || leb b'a' c && leb c b'z'
    || leb b'0' c && leb c b'9'
    || c == b'.'
    || c == b'_'
    || c == b'@'
    || c == b'-'

unfoldable pub all_username_bytes : Bytes → Bool
unfolding is_username_byte
all_username_bytes [] = true
all_username_bytes (c ∷ s) = is_username_byte c && all_username_bytes s

unfoldable pub validate_username : Bytes → Bool
unfolding all_username_bytes
validate_username username =
    leb 1 (length username) && leb (length username) 64 && all_username_bytes username

may-viewer :
    (perm : Bytes)
    → has_permission viewer perm ≡ elem perm (config_view ∷ health_view ∷ status_view ∷ [])
unfolding has_permission lookup str_eq
may-viewer perm = refl

may-operator :
    (perm : Bytes)
    → has_permission operator perm
      ≡ elem perm (
          provider_manage ∷ config_reload ∷ config_view ∷ cache_purge ∷ health_view ∷ status_view
          ∷ chat_test ∷ [])
unfolding has_permission lookup str_eq
may-operator perm = refl

may-admin :
    (perm : Bytes)
    → has_permission admin perm
      ≡ elem perm (
          user_manage ∷ provider_manage ∷ config_reload ∷ config_view ∷ cache_purge ∷ session_manage
          ∷ health_view ∷ status_view ∷ chat_test ∷ debug_pprof ∷ audit_view ∷ [])
unfolding has_permission lookup str_eq
may-admin perm = refl

viewer_below_operator :
    (perm : Bytes) → has_permission viewer perm ≡ true → has_permission operator perm ≡ true
unfolding elem
viewer_below_operator perm = rw (may-viewer perm, may-operator perm) (ground arith)

operator_below_admin :
    (perm : Bytes) → has_permission operator perm ≡ true → has_permission admin perm ≡ true
unfolding elem
operator_below_admin perm = rw (may-operator perm, may-admin perm) (ground arith)

known_role :
    (role perm : Bytes)
    → has_permission role perm ≡ true
    → elem role (admin ∷ operator ∷ viewer ∷ []) ≡ true
unfolding has_permission elem lookup
known_role role perm = ground arith

-- The roles are a chain: what a viewer may do an operator may, and what an operator may do an admin
-- may; a role of another name may do nothing.
pub roles_chain :
    (role perm : Bytes)
    → (has_permission viewer perm ≡ true → has_permission operator perm ≡ true)
      × (has_permission operator perm ≡ true → has_permission admin perm ≡ true)
      × (has_permission role perm ≡ true → elem role (admin ∷ operator ∷ viewer ∷ []) ≡ true)
roles_chain role perm =
    (viewer_below_operator perm, operator_below_admin perm, known_role role perm)
