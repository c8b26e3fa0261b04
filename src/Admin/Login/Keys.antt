-- ===== src/Admin/Login/Keys.antt =====
-- The counters of a user at an IP stand apart from all other keys, since a username has neither `:`
-- nor `|`.
use proofgate.Base.{◌≡◌, refl, true, false, ◌&&◌, [], ◌∷◌, ◌++◌, arith}
use proofgate.Base.Bytes.{Bytes, codes, str_eq}
use proofgate.Admin.Store.{
  login_fail_key, login_fail_user_ip_key, login_fail_ip_key, login_fail_user_alert_key, session_key,
}
use proofgate.Admin.Roles.{is_username_byte, all_username_bytes, validate_username}

-- `s|x` and `t|y` are one text only when `s` is `t` and `x` is `y`.
str_eq-bar :
    (s t x y : Bytes)
    → all_username_bytes s ≡ true
    → all_username_bytes t ≡ true
    → str_eq (s ++ (b'|' ∷ x)) (t ++ (b'|' ∷ y)) ≡ str_eq s t && str_eq x y
unfolding str_eq all_username_bytes is_username_byte
str_eq-bar [] [] x y hs ht = ground arith
str_eq-bar [] (b ∷ t) x y hs ht = ground arith
str_eq-bar (a ∷ s) [] x y hs ht = ground arith
str_eq-bar (a ∷ s) (b ∷ t) x y hs ht = ground (arith, str_eq-bar s t x y)

-- No username has a colon.
str_eq-colon : (u s r : Bytes) → all_username_bytes u ≡ true → str_eq u (s ++ (b':' ∷ r)) ≡ false
unfolding str_eq all_username_bytes is_username_byte
str_eq-colon [] [] r h = refl
str_eq-colon [] (c ∷ s) r h = refl
str_eq-colon (a ∷ u) [] r h = ground arith
str_eq-colon (a ∷ u) (c ∷ s) r h = ground (arith, str_eq-colon u s r)

username_bytes : (u : Bytes) → validate_username u ≡ true → all_username_bytes u ≡ true
unfolding validate_username
username_bytes u h = ground arith

user_ip_key-eq :
    (u i v j : Bytes)
    → validate_username u ≡ true
    → validate_username v ≡ true
    → str_eq (login_fail_user_ip_key u i) (login_fail_user_ip_key v j) ≡ str_eq u v && str_eq i j
unfolding login_fail_user_ip_key
user_ip_key-eq u i v j hu hv =
    unfold str_eq in str_eq-bar u v i j (username_bytes u hu) (username_bytes v hv)

-- Among the counters of a login and the keys of sessions, that of a user at an IP is named by this
-- user and IP alone: it is no counter of an IP, of a user or of a user's alerts, and no session.
pub user_ip_key_apart :
    (u i v j hash : Bytes)
    → validate_username u ≡ true
    → validate_username v ≡ true
    → (str_eq (login_fail_user_ip_key u i) (login_fail_user_ip_key v j) ≡ str_eq u v && str_eq i j)
      × (str_eq (login_fail_ip_key i) (login_fail_user_ip_key v j) ≡ false)
      × (str_eq (login_fail_user_alert_key u) (login_fail_user_ip_key v j) ≡ false)
      × (str_eq (login_fail_key u) (login_fail_user_ip_key v j) ≡ false)
      × (str_eq (session_key hash) (login_fail_user_ip_key v j) ≡ false)
unfolding login_fail_user_ip_key login_fail_ip_key login_fail_user_alert_key login_fail_key
    session_key
user_ip_key_apart u i v j hash hu hv = (
  user_ip_key-eq u i v j hu hv,
  unfold str_eq in refl,
  unfold str_eq in refl,
  unfold str_eq in str_eq-colon u (codes "userip") (v ++ (b'|' ∷ j)) (username_bytes u hu),
  unfold str_eq in refl,
)
