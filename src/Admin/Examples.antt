-- ===== src/Admin/Examples.antt =====
-- Runs of internal/adminauth on the store in memory, with three attempts before a lockout.
use proofgate.Base.{
  subst, ◌+◌, ◌-◌, ◌≤◌, ◌≡◌, refl, true, false, none, some, List, [], ◌∷◌, if◌then◌else◌, arith,
}
use proofgate.Base.Bytes.{Bytes, codes, str_eq}
use proofgate.Base.Maps.{lookup, insert, erase, elem}
use proofgate.Guard.Redact.Decimal.{value_from}
use proofgate.RateLimit.Stage.{has_prefix}
use proofgate.Admin.Store.{
  ok, is_ok, session_key, user_sessions_key, all_users_key, login_fail_key, login_fail_user_ip_key,
  login_fail_ip_key, login_fail_user_alert_key,
}
use proofgate.Admin.Memory.{
  MemStore, mem_store, mem_get, mem_set, mem_set_xx, mem_del, mem_incr, mem_get_with_ttl, mem_sadd,
  mem_smembers, mem_value, mem_count,
}
use proofgate.Admin.Memory.Counters.{mem_store-CounterLaws}
use proofgate.Admin.Memory.Values.{mem_store-ValueLaws}
use proofgate.Admin.Memory.Sets.{mem_store-IndexLaws}
use proofgate.Admin.Roles.{validate_username, has_permission, cache_purge}
use proofgate.Admin.Session.{
  AdminSession, AdminUser, AdminConfig, token_prefix, new_session, create_session, validate_session,
  revoke_session, refresh, revoke_user,
}
use proofgate.Admin.Session.Laws.{InTime, stored, revoked_not_revived}
use proofgate.Admin.Session.Index.{Reliable, Indexed}
use proofgate.Admin.Session.Calls.{
  SessionCall, creates, validates, revokes, session_run, NoSessionOf, revoke_user_complete,
}
use proofgate.Admin.Gate.{require_auth, require_permission, calls_next, gate_sound}
use proofgate.Admin.Login.{Accounts, Attempt, LoginWorld, login, count_attempt, verify}
use proofgate.Admin.Login.Guesses.{tries, is_right}
use proofgate.Admin.Login.Races.{
  Flight, counted, IsWrong, Logins, start, logs_in, counts, compares, guesses_bounded,
}
use proofgate.Admin.Login.Entry.{Entered, login-Entered}
use proofgate.Admin.Samples.{written, read_session, codec, codec-CodecLaws}

-- One account, `ann` with the password `right`, whose hash is the password itself.
ann : AdminUser
ann = record {
  id = codes "u1";
  username = codes "ann";
  password_hash = codes "right";
  role = codes "operator";
  enabled = true;
}

abbrev accounts : Accounts
accounts = record {
  get_admin_user = λ name. if str_eq name (codes "ann") then some ann else none;
  check_password = str_eq;
  dummy_hash = codes "dummy";
}

abbrev config : AdminConfig
config = record {
  max_login_attempts = 3;
  lockout_duration = 900;
  session_abs_timeout = 500;
  session_idle_timeout = 100;
}

abbrev fresh : MemStore
fresh = record { clock = 1000; items = []; sets = [] }

idle : LoginWorld mem_store
idle = record { sessions = fresh; audits = []; compared = [] }

abbrev guess : Bytes → Bytes → Attempt
guess username password = record {
  username = username;
  password = password;
  ip = codes "10.0.0.1";
  user_agent = codes "curl";
  random = some (codes "r1");
}

abbrev right : Attempt
right = guess (codes "ann") (codes "right")

abbrev wrong : Attempt
wrong = guess (codes "ann") (codes "a")

-- The token and the session of a login with the right password, and the store after it.
token : Bytes
token = codes "pgadmin_r1"

entered : MemStore
entered = (login mem_store codec accounts config idle right).1.sessions

session : AdminSession
unfolding ann
session = new_session 1000 (b'#' ∷ token) ann (codes "10.0.0.1") (codes "curl")

enters : (login mem_store codec accounts config idle right).0 ≡ ok (token, session)
unfolding login idle ann new_session token session validate_username mem_get_with_ttl lookup erase
    mem_incr insert str_eq login_fail_user_ip_key login_fail_ip_key create_session mem_set mem_del
    login_fail_user_alert_key login_fail_key written
enters = refl

login-Entered_example : Entered mem_store codec accounts right token session entered
unfolding entered
login-Entered_example =
    login-Entered mem_store mem_store-ValueLaws codec codec-CodecLaws accounts config idle right
      token session enters

is_validated : (validate_session mem_store codec config entered token).0 ≡ ok session
unfolding validate_session entered token login idle ann new_session session validate_username
    mem_get_with_ttl lookup erase mem_incr insert str_eq login_fail_user_ip_key login_fail_ip_key
    create_session mem_set mem_del login_fail_user_alert_key login_fail_key written has_prefix
    mem_get mem_set_xx session_key mem_sadd read_session user_sessions_key all_users_key
is_validated = refl

revoked_not_revived_example :
    (is_ok
        (validate_session mem_store codec config
          (revoke_session mem_store codec config entered token)
          token).0
      ≡ false)
    × (is_ok
          (refresh mem_store codec config
            (revoke_session mem_store codec config entered token)
            (b'#' ∷ token)
            (session, ([], 1))).0
        ≡ false)
    × (mem_value
          (refresh mem_store codec config
            (revoke_session mem_store codec config entered token)
            (b'#' ∷ token)
            (session, ([], 1))).1
          (session_key (b'#' ∷ token))
        ≡ none)
unfolding mem_del token has_prefix
revoked_not_revived_example =
    revoked_not_revived mem_store mem_store-ValueLaws codec config entered token (session, ([], 1))
      refl refl

passes :
    (require_auth mem_store codec config entered token
      (λ sess. require_permission cache_purge (some sess))).0
    ≡ calls_next session
unfolding require_auth require_permission has_permission validate_session entered token login idle
    ann new_session session validate_username mem_get_with_ttl lookup erase mem_incr insert str_eq
    login_fail_user_ip_key login_fail_ip_key create_session mem_set mem_del
    login_fail_user_alert_key login_fail_key written has_prefix mem_get mem_set_xx session_key
    mem_sadd read_session user_sessions_key all_users_key elem
passes = refl

gate_sound_example :
    (has_permission session.role cache_purge ≡ true)
    × (has_prefix token token_prefix ≡ true)
    × ((sess : AdminSession) × (stored mem_store codec entered (b'#' ∷ token) ≡ some sess)
        × InTime config entered.clock sess
        × (session ≡ record sess { last_active_at = entered.clock }))
gate_sound_example =
    gate_sound mem_store mem_store-ValueLaws codec codec-CodecLaws config entered token cache_purge
      session passes

dels-ok : (m : MemStore) (ks : List Bytes) → is_ok (mem_del m ks).0 ≡ true
unfolding mem_del
dels-ok m [] = refl
dels-ok m (k ∷ ks) = dels-ok (record m { items = erase k m.items; sets = erase k m.sets }) ks

mem_store-Reliable : Reliable mem_store
unfolding mem_sadd mem_smembers
mem_store-Reliable = record { dels = dels-ok; adds = λ s k l. refl; reads = λ s k. refl }

fresh-Indexed : Indexed mem_store codec fresh
unfolding mem_value lookup
fresh-Indexed id v sess hv hu = cc

abbrev some_calls : List SessionCall
some_calls =
    creates ann [] [] (some (codes "r1"))
    ∷ validates token
    ∷ creates ann [] [] (some (codes "r2"))
    ∷ revokes token
    ∷ []

revoke_user_complete_example :
    Indexed mem_store codec (session_run mem_store codec config fresh some_calls)
    × NoSessionOf mem_store codec
        (codes "ann")
        (revoke_user mem_store codec config
          (session_run mem_store codec config fresh some_calls)
          (codes "ann")).1
revoke_user_complete_example =
    revoke_user_complete mem_store mem_store-ValueLaws mem_store-IndexLaws mem_store-Reliable codec
      codec-CodecLaws config fresh some_calls (codes "ann") fresh-Indexed

ann_valid : validate_username (codes "ann") ≡ true
unfolding validate_username
ann_valid = refl

guess_wrong : IsWrong mem_store codec accounts config (codes "ann") (codes "10.0.0.1") wrong
unfolding is_right ann str_eq
guess_wrong h = refl

-- Two attempts with a wrong password are counted before either is compared; a whole login follows.
abbrev one : LoginWorld mem_store
one = record idle {
  sessions = (count_attempt mem_store codec accounts config idle.sessions wrong).1;
}

abbrev two : LoginWorld mem_store
two = record one { sessions = (count_attempt mem_store codec accounts config one.sessions wrong).1 }

abbrev flight_of : LoginWorld mem_store → Flight → Flight
flight_of w flight =
    counted config wrong (count_attempt mem_store codec accounts config w.sessions wrong).0 flight

both_counted : flight_of one (flight_of idle []) ≡ (wrong, 2) ∷ (wrong, 1) ∷ []
unfolding idle count_attempt mem_incr lookup insert erase str_eq login_fail_user_ip_key
    login_fail_ip_key login_fail_user_alert_key login_fail_key value_from
both_counted = refl

some_logins :
    Logins mem_store codec accounts config
      (codes "ann")
      (codes "10.0.0.1")
      idle
      (login mem_store codec accounts config
        (verify mem_store codec accounts config two wrong 2).1
        wrong).1
      ((wrong, 1) ∷ [])
some_logins =
    logs_in (verify mem_store codec accounts config two wrong 2).1 ((wrong, 1) ∷ []) wrong
      guess_wrong
      (compares two [] wrong 2 ((wrong, 1) ∷ []) (
        subst (Logins mem_store codec accounts config (codes "ann") (codes "10.0.0.1") idle two)
          both_counted
          (counts one (flight_of idle []) wrong ann_valid guess_wrong
            (counts idle [] wrong ann_valid guess_wrong start))))

guesses_bounded_example :
    tries
      (codes "ann")
      (codes "10.0.0.1")
      (login mem_store codec accounts config
        (verify mem_store codec accounts config two wrong 2).1
        wrong).1.compared
    ≤ 0 + (3 - 0)
unfolding idle tries mem_count lookup
guesses_bounded_example =
    guesses_bounded mem_store mem_store-CounterLaws codec accounts config (omega arith)
      (codes "ann") (codes "10.0.0.1") ann_valid idle
      (login mem_store codec accounts config (verify mem_store codec accounts config two wrong 2).1
        wrong).1
      ((wrong, 1) ∷ []) some_logins
