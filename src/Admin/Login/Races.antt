-- ===== src/Admin/Login/Races.antt =====
-- How often passwords are compared for one user at one IP, over logins that run at the same time
-- (internal/adminauth/login.go).
use proofgate.Base.{
  ℕ, suc, ◌+◌, ◌-◌, ◌<◌, ◌≤◌, ◌≡◌, refl, true, false, ◌&&◌, List, [], ◌∷◌, ◌++◌, ltb, if◌then◌else◌,
  arith, inl, inr, All, All-remove, Bool-cases, ap,
}
use proofgate.Base.Bytes.{Bytes, str_eq}
use proofgate.Admin.Store.{Result, ok, err, SessionStore, CounterLaws, login_fail_user_ip_key}
use proofgate.Admin.Roles.{validate_username}
use proofgate.Admin.Session.{AdminConfig, Codec}
use proofgate.Admin.Session.Laws.{Result-cases}
use proofgate.Admin.Login.{
  Accounts, Attempt, LoginWorld, max_ip_failures, count_attempt, verify, login,
}
use proofgate.Admin.Login.Guesses.{
  tries, is_right, failures, is_for, failures-count_attempt, count_attempt-failures, tries-verify,
  spent, spent-login,
}

-- Attempts that have been counted and have not compared a password yet, with their counts.
abbrev pub Flight : Type 0
Flight = List (Attempt × ℕ)

-- An attempt goes on behind its count where no limit is passed.
abbrev pub counted : AdminConfig → Attempt → Result (ℕ × ℕ) → Flight → Flight
counted cfg a (err e) flight = flight
counted cfg a (ok (n, n_ip)) flight =
    if ltb max_ip_failures n_ip
    then flight
    else if ltb cfg.max_login_attempts n
    then flight
    else (a, n) ∷ flight

module _ (S : SessionStore) (C : Codec) (D : Accounts) (cfg : AdminConfig) (u i : Bytes) where
  -- An attempt on the user from the IP carries a wrong password.
  abbrev pub IsWrong : Attempt → Type 0
  IsWrong a = str_eq a.username u && str_eq a.ip i ≡ true → is_right D a ≡ false

  -- What happens from a world on. A login runs as a whole, or it is counted and goes on behind that at
  -- any later time, with other logins between. `meanwhile` is all else, such as the lockout checks and
  -- audits of other logins, and the time: no password is compared, and the counter of the user at the
  -- IP is neither reset nor expires.
  pub data Logins (w0 : LoginWorld S) : LoginWorld S → Flight → Type 0 where
    start : Logins w0 w0 []
    logs_in :
        (w : LoginWorld S) (flight : Flight) (a : Attempt)
        → IsWrong a
        → Logins w0 w flight
        → Logins w0 (login S C D cfg w a).1 flight
    counts :
        (w : LoginWorld S) (flight : Flight) (a : Attempt)
        → validate_username a.username ≡ true
        → IsWrong a
        → Logins w0 w flight
        → Logins w0
            (record w { sessions = (count_attempt S C D cfg w.sessions a).1 })
            (counted cfg a (count_attempt S C D cfg w.sessions a).0 flight)
    compares :
        (w : LoginWorld S) (earlier : Flight) (a : Attempt) (n : ℕ) (later : Flight)
        → Logins w0 w (earlier ++ (a, n) ∷ later)
        → Logins w0 (verify S C D cfg w a n).1 (earlier ++ later)
    meanwhile :
        (w w' : LoginWorld S) (flight : Flight)
        → w'.compared ≡ w.compared
        → S.count w.sessions (login_fail_user_ip_key u i)
          ≤ S.count w'.sessions (login_fail_user_ip_key u i)
        → Logins w0 w flight
        → Logins w0 w' flight

  -- The attempts in flight on the user from the IP.
  pending : Flight → ℕ
  pending [] = 0
  pending ((a, n) ∷ flight) =
      let rest = pending flight in if str_eq a.username u && str_eq a.ip i then suc rest else rest

  pending-append :
      (earlier : Flight) (a : Attempt) (n : ℕ) (later : Flight)
      → pending (earlier ++ (a, n) ∷ later) ≡ (
          if str_eq a.username u && str_eq a.ip i
          then suc (pending (earlier ++ later))
          else pending (earlier ++ later))
  unfolding pending
  pending-append [] a n later = refl
  pending-append ((b, m) ∷ earlier) a n later = ground (arith, pending-append earlier a n later)

module _ (S : SessionStore) (L : CounterLaws S) (C : Codec) (D : Accounts) (cfg : AdminConfig)
    (positive : 0 < cfg.lockout_duration) (u i : Bytes) (valid : validate_username u ≡ true) where
  abbrev Fair : Attempt × ℕ → Type 0
  Fair (a, n) = (validate_username a.username ≡ true) × IsWrong S C D cfg u i a

  abbrev held : LoginWorld S → Flight → ℕ
  held w flight =
      (tries u i w.compared + pending S C D cfg u i flight)
      + (cfg.max_login_attempts - S.count w.sessions (login_fail_user_ip_key u i))

  held-counts :
      (w : LoginWorld S) (flight : Flight) (a : Attempt)
      → validate_username a.username ≡ true
      → let (r, s) = count_attempt S C D cfg w.sessions a in
        held (record w { sessions = s }) (counted cfg a r flight) ≤ held w flight
  unfolding pending failures is_for
  held-counts w flight a h =
      let step = failures-count_attempt S L C D cfg positive u i valid w.sessions a h in
      elim (Result-cases (count_attempt S C D cfg w.sessions a).0) [
        | inr (f, g) ↦ ground (arith, step)
        | inl ((n, m), g) ↦ ground (
          arith,
          step,
          count_attempt-failures S L C D cfg positive u i valid w.sessions a n m h g,
        )
      ]

  held-compares :
      (w : LoginWorld S) (earlier : Flight) (a : Attempt) (n : ℕ) (later : Flight)
      → Fair (a, n)
      → held (verify S C D cfg w a n).1 (earlier ++ later) ≤ held w (earlier ++ (a, n) ∷ later)
  unfolding failures is_for
  held-compares w earlier a n later (h, wrong) = ground (
    arith,
    tries-verify S L C D cfg positive u i valid w a n h wrong,
    pending-append S C D cfg u i earlier a n later,
  )

  held-logs_in :
      (w : LoginWorld S) (flight : Flight) (a : Attempt)
      → IsWrong S C D cfg u i a
      → held (login S C D cfg w a).1 flight ≤ held w flight
  unfolding spent failures is_for
  held-logs_in w flight a wrong =
      omega (arith, spent-login S L C D cfg positive u i valid w a wrong)

  counted-Fair :
      (a : Attempt) (r : Result (ℕ × ℕ)) (flight : Flight)
      → Fair (a, 0)
      → All Fair flight
      → All Fair (counted cfg a r flight)
  counted-Fair a (err e) flight f h = h
  counted-Fair a (ok (n, n_ip)) flight f h = elim (Bool-cases (ltb max_ip_failures n_ip)) [
    | inl e ↦ rw e h
    | inr e ↦ elim (Bool-cases (ltb cfg.max_login_attempts n)) [
      | inl e' ↦ rw (e, e') h
      | inr e' ↦ rw (e, e') (f, h)
    ]
  ]

  Logins-Fair :
      (w0 w : LoginWorld S) (flight : Flight) → Logins S C D cfg u i w0 w flight → All Fair flight
  Logins-Fair w0 _ _ start = tt
  Logins-Fair w0 _ _ (logs_in w flight a wrong ls) = Logins-Fair w0 w flight ls
  Logins-Fair w0 _ _ (counts w flight a h wrong ls) =
      counted-Fair a (count_attempt S C D cfg w.sessions a).0 flight (h, wrong)
        (Logins-Fair w0 w flight ls)
  Logins-Fair w0 _ _ (compares w earlier a n later ls) =
      (All-remove Fair earlier (a, n) later (Logins-Fair w0 w (earlier ++ (a, n) ∷ later) ls)).1
  Logins-Fair w0 _ _ (meanwhile w w' flight e k ls) = Logins-Fair w0 w flight ls

  held-Logins :
      (w0 w : LoginWorld S) (flight : Flight)
      → Logins S C D cfg u i w0 w flight
      → held w flight ≤ held w0 []
  held-Logins w0 _ _ start = omega arith
  held-Logins w0 _ _ (logs_in w flight a wrong ls) =
      omega (arith, held-logs_in w flight a wrong, held-Logins w0 w flight ls)
  held-Logins w0 _ _ (counts w flight a h wrong ls) =
      omega (arith, held-counts w flight a h, held-Logins w0 w flight ls)
  held-Logins w0 _ _ (compares w earlier a n later ls) =
      let whole = earlier ++ (a, n) ∷ later in
      let fair = (All-remove Fair earlier (a, n) later (Logins-Fair w0 w whole ls)).0 in
      omega (arith, held-compares w earlier a n later fair, held-Logins w0 w whole ls)
  held-Logins w0 _ _ (meanwhile w w' flight e k ls) =
      let same : tries u i w'.compared ≡ tries u i w.compared = ap (tries u i) e in
      omega (arith, same, k, held-Logins w0 w flight ls)

  -- Any logins, by this and by other users and from this and other IPs, one behind the other or at the
  -- same time: as long as none of the user from the IP carries the right password, and the counter
  -- of the user at the IP is not reset and does not expire, passwords of the user are compared for
  -- the IP at most as often as the limit leaves after the failures counted before. The store may fail
  -- at any call.
  pub guesses_bounded :
      (w0 w : LoginWorld S) (flight : Flight)
      → Logins S C D cfg u i w0 w flight
      → tries u i w.compared
        ≤ tries u i w0.compared
          + (cfg.max_login_attempts - S.count w0.sessions (login_fail_user_ip_key u i))
  unfolding pending
  guesses_bounded w0 w flight ls = omega (arith, held-Logins w0 w flight ls)
