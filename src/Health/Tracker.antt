-- ===== src/Health/Tracker.antt =====
-- internal/health/tracker.go, over any floating-point numbers. A time is a number of nanoseconds, and the
-- clock's reading is an argument. The map of entries is an association list; each method holds the
-- mutex and so is one step.
pub mod Events
pub mod Hysteresis
pub mod Marking
pub mod Recovery
mod Examples
use proofgate.Base.{
  ℕ, ◌+◌, ◌-◌, ◌/◌, ◌%◌, Bool, true, false, not, ◌&&◌, ◌||◌, Option, none, some, List, [], ◌∷◌,
  ◌++◌, ltb, leb, if◌then◌else◌,
}
use proofgate.Base.Int.{ℤ, pos, ◌+ℤ◌, ◌-ℤ◌, leb_ℤ, ltb_ℤ, pos_part}
use proofgate.Base.Bytes.{Bytes, codes, str_eq}
use proofgate.Base.Maps.{Map, lookup}
use proofgate.Base.Float.{Floats}
use proofgate.Api.{join}
use proofgate.Router.Breaker.{Target, target_eq}
use proofgate.Router.Route.{to_string}
use proofgate.Health.Stats.{
  Outcome, Sample, is_zero_ℤ, Stats, zero_stats, observed, is_acceptable, blended,
}

unfoldable pub is_member : Target → List Target → Bool
is_member t [] = false
is_member t (u ∷ us) = target_eq u t || is_member t us

abbrev pub is_empty_list {ℓ} : {A : Type ℓ} → List A → Bool
is_empty_list [] = true
is_empty_list (x ∷ xs) = false

module _ (fl : Floats) where
  open fl use {Float, of_ℕ, add, sub, mul, div, lt, trunc, abs, is_nan, is_inf}

  pub record Entry : Type 0 where
    pub stats : Stats fl
    pub breaches : ℕ
    pub last_breach : ℕ

  abbrev pub zero_entry : Entry
  zero_entry = record { stats = zero_stats fl; breaches = 0; last_breach = 0 }

  pub record Slo : Type 0 where
    pub ttft_ms : Float
    pub min_tps : Float
    pub max_error_rate : Float

  pub record HealthConfig : Type 0 where
    pub alpha : Float
    pub breaches : ℕ
    pub recover : ℕ
    pub min_samples : ℤ

  pub record Tracker : Type 0 where
    pub cfg : HealthConfig
    pub slos : Map Slo
    pub entries : List (Target × Entry)
    pub known_targets : List Target

  unfoldable pub new_tracker : HealthConfig → Map Slo → Tracker
  new_tracker cfg slos = record { cfg = cfg; slos = slos; entries = []; known_targets = [] }

  unfoldable pub set_targets : List Target → Tracker → Tracker
  set_targets targets t = record t { known_targets = targets }

  unfoldable pub set_slos : Map Slo → Tracker → Tracker
  set_slos slos t = record t { slos = slos }

  unfoldable pub find_entry : Target → List (Target × Entry) → Option Entry
  find_entry tg [] = none
  find_entry tg ((u, e) ∷ m) = if target_eq u tg then some e else find_entry tg m

  -- `get`, where a target that is not there has the zero entry
  unfoldable pub entry_of : Tracker → Target → Entry
  unfolding find_entry
  entry_of t tg = elim (find_entry tg t.entries) [ none ↦ zero_entry | some e ↦ e ]

  -- a write through the pointer that `get` returns
  unfoldable pub put_entry : Target → Entry → List (Target × Entry) → List (Target × Entry)
  put_entry tg e [] = (tg, e) ∷ []
  put_entry tg e ((u, d) ∷ m) =
      let rest = put_entry tg e m in if target_eq u tg then (u, e) ∷ m else (u, d) ∷ rest

  -- `n / 2`, towards zero
  half : ℤ → ℤ
  half n =
      if leb_ℤ (pos 0) n then pos (pos_part n / 2) else pos 0 -ℤ pos (pos_part (pos 0 -ℤ n) / 2)

  -- Enough samples for each of the three tests
  unfoldable pub ttft_known : HealthConfig → Slo → Stats fl → Bool
  ttft_known cfg slo e = lt (of_ℕ 0) slo.ttft_ms && leb_ℤ cfg.min_samples e.ttft_n

  unfoldable pub tps_known : HealthConfig → Slo → Stats fl → Bool
  unfolding half
  tps_known cfg slo e = lt (of_ℕ 0) slo.min_tps && leb_ℤ (half cfg.min_samples +ℤ pos 1) e.tps_n

  unfoldable pub err_known : HealthConfig → Slo → Stats fl → Bool
  err_known cfg slo e = lt (of_ℕ 0) slo.max_error_rate && leb_ℤ cfg.min_samples e.err_n

  unfoldable pub reasons : HealthConfig → Slo → Stats fl → List Bytes
  unfolding ttft_known tps_known err_known
  reasons cfg slo e =
      (if ttft_known cfg slo e && lt slo.ttft_ms e.ttft_ms then codes "ttft" ∷ [] else [])
      ++ ((if tps_known cfg slo e && lt e.tps slo.min_tps then codes "tokens_per_sec" ∷ [] else [])
          ++ (if err_known cfg slo e && lt slo.max_error_rate e.err_rate
              then codes "error_rate" ∷ []
              else []))

  -- `evaluate` of a target with an SLO
  unfoldable pub judge : HealthConfig → ℕ → Slo → Entry → Entry
  judge cfg now slo e =
      let why = reasons cfg slo e.stats in
      if is_empty_list why
      then (let e1 =
            if ttft_known cfg slo e.stats || err_known cfg slo e.stats || tps_known cfg slo e.stats
            then record e { breaches = 0 }
            else e in
          if e.stats.degraded && leb cfg.recover (now - e.last_breach)
          then record e1 { stats = record e.stats { degraded = false; since = now; reason = [] } }
          else e1)
      else (let e1 = record e { breaches = e.breaches + 1; last_breach = now } in
          if not e.stats.degraded && leb cfg.breaches (e.breaches + 1)
          then record e1 {
            stats = record e.stats { degraded = true; since = now; reason = join (codes ",") why };
          }
          else e1)

  unfoldable pub evaluate : Tracker → ℕ → Target → Entry → Entry
  evaluate t now tg e = elim (lookup (to_string tg) t.slos) [
    | none ↦ e
    | some slo ↦ judge t.cfg now slo e
  ]

  unfoldable pub observe : ℕ → Sample → Tracker → Tracker
  unfolding entry_of
  observe now s t =
      let e = entry_of t s.target in
      let e1 = record e { stats = observed fl t.cfg.alpha s e.stats } in
      record t { entries = put_entry s.target (evaluate t now s.target e1) t.entries }

  -- What a peer's verdict adds
  unfoldable pub heed_peer : HealthConfig → ℕ → Stats fl → Entry → Entry
  heed_peer cfg now p e =
      if p.degraded && not e.stats.degraded
      then (let e1 = record e { breaches = e.breaches + 1 } in
          if leb cfg.breaches (e.breaches + 1)
          then record e1 {
            stats = record e.stats { degraded = true; since = now; reason = codes "peer_degraded" };
            last_breach = now;
          }
          else e1)
      else e

  unfoldable pub merge : ℕ → Target → Stats fl → Tracker → Tracker
  unfolding heed_peer
  merge now tg p t =
      if (is_empty_list t.known_targets || is_member tg t.known_targets) && is_acceptable fl p
      then (let e = entry_of t tg in
          let e1 = heed_peer t.cfg now p (record e { stats = blended fl p e.stats }) in
          record t { entries = put_entry tg (evaluate t now tg e1) t.entries })
      else t

  unfoldable pub is_degraded : Tracker → Target → Bool
  unfolding find_entry
  is_degraded t tg = elim (find_entry tg t.entries) [ none ↦ false | some e ↦ e.stats.degraded ]

  unfoldable pub degraded_among : List (Target × Entry) → List Target
  degraded_among [] = []
  degraded_among ((u, e) ∷ m) =
      let rest = degraded_among m in if e.stats.degraded then u ∷ rest else rest

  unfoldable pub degraded_targets : Tracker → List Target
  unfolding degraded_among
  degraded_targets t = degraded_among t.entries

  unfoldable pub snapshot : List (Target × Entry) → List (Bytes × Stats fl)
  snapshot [] = []
  snapshot ((u, e) ∷ m) = (to_string u, e.stats) ∷ snapshot m

  unfoldable pub hedge_delay : Tracker → Target → ℤ → ℤ
  unfolding find_entry
  hedge_delay t tg default = elim (find_entry tg t.entries) [
    | none ↦ default
    | some e ↦
        let d =
          trunc (mul (add e.stats.ttft_ms (mul (of_ℕ 2) e.stats.ttft_dev_ms)) (of_ℕ 1_000_000)) in
        let low = if ltb_ℤ d (pos 50_000_000) then pos 50_000_000 else d in
        if ltb_ℤ e.stats.ttft_n t.cfg.min_samples
        then default
        else if ltb_ℤ (pos 5_000_000_000) low
        then pos 5_000_000_000
        else low
  ]
