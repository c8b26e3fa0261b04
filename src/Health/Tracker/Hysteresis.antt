-- ===== src/Health/Tracker/Hysteresis.antt =====
-- When a target is marked degraded, and how long it stays so.
use proofgate.Base.{
  ℕ, ◌+◌, ◌≤◌, ◌≡◌, true, not, ◌&&◌, ◌||◌, none, some, List, [], ◌∷◌, if◌then◌else◌,
}
use proofgate.Base.Maps.{lookup}
use proofgate.Base.Float.{Floats}
use proofgate.Router.Breaker.{Target, target_eq}
use proofgate.Router.Route.{to_string}
use proofgate.Health.Stats.{Stats, observed, is_acceptable, blended}
use proofgate.Health.Tracker.{
  Entry, HealthConfig, Tracker, entry_of, reasons, is_member, is_empty_list, heed_peer,
}
use proofgate.Health.Tracker.Events.{Event, observes, merges, sets_slos, sets_targets, step}

module _ (fl : Floats) where
  -- 1 when an evaluation of the entry finds a breach of the SLO
  unfoldable pub breach : Tracker fl → Target → Entry fl → ℕ
  breach t tg e = elim (lookup (to_string tg) t.slos) [
    | none ↦ 0
    | some slo ↦ if is_empty_list (reasons fl t.cfg slo e.stats) then 0 else 1
  ]

  -- 1 when a peer has marked a target that is not marked here
  unfoldable pub peer_breach : Stats fl → Entry fl → ℕ
  peer_breach p e = if p.degraded && not e.stats.degraded then 1 else 0

  -- The breaches of a target in an event
  unfoldable pub breaches_in : Target → Tracker fl → Event fl → ℕ
  breaches_in tg t (observes now s) =
      let e = entry_of fl t s.target in
      if target_eq s.target tg
      then breach t s.target (record e { stats = observed fl t.cfg.alpha s e.stats })
      else 0
  breaches_in tg t (merges now u p) =
      let e = entry_of fl t u in
      let e1 = record e { stats = blended fl p e.stats } in
      if target_eq u tg
        && ((is_empty_list t.known_targets || is_member u t.known_targets) && is_acceptable fl p)
      then peer_breach p e1 + breach t u (heed_peer fl t.cfg now p e1)
      else 0
  breaches_in tg t (sets_slos slos) = 0
  breaches_in tg t (sets_targets targets) = 0

  unfoldable pub breaches_of : Target → Tracker fl → List (Event fl) → ℕ
  unfolding breaches_in step
  breaches_of tg t [] = 0
  breaches_of tg t (ev ∷ events) = breaches_in tg t ev + breaches_of tg (step fl t ev) events

  -- The entry has counted no more breaches than there were, and is marked only after enough of them.
  pub record Counted (cfg : HealthConfig fl) (n : ℕ) (e : Entry fl) : Type 0 where
    pub counted : e.breaches ≤ n
    pub marked : e.stats.degraded ≡ true → cfg.breaches ≤ n
