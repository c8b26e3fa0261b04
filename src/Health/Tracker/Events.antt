-- ===== src/Health/Tracker/Events.antt =====
-- Samples, peers' statistics and changes of the settings in any order, and the entry of a target after each.
use proofgate.Base.{
  ℕ, ◌≡◌, refl, ◌∙◌, true, false, ◌&&◌, ◌||◌, some, List, [], ◌∷◌, if◌then◌else◌, arith, Bool-cases,
  inl, inr,
}
use proofgate.Base.Maps.{Map}
use proofgate.Base.Float.{Floats}
use proofgate.Router.Breaker.{Target, target_eq}
use proofgate.Router.Breaker.Laws.{target_eq_iff}
use proofgate.Health.Stats.{
  Sample, Stats, observe_ttft, observe_tps, observe_outcome, observed, is_acceptable, blended,
}
use proofgate.Health.Tracker.{
  Entry, Slo, Tracker, set_targets, set_slos, find_entry, entry_of, put_entry, evaluate, observe,
  is_member, is_empty_list, heed_peer, merge, is_degraded,
}

module _ (fl : Floats) where
  pub find-put :
      (u tg : Target) (e : Entry fl) (m : List (Target × Entry fl))
      → find_entry fl u (put_entry fl tg e m)
        ≡ (if target_eq tg u then some e else find_entry fl u m)
  unfolding find_entry put_entry
  find-put u tg e [] = refl
  find-put u tg e ((v, d) ∷ m) = elim (Bool-cases (target_eq v tg)) [
    | inl h ↦ rw h (ground (arith, target_eq_iff v tg))
    | inr h ↦ rw h (
        rw (find-put u tg e m)
          (ground (arith, target_eq_iff v tg, target_eq_iff v u, target_eq_iff tg u)))
  ]

  -- A sample or a peer's statistics, at a time, or a change of the settings.
  pub data Event : Type 0 where
    observes : ℕ → Sample → Event
    merges : ℕ → Target → Stats fl → Event
    sets_slos : Map (Slo fl) → Event
    sets_targets : List Target → Event

  unfoldable pub step : Tracker fl → Event → Tracker fl
  step t (observes now s) = observe fl now s t
  step t (merges now tg p) = merge fl now tg p t
  step t (sets_slos slos) = set_slos fl slos t
  step t (sets_targets targets) = set_targets fl targets t

  unfoldable pub run : Tracker fl → List Event → Tracker fl
  unfolding step
  run t [] = t
  run t (ev ∷ events) = run (step t ev) events

  pub degraded-ttft :
      (a : fl.Float) (s : Sample) (e : Stats fl) → (observe_ttft fl a s e).degraded ≡ e.degraded
  unfolding observe_ttft
  degraded-ttft a s e = ground arith

  pub degraded-tps :
      (a : fl.Float) (s : Sample) (e : Stats fl) → (observe_tps fl a s e).degraded ≡ e.degraded
  unfolding observe_tps
  degraded-tps a s e = ground arith

  pub degraded-outcome :
      (a : fl.Float) (s : Sample) (e : Stats fl) → (observe_outcome fl a s e).degraded ≡ e.degraded
  unfolding observe_outcome
  degraded-outcome a s e = ground arith

  pub degraded-observed :
      (a : fl.Float) (s : Sample) (e : Stats fl) → (observed fl a s e).degraded ≡ e.degraded
  unfolding observed
  degraded-observed a s e =
      degraded-outcome a s (observe_tps fl a s (observe_ttft fl a s e))
      ∙ (degraded-tps a s (observe_ttft fl a s e) ∙ degraded-ttft a s e)

  pub degraded-blended : (p e : Stats fl) → (blended fl p e).degraded ≡ e.degraded
  unfolding blended
  degraded-blended p e = ground arith

  -- The entry of a target and what is counted of it, after a write to this or another one
  pub entry-put :
      (t : Tracker fl) (u tg : Target) (e : Entry fl)
      → entry_of fl (record t { entries = put_entry fl u e t.entries }) tg
        ≡ (if target_eq u tg then e else entry_of fl t tg)
  unfolding entry_of
  entry-put t u tg e = ground (arith, find-put tg u e t.entries)

  pub merge_refused :
      (t : Tracker fl) (now : ℕ) (u : Target) (p : Stats fl)
      → (is_empty_list t.known_targets || is_member u t.known_targets) && is_acceptable fl p ≡ false
      → merge fl now u p t ≡ t
  unfolding merge
  merge_refused t now u p h = rw (h, merge) refl

  pub merge_written :
      (t : Tracker fl) (now : ℕ) (u : Target) (p : Stats fl)
      → (is_empty_list t.known_targets || is_member u t.known_targets) && is_acceptable fl p ≡ true
      → let e1 = record (entry_of fl t u) { stats = blended fl p (entry_of fl t u).stats } in
        let e2 = heed_peer fl t.cfg now p e1 in
        merge fl now u p t
        ≡ record t { entries = put_entry fl u (evaluate fl t now u e2) t.entries }
  unfolding merge
  merge_written t now u p h = rw (h, merge) refl

  pub entry-set_slos :
      (t : Tracker fl) (slos : Map (Slo fl)) (tg : Target)
      → entry_of fl t tg ≡ entry_of fl (set_slos fl slos t) tg
  unfolding entry_of set_slos
  entry-set_slos t slos tg = refl

  pub entry-set_targets :
      (t : Tracker fl) (targets : List Target) (tg : Target)
      → entry_of fl t tg ≡ entry_of fl (set_targets fl targets t) tg
  unfolding entry_of set_targets
  entry-set_targets t targets tg = refl

  pub is_degraded-entry :
      (t : Tracker fl) (tg : Target) → is_degraded fl t tg ≡ (entry_of fl t tg).stats.degraded
  unfolding is_degraded entry_of
  is_degraded-entry t tg = ground arith

  pub step_cfg : (t : Tracker fl) (ev : Event) → (step t ev).cfg ≡ t.cfg
  unfolding step observe merge set_slos set_targets
  step_cfg t (observes now s) = refl
  step_cfg t (merges now u p) = ground arith
  step_cfg t (sets_slos slos) = refl
  step_cfg t (sets_targets targets) = refl
