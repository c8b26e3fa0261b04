-- ===== src/Health/Tracker/Recovery.antt =====
-- How long a target that has been marked degraded stays so.
use proofgate.Base.{
  ℕ, ◌+◌, ◌≤◌, ◌<◌, ◌≡◌, refl, sym, subst, ◌∙◌, true, false, ◌&&◌, ◌||◌, List, [], ◌∷◌, arith,
  Option-cases, Bool-cases, inl, inr,
}
use proofgate.Base.Maps.{lookup}
use proofgate.Base.Float.{Floats}
use proofgate.Router.Breaker.{Target, target_eq}
use proofgate.Router.Breaker.Laws.{target_eq_iff}
use proofgate.Router.Route.{to_string}
use proofgate.Health.Stats.{Stats, observed, is_acceptable, blended}
use proofgate.Health.Tracker.{
  Entry, Slo, HealthConfig, Tracker, entry_of, put_entry, judge, evaluate, observe, is_member,
  is_empty_list, heed_peer, is_degraded,
}
use proofgate.Health.Tracker.Events.{
  Event, observes, merges, sets_slos, sets_targets, step, run, degraded-observed, degraded-blended,
  entry-put, merge_refused, merge_written, entry-set_slos, entry-set_targets, is_degraded-entry,
  step_cfg,
}
use proofgate.Health.Tracker.Marking.{IsAt, step-Fresh}

module _ (fl : Floats) where
  -- The time of an event, where it has one, is in the window.
  abbrev pub IsWithin : ℕ → ℕ → Event fl → Type 0
  IsWithin start length (observes now s) = (start ≤ now) × (now < start + length)
  IsWithin start length (merges now tg p) = (start ≤ now) × (now < start + length)
  IsWithin start length (sets_slos slos) = Unit
  IsWithin start length (sets_targets targets) = Unit

  abbrev pub AllWithin : ℕ → ℕ → List (Event fl) → Type 0
  AllWithin start length [] = Unit
  AllWithin start length (ev ∷ events) = IsWithin start length ev × AllWithin start length events

  -- The entry is degraded, and breached the SLO at `start` or later.
  pub record Marked (start : ℕ) (e : Entry fl) : Type 0 where
    pub degraded : e.stats.degraded ≡ true
    pub recent : start ≤ e.last_breach

  judge-Marked :
      (cfg : HealthConfig fl) (now start : ℕ) (slo : Slo fl) (e : Entry fl)
      → (start ≤ now) × (now < start + cfg.recover)
      → Marked start e
      → Marked start (judge fl cfg now slo e)
  unfolding judge
  judge-Marked cfg now start slo e w v = ground arith

  evaluate-Marked :
      (t : Tracker fl) (now start : ℕ) (tg : Target) (e : Entry fl)
      → (start ≤ now) × (now < start + t.cfg.recover)
      → Marked start e
      → Marked start (evaluate fl t now tg e)
  unfolding evaluate
  evaluate-Marked t now start tg e w v = elim (Option-cases (lookup (to_string tg) t.slos)) [
    | inl f ↦ rw (f, evaluate) v
    | inr (slo, f) ↦ rw (f, evaluate) (judge-Marked t.cfg now start slo e w v)
  ]

  heed_peer-Marked :
      (cfg : HealthConfig fl) (now start : ℕ) (p : Stats fl) (e : Entry fl)
      → Marked start e
      → Marked start (heed_peer fl cfg now p e)
  unfolding heed_peer
  heed_peer-Marked cfg now start p e v = ground arith

  put-Marked :
      (t : Tracker fl) (now start : ℕ) (u tg : Target) (e : Entry fl)
      → (start ≤ now) × (now < start + t.cfg.recover)
      → (target_eq u tg ≡ true → Marked start e)
      → Marked start (entry_of fl t tg)
      → Marked start
          (entry_of fl (record t { entries = put_entry fl u (evaluate fl t now u e) t.entries }) tg)
  put-Marked t now start u tg e w m v =
      let put = entry-put fl t u tg (evaluate fl t now u e) in
      elim (Bool-cases (target_eq u tg)) [
        | inl h ↦
            subst (λ x. Marked start x) (sym (put ∙ rw h refl))
              (evaluate-Marked t now start u e w (m h))
        | inr h ↦ subst (λ x. Marked start x) (sym (put ∙ rw h refl)) v
      ]

  mark_at :
      (t : Tracker fl) (start : ℕ) (u tg : Target) (stats : Stats fl)
      → stats.degraded ≡ (entry_of fl t u).stats.degraded
      → Marked start (entry_of fl t tg)
      → target_eq u tg ≡ true
      → Marked start (record (entry_of fl t u) { stats = stats })
  mark_at t start u tg stats d v h =
      let vu : Marked start (entry_of fl t u) =
        subst (λ x. Marked start (entry_of fl t x)) (sym ((target_eq_iff u tg).0 h)) v in
      record { degraded = d ∙ vu.degraded; recent = vu.recent }

  step-Marked :
      (t : Tracker fl) (ev : Event fl) (tg : Target) (start : ℕ)
      → IsWithin start t.cfg.recover ev
      → Marked start (entry_of fl t tg)
      → Marked start (entry_of fl (step fl t ev) tg)
  unfolding step observe
  step-Marked t (observes now s) tg start w v =
      let stats = observed fl t.cfg.alpha s (entry_of fl t s.target).stats in
      let d = degraded-observed fl t.cfg.alpha s (entry_of fl t s.target).stats in
      put-Marked t now start s.target tg (record (entry_of fl t s.target) { stats = stats }) w
        (mark_at t start s.target tg stats d v) v
  step-Marked t (merges now u p) tg start w v =
      let stats = blended fl p (entry_of fl t u).stats in
      let d = degraded-blended fl p (entry_of fl t u).stats in
      let e1 = record (entry_of fl t u) { stats = stats } in
      let e2 = heed_peer fl t.cfg now p e1 in
      elim (Bool-cases
        ((is_empty_list t.known_targets || is_member u t.known_targets) && is_acceptable fl p)) [
          | inr h ↦
              subst (λ x. Marked start (entry_of fl x tg)) (sym (merge_refused fl t now u p h)) v
          | inl h ↦
              subst (λ x. Marked start (entry_of fl x tg)) (sym (merge_written fl t now u p h))
                (put-Marked t now start u tg e2 w
                  (λ g. heed_peer-Marked t.cfg now start p e1 (mark_at t start u tg stats d v g)) v)
        ]
  step-Marked t (sets_slos slos) tg start w v =
      subst (λ x. Marked start x) (entry-set_slos fl t slos tg) v
  step-Marked t (sets_targets targets) tg start w v =
      subst (λ x. Marked start x) (entry-set_targets fl t targets tg) v

  run-Marked :
      (t : Tracker fl) (events : List (Event fl)) (tg : Target) (start : ℕ)
      → AllWithin start t.cfg.recover events
      → Marked start (entry_of fl t tg)
      → Marked start (entry_of fl (run fl t events) tg)
  unfolding run
  run-Marked t [] tg start w v = v
  run-Marked t (ev ∷ events) tg start w v =
      run-Marked (step fl t ev) events tg start
        (subst (λ (c : HealthConfig fl). AllWithin start c.recover events) (sym (step_cfg fl t ev))
          w.1)
        (step-Marked t ev tg start w.0 v)

  -- A target that an event at some time has made degraded stays degraded through all further events
  -- whose times are not before it and before it plus the time of recovery, whatever the
  -- samples and the peers say and however the SLOs and the targets change.
  pub degraded_stays :
      (t : Tracker fl) (ev : Event fl) (events : List (Event fl)) (tg : Target) (time : ℕ)
      → IsAt fl time ev
      → AllWithin time t.cfg.recover events
      → is_degraded fl t tg ≡ false
      → is_degraded fl (step fl t ev) tg ≡ true
      → is_degraded fl (run fl (step fl t ev) events) tg ≡ true
  degraded_stays t ev events tg time at w off on =
      let t1 = step fl t ev in
      let off1 : (entry_of fl t tg).stats.degraded ≡ false =
        sym (is_degraded-entry fl t tg) ∙ off in
      let on1 : (entry_of fl t1 tg).stats.degraded ≡ true = sym (is_degraded-entry fl t1 tg) ∙ on in
      let marked : Marked time (entry_of fl t1 tg) = record {
        degraded = on1;
        recent = step-Fresh fl t ev tg time at off1 on1;
      } in
      let w1 : AllWithin time t1.cfg.recover events =
        subst (λ (c : HealthConfig fl). AllWithin time c.recover events) (sym (step_cfg fl t ev))
          w in
      is_degraded-entry fl (run fl t1 events) tg ∙ (run-Marked t1 events tg time w1 marked).degraded
