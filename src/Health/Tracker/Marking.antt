-- ===== src/Health/Tracker/Marking.antt =====
-- The event that marks a target degraded is its latest breach.
use proofgate.Base.{
  ℕ, ◌≤◌, ◌≡◌, sym, subst, ◌∙◌, true, false, ◌&&◌, ◌||◌, if◌then◌else◌, arith, Option-cases,
  Bool-cases, inl, inr,
}
use proofgate.Base.Maps.{lookup}
use proofgate.Base.Float.{Floats}
use proofgate.Router.Breaker.{Target, target_eq}
use proofgate.Router.Breaker.Laws.{target_eq_iff}
use proofgate.Router.Route.{to_string}
use proofgate.Health.Stats.{Stats, observed, is_acceptable, blended}
use proofgate.Health.Tracker.{
  Entry, Slo, HealthConfig, Tracker, entry_of, put_entry, judge, evaluate, observe, is_member,
  is_empty_list, heed_peer, merge,
}
use proofgate.Health.Tracker.Events.{
  Event, observes, merges, sets_slos, sets_targets, step, degraded-observed, degraded-blended,
  entry-put, merge_refused, merge_written, entry-set_slos, entry-set_targets,
}

module _ (fl : Floats) where
  -- An entry that is degraded has breached at `now` or later.
  abbrev pub Fresh : ℕ → Entry fl → Type 0
  Fresh now e = e.stats.degraded ≡ true → now ≤ e.last_breach

  judge-Fresh :
      (cfg : HealthConfig fl) (now : ℕ) (slo : Slo fl) (e : Entry fl)
      → Fresh now e
      → Fresh now (judge fl cfg now slo e)
  unfolding judge
  judge-Fresh cfg now slo e v = ground (arith, v)

  evaluate-Fresh :
      (t : Tracker fl) (now : ℕ) (tg : Target) (e : Entry fl)
      → Fresh now e
      → Fresh now (evaluate fl t now tg e)
  unfolding evaluate
  evaluate-Fresh t now tg e v = elim (Option-cases (lookup (to_string tg) t.slos)) [
    | inl f ↦ rw (f, evaluate) v
    | inr (slo, f) ↦ rw (f, evaluate) (judge-Fresh t.cfg now slo e v)
  ]

  heed_peer-Fresh :
      (cfg : HealthConfig fl) (now : ℕ) (p : Stats fl) (e : Entry fl)
      → e.stats.degraded ≡ false
      → Fresh now (heed_peer fl cfg now p e)
  unfolding heed_peer
  heed_peer-Fresh cfg now p e h = ground arith

  put-Fresh :
      (t : Tracker fl) (now : ℕ) (u tg : Target) (e : Entry fl)
      → (target_eq u tg ≡ true → Fresh now e)
      → Fresh now (entry_of fl t tg)
      → Fresh now
          (entry_of fl (record t { entries = put_entry fl u (evaluate fl t now u e) t.entries }) tg)
  put-Fresh t now u tg e m v =
      let done = evaluate fl t now u e in
      let after = entry_of fl (record t { entries = put_entry fl u done t.entries }) tg in
      let put : after ≡ (if target_eq u tg then done else entry_of fl t tg) =
        entry-put fl t u tg done in
      elim (Bool-cases (target_eq u tg)) [
        | inl h ↦
            let same : after ≡ done = ground (arith, put) in
            subst (λ (x : Entry fl). Fresh now x) (sym same) (evaluate-Fresh t now u e (m h))
        | inr h ↦
            let same : after ≡ entry_of fl t tg = ground (arith, put) in
            subst (λ (x : Entry fl). Fresh now x) (sym same) v
      ]

  unmarked_at :
      (t : Tracker fl) (u tg : Target)
      → (entry_of fl t tg).stats.degraded ≡ false
      → target_eq u tg ≡ true
      → (entry_of fl t u).stats.degraded ≡ false
  unmarked_at t u tg v h =
      subst (λ x. (entry_of fl t x).stats.degraded ≡ false) (sym ((target_eq_iff u tg).0 h)) v

  -- The event happens at a time; a change of the settings reads no clock.
  abbrev pub IsAt : ℕ → Event fl → Type 0
  IsAt time (observes now s) = now ≡ time
  IsAt time (merges now tg p) = now ≡ time
  IsAt time (sets_slos slos) = Unit
  IsAt time (sets_targets targets) = Unit

  pub step-Fresh :
      (t : Tracker fl) (ev : Event fl) (tg : Target) (time : ℕ)
      → IsAt time ev
      → (entry_of fl t tg).stats.degraded ≡ false
      → Fresh time (entry_of fl (step fl t ev) tg)
  unfolding step observe
  step-Fresh t (observes now s) tg time at v =
      let stats = observed fl t.cfg.alpha s (entry_of fl t s.target).stats in
      let d = degraded-observed fl t.cfg.alpha s (entry_of fl t s.target).stats in
      subst (λ x. Fresh x (entry_of fl (observe fl now s t) tg)) at
        (put-Fresh t now s.target tg (record (entry_of fl t s.target) { stats = stats })
          (λ h g. ground (arith, d, unmarked_at t s.target tg v h)) (λ g. ground arith))
  step-Fresh t (merges now u p) tg time at v =
      let stats = blended fl p (entry_of fl t u).stats in
      let d = degraded-blended fl p (entry_of fl t u).stats in
      let e1 = record (entry_of fl t u) { stats = stats } in
      let e2 = heed_peer fl t.cfg now p e1 in
      let fresh : Fresh now (entry_of fl (merge fl now u p t) tg) =
        elim (Bool-cases
          ((is_empty_list t.known_targets || is_member u t.known_targets) && is_acceptable fl p)) [
            | inr h ↦
                subst (λ x. Fresh now (entry_of fl x tg)) (sym (merge_refused fl t now u p h))
                  (λ g. ground arith)
            | inl h ↦
                subst (λ x. Fresh now (entry_of fl x tg)) (sym (merge_written fl t now u p h))
                  (put-Fresh t now u tg e2
                    (λ h2. heed_peer-Fresh t.cfg now p e1 (d ∙ unmarked_at t u tg v h2))
                    (λ g. ground arith))
          ] in
      subst (λ x. Fresh x (entry_of fl (merge fl now u p t) tg)) at fresh
  step-Fresh t (sets_slos slos) tg time at v =
      subst (λ x. Fresh time x) (entry-set_slos fl t slos tg) (λ g. ground arith)
  step-Fresh t (sets_targets targets) tg time at v =
      subst (λ x. Fresh time x) (entry-set_targets fl t targets tg) (λ g. ground arith)
