-- ===== src/AgentRun/Stage/Refusals.antt =====
-- What a refusal by the stage of internal/agentrun/stage.go leaves.
use proofgate.Base.{ℕ, ◌≡◌, refl, none, arith, Option-cases, inl, inr, ◌⊎◌}
use proofgate.Base.Bytes.{Bytes}
use proofgate.Api.Errors.{ApiError}
use proofgate.Pipeline.{failed}
use proofgate.Base.Int.{pos}
use proofgate.AgentRun.{with_defaults, RunPolicy, StepResult}
use proofgate.AgentRun.Stage.{
  StagePolicy, RunCall, RunEnv, RunId, rejected, unused, given, run_id_of, admitted, before_with,
  estimate, before, after,
}

RunId-cases :
    (x : RunId)
    → ((id : Bytes) × (x ≡ given id)) ⊎ ((x ≡ unused) ⊎ ((e : ApiError) × (x ≡ rejected e)))
RunId-cases (given id) = inl (id, refl)
RunId-cases unused = inr (inl refl)
RunId-cases (rejected e) = inr (inr (e, refl))

module _ {W : Type 0} (env : RunEnv W) where
  admitted_refused :
      (p : StagePolicy) (limits : RunPolicy) (id : Bytes) (est : ℕ) (r : StepResult) (c : RunCall)
      (w : W) (e : ApiError)
      → (admitted env p limits id est r c w).1 ≡ failed e
      → (admitted env p limits id est r c w).0 ≡ c
  unfolding admitted
  admitted_refused p limits id est r c w e h = ground arith

  before_with_refused :
      (p : StagePolicy) (default_max : ℕ) (c : RunCall) (w : W) (e : ApiError)
      → (before_with env p default_max c w).1 ≡ failed e
      → (before_with env p default_max c w).0 ≡ c
  unfolding before_with
  before_with_refused p default_max c w e h = elim (RunId-cases (run_id_of env p c)) [
    | inl id ↦
        let limits = with_defaults p.limits in
        let est = estimate c default_max in
        let out =
          env.step w c.tenant_id id.0 limits (env.fingerprint c.request) (pos 0) (pos est) in
        elim (Option-cases out.0) [
          | inl n ↦ ground (arith, id.1, n)
          | inr r ↦ ground (arith, id.1, r.1, admitted_refused p limits id.0 est r.0 c out.1 e)
        ]
    | inr none_given ↦ elim none_given [ inl u ↦ ground (arith, u) | inr x ↦ ground (arith, x.1) ]
  ]

  -- A refused call is left as it was: it has no run id, and `After` does nothing for it, so that what
  -- a step has counted already stays counted when the fuzzy check refuses the call.
  pub refused_untouched :
      (default_max : ℕ) (c : RunCall) (w w' : W) (e : ApiError)
      → c.run_id ≡ none
      → (before env default_max c w).1 ≡ failed e
      → after env (before env default_max c w).0 w' ≡ w'
  unfolding before after
  refused_untouched default_max c w w' e fresh h = elim (Option-cases c.policy) [
    | inl n ↦ ground (arith, n)
    | inr p ↦ ground (arith, p.1, before_with_refused p.0 default_max c w e)
  ]
