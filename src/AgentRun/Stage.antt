-- ===== src/AgentRun/Stage.antt =====
-- The pipeline's stage of internal/agentrun/stage.go. A call carries the fields that the stage reads
-- and writes: `run_id` and `est_tokens` are its entries of `Values`, and `steps` is its response
-- header. The run store, the limiter, the fuzzy detector and the two hashes are an environment over a
-- state that they change.
pub mod Refusals
use proofgate.Base.{
  ℕ, ◌+◌, ◌≡◌, refl, Bool, true, false, not, ◌&&◌, ◌||◌, Option, none, some, List, [], ◌∷◌, ◌++◌,
  length, ltb, leb, ◌==◌, if◌then◌else◌, arith,
}
use proofgate.Base.Int.{ℤ, pos, leb_ℤ}
use proofgate.Base.Bytes.{Bytes, codes, str_eq}
use proofgate.Api.{ChatRequest, estimate_prompt_tokens, effective_max_tokens}
use proofgate.Api.Errors.{ApiError, bad_request}
use proofgate.Pipeline.{Verdict, go_on, failed}
use proofgate.RateLimit.Buckets.{Decision, allowed, too_large, denied}
use proofgate.RateLimit.Stage.{has_prefix}
use proofgate.Router.Route.{is_empty}
use proofgate.AgentRun.{RunPolicy, with_defaults, StepResult, status_error, run_err}

-- `store.RunPolicy`: the limits, and what the stage alone reads
pub record StagePolicy : Type 0 where
  pub limits : RunPolicy
  pub require_run_id : Bool
  pub run_id_fallback : Bytes
  pub fuzzy_loop : Bool

pub record RunCall : Type 0 where
  pub policy : Option StagePolicy
  pub tenant_id : Bytes
  pub key_id : Bytes
  pub incoming_run_id : Bytes
  pub strict : Bool
  pub request : ChatRequest
  pub total_tokens : ℤ
  pub cost_micros : ℤ
  pub cache_status : Bytes
  pub has_err : Bool
  pub run_id : Option Bytes
  pub est_tokens : ℕ
  pub steps : Option ℤ

-- Errors of the store, the limiter and the detector are `none`; so are a limiter and a detector that
-- are not configured. `key_hash` is of the tenant and the key, in hexadecimal.
pub record RunEnv (W : Type 0) : Type 0 where
  pub step : W → Bytes → Bytes → RunPolicy → Bytes → ℤ → ℤ → Option StepResult × W
  pub charge : W → Bytes → Bytes → RunPolicy → ℤ → ℤ → ℤ → ℤ → Bool × W
  pub take : Option (W → Bytes → ℕ → Option Decision × W)
  pub is_fuzzy_loop : Option (W → Bytes → Bytes → RunPolicy → ChatRequest → Option Bool × W)
  pub key_hash : Bytes → Bytes → Bytes
  pub fingerprint : ChatRequest → Bytes

-- `[A-Za-z0-9_.:-]`
unfoldable pub is_id_byte : ℕ → Bool
is_id_byte c =
    (leb b'A' c && leb c b'Z')
    || (leb b'a' c && leb c b'z')
    || (leb b'0' c && leb c b'9')
    || (c == b'_')
    || (c == b'.')
    || (c == b':')
    || (c == b'-')

unfoldable pub all_id_bytes : Bytes → Bool
unfolding is_id_byte
all_id_bytes [] = true
all_id_bytes (c ∷ s) = is_id_byte c && all_id_bytes s

-- `RunIDPattern`
unfoldable pub is_run_id : Bytes → Bool
unfolding all_id_bytes
is_run_id s = not (is_empty s) && (leb (length s) 128 && all_id_bytes s)

abbrev pub run_store_unavailable : ApiError
run_store_unavailable = record {
  status = 503;
  kind = codes "api_error";
  code = codes "run_store_unavailable";
  retry_after = 0;
}

abbrev pub agent_loop : ApiError
agent_loop = run_err 429 (codes "agent_loop_detected")

-- whether the fuzzy check is left out
unfoldable pub is_skipped : Option Decision → Bool
is_skipped (some allowed) = false
is_skipped (some too_large) = true
is_skipped (some (denied wait)) = true
is_skipped none = false

-- What the call's run id comes to: an error, none at all, or an id.
pub data RunId : Type 0 where
  rejected : ApiError → RunId
  unused : RunId
  given : Bytes → RunId

unfoldable pub estimate : RunCall → ℕ → ℕ
estimate c default_max =
    estimate_prompt_tokens c.request + effective_max_tokens c.request default_max

unfoldable pub actual_tokens : RunCall → ℤ
unfolding has_prefix
actual_tokens c =
    if has_prefix c.cache_status (codes "hit")
      || (c.has_err && (leb_ℤ c.total_tokens (pos 0) && leb_ℤ (pos 0) c.total_tokens))
    then pos 0
    else c.total_tokens

module _ {W : Type 0} (env : RunEnv W) where
  unfoldable pub run_id_of : StagePolicy → RunCall → RunId
  unfolding is_run_id
  run_id_of p c =
      let fallen_back = codes "key_" ++ env.key_hash c.tenant_id c.key_id in
      let id = if is_empty c.incoming_run_id then fallen_back else c.incoming_run_id in
      if is_empty c.incoming_run_id && p.require_run_id
      then rejected bad_request
      else if is_empty c.incoming_run_id && not (str_eq p.run_id_fallback (codes "key"))
      then unused
      else if is_run_id id
      then given id
      else rejected bad_request

  -- the fuzzy check of a step that the store has admitted; `true` for a loop
  unfoldable pub fuzzy_check : StagePolicy → RunPolicy → Bytes → RunCall → W → Bool × W
  unfolding is_skipped
  fuzzy_check p limits id c w = elim env.is_fuzzy_loop [
    | none ↦ (false, w)
    | some check ↦
        let (d, w1) : Option Decision × W = elim env.take [
          | none ↦ (none, w)
          | some take ↦ take w c.tenant_id 0
        ] in
        let (found, w2) = check w1 c.tenant_id id limits c.request in
        if not p.fuzzy_loop
        then (false, w)
        else if is_skipped d
        then (false, w1)
        else (elim found [ none ↦ false | some is_loop ↦ is_loop ], w2)
  ]

  unfoldable pub admitted :
      StagePolicy
      → RunPolicy
      → Bytes
      → ℕ
      → StepResult
      → RunCall
      → W
      → RunCall × Verdict ApiError × W
  unfolding fuzzy_check
  admitted p limits id est r c w =
      let (is_loop, w') = fuzzy_check p limits id c w in
      if is_loop
      then (c, failed agent_loop, w')
      else (record c { run_id = some id; est_tokens = est; steps = some r.steps }, go_on, w')

  unfoldable pub before_with : StagePolicy → ℕ → RunCall → W → RunCall × Verdict ApiError × W
  unfolding run_id_of admitted estimate
  before_with p default_max c w = elim (run_id_of p c) [
    | rejected e ↦ (c, failed e, w)
    | unused ↦ (c, go_on, w)
    | given id ↦
        let limits = with_defaults p.limits in
        let est = estimate c default_max in
        let (result, w') =
          env.step w c.tenant_id id limits (env.fingerprint c.request) (pos 0) (pos est) in
        elim result [
          | none ↦ (c, (if c.strict then failed run_store_unavailable else go_on), w')
          | some r ↦ elim (status_error r.status) [
            | some e ↦ (c, failed e, w')
            | none ↦ admitted p limits id est r c w'
          ]
        ]
  ]

  unfoldable pub before : ℕ → RunCall → W → RunCall × Verdict ApiError × W
  unfolding before_with
  before default_max c w = elim c.policy [
    | none ↦ (c, go_on, w)
    | some p ↦ before_with p default_max c w
  ]

  -- A failed `Charge` is only logged.
  unfoldable pub after : RunCall → W → W
  unfolding actual_tokens
  after c w = elim c.run_id [
    | none ↦ w
    | some id ↦ elim c.policy [
      | none ↦ w
      | some p ↦
          (env.charge w c.tenant_id id (with_defaults p.limits) c.cost_micros (actual_tokens c)
            (pos 0) (pos c.est_tokens)).1
    ]
  ]
