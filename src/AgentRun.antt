-- ===== src/AgentRun.antt =====
-- internal/agentrun/runs.go: the limits on the steps of an agent's run, as a Redis script keeps them
-- in one hash and one list for each run. The Redis commands are an interface with their documented
-- laws; the limits of a policy are natural numbers, and durations are milliseconds.
mod Examples
pub mod Limits
pub mod Stage
use proofgate.Base.{
  ℕ, ◌+◌, ◌<◌, ◌==◌, ◌≡◌, Bool, true, false, not, ◌&&◌, Option, none, some, List, [], ◌∷◌, ◌++◌,
  ltb, leb, if◌then◌else◌,
}
use proofgate.Base.Int.{ℤ, pos, ◌+ℤ◌, ◌-ℤ◌, leb_ℤ}
use proofgate.Base.Bytes.{Bytes, codes, str_eq}
use proofgate.Redis.{or_zero}
use proofgate.Api.Errors.{ApiError}
use proofgate.Router.Route.{is_empty}

pub record RunRedis : Type 1 where
  pub Store : Type 0
  pub reachable : Store → Bool
  pub hget : Store → Bytes → Bytes → Option ℤ
  pub hincr_by : Store → Bytes → Bytes → ℤ → Store
  pub lrange : Store → Bytes → ℕ → List Bytes  -- `LRANGE key 0 n-1`
  pub lpush : Store → Bytes → Bytes → Store
  pub ltrim : Store → Bytes → ℕ → Store  -- `LTRIM key 0 n-1`
  pub pexpire : Store → Bytes → ℕ → Store

-- `HINCRBY` counts a missing field as 0; a command on a list changes no hash; an expiry in the
-- future removes nothing yet.
pub record RunRedisLaws (R : RunRedis) : Type 0 where
  pub hget-hincr_by :
      (s : R.Store) (k f : Bytes) (n : ℤ) (k' f' : Bytes)
      → R.hget (R.hincr_by s k f n) k' f' ≡ (
          if str_eq k k' && str_eq f f' then some (or_zero (R.hget s k f) +ℤ n) else R.hget s k' f')
  pub hget-lpush : (s : R.Store) (k v k' f : Bytes) → R.hget (R.lpush s k v) k' f ≡ R.hget s k' f
  pub hget-ltrim :
      (s : R.Store) (k : Bytes) (n : ℕ) (k' f : Bytes) → R.hget (R.ltrim s k n) k' f ≡ R.hget s k' f
  pub hget-pexpire :
      (s : R.Store) (k : Bytes) (ttl : ℕ) (k' f : Bytes)
      → 0 < ttl
      → R.hget (R.pexpire s k ttl) k' f ≡ R.hget s k' f

-- internal/store/policy.go, with the cost limit in micros
pub record RunPolicy : Type 0 where
  pub max_steps : ℕ
  pub max_cost_micros : ℕ
  pub max_tokens : ℕ
  pub ttl : ℕ
  pub loop_repeats : ℕ
  pub loop_window : ℕ

unfoldable pub with_defaults : RunPolicy → RunPolicy
with_defaults p = record p {
  ttl = if p.ttl == 0 then 3_600_000 else p.ttl;
  loop_repeats = if p.loop_repeats == 0 then 3 else p.loop_repeats;
  loop_window = if p.loop_window == 0 then 20 else p.loop_window;
}

pub data StepStatus : Type 0 where
  allowed steps_exceeded cost_exceeded tokens_exceeded repeated : StepStatus

pub record StepResult : Type 0 where
  pub status : StepStatus
  pub steps : ℤ
  pub cost_micros : ℤ
  pub tokens : ℤ
  pub repeats : ℕ

-- internal/agentrun/stage.go: the error of a refused step
unfoldable pub run_err : ℕ → Bytes → ApiError
run_err status code = record {
  status = status;
  kind = if status == 429 then codes "rate_limit_error" else codes "insufficient_quota";
  code = code;
  retry_after = 0;
}

unfoldable pub status_error : StepStatus → Option ApiError
unfolding run_err
status_error allowed = none
status_error steps_exceeded = some (run_err 402 (codes "run_budget_exceeded"))
status_error cost_exceeded = some (run_err 402 (codes "run_budget_exceeded"))
status_error tokens_exceeded = some (run_err 402 (codes "run_budget_exceeded"))
status_error repeated = some (run_err 429 (codes "agent_loop_detected"))

-- `keys`
unfoldable pub run_key : Bytes → Bytes → Bytes
run_key tenant_id run_id = codes "run:{t:" ++ (tenant_id ++ (codes "}:" ++ run_id))

unfoldable pub fingerprint_key : Bytes → Bytes → Bytes
fingerprint_key tenant_id run_id = codes "runfp:{t:" ++ (tenant_id ++ (codes "}:" ++ run_id))

unfoldable pub occurrences : Bytes → List Bytes → ℕ
occurrences fp [] = 0
occurrences fp (v ∷ vs) = let n = occurrences fp vs in if str_eq v fp then n + 1 else n

-- `limit > 0 and n >= limit`
abbrev pub is_reached : ℕ → ℤ → Bool
is_reached limit n = ltb 0 limit && leb_ℤ (pos limit) n

module _ (R : RunRedis) where
  open R use {Store, reachable, hget, hincr_by, lrange, lpush, ltrim, pexpire}

  unfoldable pub counter : Store → Bytes → Bytes → ℤ
  counter s key field = or_zero (hget s key field)

  -- from the first `HINCRBY` to the end
  unfoldable pub admit : RunPolicy → Bytes → ℤ → ℤ → ℕ → Store → Store → StepResult × Store
  unfolding counter
  admit p rk est_cost est_tokens repeats before s = (
    record {
      status = allowed;
      steps = counter before rk (codes "steps") +ℤ pos 1;
      cost_micros = counter before rk (codes "cost");
      tokens = counter before rk (codes "tokens");
      repeats = repeats;
    },
    pexpire
        (hincr_by (hincr_by (hincr_by s rk (codes "steps") (pos 1)) rk (codes "cost") est_cost) rk
          (codes "tokens") est_tokens)
        rk p.ttl,
  )

  unfoldable pub refuse : StepStatus → Bytes → ℕ → Store → StepResult × Store
  unfolding counter
  refuse status rk repeats s = (
    record {
      status = status;
      steps = counter s rk (codes "steps");
      cost_micros = counter s rk (codes "cost");
      tokens = counter s rk (codes "tokens");
      repeats = repeats;
    },
    s,
  )

  unfoldable pub step_script :
      RunPolicy → Bytes → Bytes → Bytes → ℤ → ℤ → Store → StepResult × Store
  unfolding admit refuse counter occurrences
  step_script p rk fk fp est_cost est_tokens s =
      let repeats = 1 + occurrences fp (lrange s fk p.loop_window) in
      if is_reached p.max_steps (counter s rk (codes "steps"))
      then refuse steps_exceeded rk 0 s
      else if is_reached p.max_cost_micros (counter s rk (codes "cost"))
      then refuse cost_exceeded rk 0 s
      else if is_reached p.max_tokens (counter s rk (codes "tokens"))
      then refuse tokens_exceeded rk 0 s
      else if not (is_empty fp) && ltb 0 p.loop_repeats
      then if leb p.loop_repeats repeats
        then refuse repeated rk repeats s
        else admit p rk est_cost est_tokens repeats s
            (pexpire (ltrim (lpush s fk fp) fk p.loop_window) fk p.ttl)
      else admit p rk est_cost est_tokens 1 s s

  unfoldable pub step_run :
      Store → Bytes → Bytes → RunPolicy → Bytes → ℤ → ℤ → Option StepResult × Store
  unfolding step_script
  step_run s tenant_id run_id p fp est_cost est_tokens =
      let (result, s') =
        step_script p (run_key tenant_id run_id) (fingerprint_key tenant_id run_id) fp est_cost
          est_tokens s in
      if reachable s then (some result, s') else (none, s)

  -- `if delta != 0 { pipe.HIncrBy(...) }`
  unfoldable pub move : Bytes → Bytes → ℤ → Store → Store
  move rk field delta s =
      if leb_ℤ delta (pos 0) && leb_ℤ (pos 0) delta then s else hincr_by s rk field delta

  -- the transaction runs as a whole or, where Redis is not reached, not at all
  unfoldable pub charge : Store → Bytes → Bytes → RunPolicy → ℤ → ℤ → ℤ → ℤ → Bool × Store
  unfolding move
  charge s tenant_id run_id p actual_micros actual_tokens reserved_micros reserved_tokens =
      let rk = run_key tenant_id run_id in
      let s1 = move rk (codes "cost") (actual_micros -ℤ reserved_micros) s in
      let s2 = move rk (codes "tokens") (actual_tokens -ℤ reserved_tokens) s1 in
      if reachable s then (true, pexpire s2 rk p.ttl) else (false, s)
