-- ===== src/AgentRun/Examples.antt =====
-- Runs of internal/agentrun/runs.go: a run of at most two steps.
use proofgate.Base.{
  ◌≤◌, refl, true, ◌&&◌, Option, none, some, List, [], ◌∷◌, take, arith, if◌then◌else◌,
}
use proofgate.Base.Int.{ℤ, pos, ◌+ℤ◌}
use proofgate.Base.Bytes.{Bytes, codes, str_eq}
use proofgate.Redis.{or_zero}
use proofgate.AgentRun.{RunRedis, RunRedisLaws, RunPolicy, counter, step_script}
use proofgate.AgentRun.Limits.{
  IsCounted, RunEvent, stepped, charged, run_events, step_script-IsCounted, run_within_steps,
}

-- Hashes and lists without expiry.
record Keys : Type 0 where
  hash : Bytes → Bytes → Option ℤ
  list : Bytes → List Bytes

abbrev put_hash : Keys → Bytes → Bytes → ℤ → Keys
put_hash s k f n = record s {
  hash = λ k' f'.
      if str_eq k k' && str_eq f f' then some (or_zero (s.hash k f) +ℤ n) else s.hash k' f';
}

abbrev put_list : Keys → Bytes → List Bytes → Keys
put_list s k vs = record s { list = λ k'. if str_eq k k' then vs else s.list k' }

abbrev keys : RunRedis
keys = record {
  Store = Keys;
  reachable = λ s. true;
  hget = λ s k f. s.hash k f;
  hincr_by = put_hash;
  lrange = λ s k n. take n (s.list k);
  lpush = λ s k v. put_list s k (v ∷ s.list k);
  ltrim = λ s k n. put_list s k (take n (s.list k));
  pexpire = λ s k ttl. s;
}

keys_laws : RunRedisLaws keys
keys_laws = record {
  hget-hincr_by = λ s k f n k' f'. refl;
  hget-lpush = λ s k v k' f. refl;
  hget-ltrim = λ s k n k' f. refl;
  hget-pexpire = λ s k ttl k' f h. refl;
}

abbrev policy : RunPolicy
policy = record {
  max_steps = 2;
  max_cost_micros = 500;
  max_tokens = 0;
  ttl = 1000;
  loop_repeats = 3;
  loop_window = 20;
}

abbrev fresh : Keys
fresh = record { hash = λ k f. none; list = λ k. [] }

step_script-IsCounted_example :
    IsCounted keys keys_laws policy
      (codes "run")
      (pos 0)
      (pos 40)
      fresh
      (step_script keys policy (codes "run") (codes "runfp") (codes "ab") (pos 0) (pos 40) fresh)
step_script-IsCounted_example =
    step_script-IsCounted keys keys_laws policy (codes "run") (codes "runfp") (codes "ab") (pos 0)
      (pos 40) fresh (omega arith)

abbrev events : List (RunEvent keys keys_laws)
events =
    stepped (codes "ab") (pos 0) (pos 40)
    ∷ charged (pos 100) (pos 30) (pos 0) (pos 40)
    ∷ stepped (codes "cd") (pos 0) (pos 40)
    ∷ stepped (codes "ef") (pos 0) (pos 40)
    ∷ []

run_within_steps_example :
    (run_events keys keys_laws (codes "ann") (codes "r1") policy events fresh).0 ≤ 2
unfolding counter
run_within_steps_example =
    run_within_steps keys keys_laws (codes "ann") (codes "r1") policy events fresh (omega arith)
      (omega arith) refl
