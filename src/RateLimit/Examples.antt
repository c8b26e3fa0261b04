-- ===== src/RateLimit/Examples.antt =====
-- Runs of internal/ratelimit: a tenant with 100 tokens a minute.
use proofgate.Base.{
  ℕ, ◌+◌, ◌-◌, ◌*◌, ◌≡◌, refl, sym, ap, Bool, true, false, Option, none, some, [], arith,
  if◌then◌else◌,
}
use proofgate.Base.Int.{ℤ, pos, ◌+ℤ◌, ◌-ℤ◌, ◌≤ℤ◌}
use proofgate.Base.Bytes.{Bytes, codes, str_eq}
use proofgate.Api.{
  ChatRequest, estimate_prompt_tokens, effective_max_tokens, estimate_tokens, prompt_text,
}
use proofgate.RateLimit.Stage.{
  RateCall, before, after, redis_backend, answered, estimate, actual_tokens,
}
use proofgate.RateLimit.Stage.Settles.{settles, tokens_left}
use proofgate.RateLimit.Buckets.{
  BucketRedis, BucketLaws, allowed, denied, unit, level, wait_for, level_of, wait_of, draw,
  take_script, request_key, token_key, take, in_units,
}
use proofgate.RateLimit.Buckets.Window.{granted, left, opens, takes}
use proofgate.RateLimit.Buckets.Throughput.{taken_within_rate}

-- A store of buckets, as a function.
record Shelf : Type 0 where
  up : Bool
  clock : ℕ
  cell : Bytes → Option (ℤ × ℕ)

abbrev shelf : BucketRedis
shelf = record {
  Store = Shelf;
  reachable = λ s. s.up;
  time = λ s. s.clock;
  hmget = λ s k. s.cell k;
  hset = λ s k t ts. record s { cell = λ k'. if str_eq k k' then some (t, ts) else s.cell k' };
  pexpire = λ s k ttl. s;
}

shelf-BucketLaws : BucketLaws shelf
shelf-BucketLaws = record {
  hmget-hset = λ s k t ts k'. refl;
  hmget-pexpire = λ s k ttl k' h. refl;
  time-hset = λ s k t ts. refl;
  time-pexpire = λ s k ttl. refl;
}

abbrev fresh : Shelf
fresh = record { up = true; clock = 1_000; cell = λ k. none }

-- both buckets after 99 tokens and one request, one millisecond ago
abbrev used : Shelf
used = record { up = true; clock = 1_001; cell = λ k. some (pos 60_000, 1_000) }

abbrev acme : Bytes
acme = codes "acme"

taken_within_rate_example :
    left shelf acme 10 100 (take shelf fresh acme 10 100 40).1
      +ℤ pos (unit * (0 + granted (take shelf fresh acme 10 100 40).0 40))
    ≤ℤ pos (unit * (100 + 0) + 100 * (shelf.time (take shelf fresh acme 10 100 40).1 - 1_000))
taken_within_rate_example =
    taken_within_rate shelf shelf-BucketLaws acme 10 100 (omega arith) fresh
      (take shelf fresh acme 10 100 40).1 (0 + granted (take shelf fresh acme 10 100 40).0 40) 0
      (takes 40 opens)

took : (take shelf fresh acme 10 100 40).0 ≡ some allowed
unfolding take take_script wait_of level_of level wait_for draw request_key token_key str_eq
took = refl

refused : (take shelf used acme 10 100 2).0 ≡ some (denied 599)
unfolding take take_script wait_of level_of level wait_for draw request_key token_key str_eq ◌+ℤ◌
    ◌-ℤ◌
refused = refl

abbrev request : ChatRequest
request = record {
  model = codes "gpt";
  messages = [];
  stream = false;
  max_tokens = some (pos 50);
  max_completion_tokens = none;
  tools = [];
  tool_choice = [];
}

abbrev call : RateCall
call = record {
  internal = false;
  tenant_id = acme;
  rpm = 10;
  tpm = 100;
  strict = false;
  request = request;
  total_tokens = pos 0;
  cache_status = codes "miss";
  has_err = false;
  charged = none;
  failed_open = false;
}

estimated : estimate call 40 1_000 ≡ 40
unfolding estimate estimate_prompt_tokens estimate_tokens prompt_text effective_max_tokens
estimated = refl

charged :
    (before (redis_backend shelf) 40 1_000 call fresh).0.charged ≡ some (estimate call 40 1_000)
unfolding before answered estimate take take_script wait_of level_of level wait_for draw request_key
    token_key str_eq ◌+ℤ◌ ◌-ℤ◌ estimate_prompt_tokens estimate_tokens prompt_text
    effective_max_tokens
charged = refl

abbrev done : RateCall
done = record call { total_tokens = pos 25; charged = some 40 }

abbrev at_end : Shelf
at_end = record ((before (redis_backend shelf) 40 1_000 call fresh).2) { clock = 5_000 }

ended : at_end.up ≡ true
unfolding before take estimate_prompt_tokens estimate_tokens prompt_text effective_max_tokens
ended = refl

settles_example :
    tokens_left shelf (after (redis_backend shelf) done at_end) call
    ≡ level 100 5_000 (some (tokens_left shelf fresh call -ℤ in_units (actual_tokens done), 1_000))
settles_example =
    settles shelf shelf-BucketLaws 40 1_000 call done fresh at_end (omega arith) refl charged refl
      ended (ap some (sym estimated), refl, refl)
