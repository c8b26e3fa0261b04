-- ===== src/Budget/Examples.antt =====
-- Runs of internal/budget: one call under a limit of 1000 micros.
use proofgate.Base.{
  All, ◌≡◌, refl, sym, subst, true, false, Option, none, some, [], ◌∷◌, arith, if◌then◌else◌,
}
use proofgate.Base.Int.{pos, ◌+ℤ◌, ◌-ℤ◌, ◌≤ℤ◌}
use proofgate.Base.Bytes.{Bytes, codes, str_eq}
use proofgate.Base.Float.{counting}
use proofgate.Redis.{RedisLaws, cells, most_exact}
use proofgate.Router.Route.{Price, to_string}
use proofgate.Budget.Pricing.{estimate_max_micros, max_micros, worst_case}
use proofgate.Budget.Pricing.Estimates.{IsCovered, estimate_covers}
use proofgate.Budget.Ledger.{IsLedger, redis_ledger, spent, reserve, reserve_script, ledger_key}
use proofgate.Budget.Ledger.Scripts.{redis_ledger-IsLedger}
use proofgate.Budget.Stage.{
  BudgetCall, Settings, before, reserved_call, estimate, call_targets, call_tokens,
}
use proofgate.Budget.Stage.Books.{
  Books, Steps, arrive, finish, start, snoc, arrives, finishes, outstanding,
}
use proofgate.Budget.Stage.Balance.{books_balance, never_over_limit}

abbrev prices : Bytes → Option (Price counting)
prices t =
    if str_eq t (codes "openai/gpt")
    then some (record { input = 1; output = 2; cached_input = 0 })
    else none

cells_laws : RedisLaws cells
unfolding cells
cells_laws = record {
  tostring_exact = λ n p m. refl;
  get-set = λ s k n k'. refl;
  get-incr_by = λ s k n k'. refl;
  get-expire = λ s k ttl k' h. refl;
}

abbrev ann : Bytes
ann = codes "ann"

abbrev may : Bytes
may = codes "2026-05"

heard : (s : cells.Store) → cells.reachable s ≡ true → cells.replies s ≡ true
unfolding cells
heard s h = refl

redis_ledger-IsLedger_example : IsLedger (redis_ledger cells) ann may
redis_ledger-IsLedger_example = redis_ledger-IsLedger cells cells_laws heard ann may

ledger : IsLedger (redis_ledger cells) ann may
ledger = redis_ledger-IsLedger cells cells_laws heard ann may

abbrev settings : Settings counting
settings = record {
  pricing = some prices;
  reserve_strict = true;
  require_pricing = true;
  default_max = 200;
}

abbrev call : BudgetCall
call = record {
  tenant_id = ann;
  strict = true;
  limit = pos 1000;
  target = record { provider = codes "openai"; model = codes "gpt" };
  route = none;
  request = none;
  cost_micros = pos 0;
  hedge_cost_micros = pos 0;
  reserved = none;
  month = [];
  remaining = none;
  failed_open = false;
}

-- The call behind `Before`: 200 tokens at 2 micros each.
abbrev in_flight : BudgetCall
in_flight = record call { reserved = some (pos 400); month = may; remaining = some (pos 600) }

abbrev BooksHere : Type 0
BooksHere = Books (redis_ledger cells) counting settings ann may ledger

opening : BooksHere
unfolding redis_ledger cells
opening = record { world = record { up = true; cell = λ k. none }; calls = []; settled = pos 0 }

arrived : BooksHere
arrived = arrive (redis_ledger cells) counting settings ann may ledger opening call

arrived_calls : arrived.calls ≡ in_flight ∷ []
unfolding arrived opening arrive before estimate call_targets call_tokens estimate_max_micros
    max_micros worst_case reserved_call redis_ledger reserve reserve_script cells ledger_key str_eq
    to_string ◌+ℤ◌ ◌-ℤ◌
arrived_calls = refl

finished : BooksHere
finished =
    finish (redis_ledger cells) counting settings ann may ledger arrived [] in_flight [] (pos 250)
      (pos 50)

held_back : pos 400 ≡ ledger.balance arrived.world
unfolding arrived opening arrive before estimate call_targets call_tokens estimate_max_micros
    max_micros worst_case reserved_call redis_ledger spent reserve reserve_script cells ledger_key
    str_eq to_string ◌+ℤ◌ ◌-ℤ◌
held_back = ledger.spent_balance arrived.world (pos 400) refl

few_digits : ledger.balance arrived.world +ℤ ((pos 250 +ℤ pos 50) -ℤ pos 400) ≤ℤ most_exact
unfolding ◌+ℤ◌ ◌-ℤ◌
few_digits =
    subst (λ n. n +ℤ ((pos 250 +ℤ pos 50) -ℤ pos 400) ≤ℤ most_exact) held_back (omega arith)

run : Steps (redis_ledger cells) counting settings ann may ledger opening finished
unfolding arrived finished
run = snoc arrived finished (snoc opening arrived start (arrives opening call refl refl refl)) (
    finishes arrived [] in_flight [] (pos 250) (pos 50) arrived_calls (unfold ◌+ℤ◌ in omega arith)
      few_digits)

nothing_spent : ledger.balance opening.world ≡ opening.settled
unfolding opening redis_ledger spent cells
nothing_spent = sym (ledger.spent_balance opening.world (pos 0) refl)

below : ledger.balance opening.world ≤ℤ pos 1000
unfolding opening
below = rw nothing_spent (omega arith)

books_balance_example :
    ledger.balance finished.world ≡ finished.settled +ℤ outstanding finished.calls
unfolding opening
books_balance_example =
    books_balance (redis_ledger cells) counting settings ann may ledger opening finished refl refl
      nothing_spent (omega arith) run

never_over_limit_example : ledger.balance finished.world ≤ℤ pos 1000
unfolding opening run
never_over_limit_example =
    never_over_limit (redis_ledger cells) counting settings ann may ledger (pos 1000) opening
      finished run refl refl nothing_spent (omega arith) below
      ((tt, refl), unfold ◌+ℤ◌ in omega arith)

estimated :
    estimate_max_micros counting (some prices) (codes "openai/gpt" ∷ []) (pos 50) (pos 200)
    ≡ some (pos 450)
unfolding estimate_max_micros max_micros worst_case str_eq
estimated = refl

estimate_covers_example :
    (pos 0 ≤ℤ pos 450) × All (IsCovered counting prices 50 200 (pos 450)) (codes "openai/gpt" ∷ [])
unfolding str_eq
estimate_covers_example =
    estimate_covers counting prices (codes "openai/gpt" ∷ []) (pos 50) (pos 200) (pos 450) estimated
