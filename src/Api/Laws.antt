-- ===== src/Api/Laws.antt =====
-- The token estimates (internal/api/estimate.go) that rate limits and budgets are charged by.
use proofgate.Base.{◌+◌, ◌*◌, ◌≤◌, ◌<◌, arith, length}
use proofgate.Base.Bytes.{Bytes}
use proofgate.Api.{estimate_tokens}

-- The estimate of a text is the length over four, rounded up.
estimate_tokens_ceil :
    (s : Bytes) → (length s ≤ 4 * estimate_tokens s) × (4 * estimate_tokens s < length s + 4)
unfolding estimate_tokens
estimate_tokens_ceil s = omega arith
