-- ===== src/RateLimit/Stage.antt =====
-- The pipeline's stage of internal/ratelimit/stage.go, over any backend. A call carries the fields
-- that the stage reads and writes: `charged` is its entry of `Values`, and `failed_open` tells that
-- `onFailOpen` was called. The tenant's policy is `rpm`, `tpm` and `strict`.
pub mod Settles
use proofgate.Base.{
  ℕ, ◌+◌, ◌==◌, Bool, true, false, ◌&&◌, ◌||◌, Option, none, some, List, [], ◌∷◌, min,
  if◌then◌else◌,
}
use proofgate.Base.Int.{ℤ, pos, ◌-ℤ◌, leb_ℤ}
use proofgate.Base.Bytes.{Bytes, codes}
use proofgate.Api.{ChatRequest, estimate_prompt_tokens, effective_max_tokens}
use proofgate.Api.Errors.{ApiError, rate_limited}
use proofgate.Pipeline.{Verdict, go_on, failed}
use proofgate.RateLimit.Buckets.{BucketRedis, Decision, allowed, too_large, denied, take, adjust}

-- `Backend`: an error is `none` of `Take` and `false` of `Adjust`.
pub record Backend : Type 1 where
  pub Store : Type 0
  pub take : Store → Bytes → ℕ → ℕ → ℕ → Option Decision × Store
  pub adjust : Store → Bytes → ℕ → ℤ → Bool × Store

abbrev pub redis_backend : BucketRedis → Backend
redis_backend R = record { Store = R.Store; take = take R; adjust = adjust R }

pub record RateCall : Type 0 where
  pub internal : Bool
  pub tenant_id : Bytes
  pub rpm : ℕ
  pub tpm : ℕ
  pub strict : Bool
  pub request : ChatRequest
  pub total_tokens : ℤ
  pub cache_status : Bytes
  pub has_err : Bool
  pub charged : Option ℕ
  pub failed_open : Bool

abbrev pub ratelimit_unavailable : ApiError
ratelimit_unavailable = record {
  status = 503;
  kind = codes "api_error";
  code = codes "ratelimit_unavailable";
  retry_after = 0;
}

-- `strings.HasPrefix(s, prefix)`
unfoldable pub has_prefix : Bytes → Bytes → Bool
has_prefix s [] = true
has_prefix [] (c ∷ prefix) = false
has_prefix (d ∷ s) (c ∷ prefix) = (d == c) && has_prefix s prefix

unfoldable pub estimate : RateCall → ℕ → ℕ → ℕ
estimate c reserve default_max =
    estimate_prompt_tokens c.request + min (effective_max_tokens c.request default_max) reserve

unfoldable pub actual_tokens : RateCall → ℤ
unfolding has_prefix
actual_tokens c =
    if has_prefix c.cache_status (codes "hit")
      || (c.has_err && (leb_ℤ c.total_tokens (pos 0) && leb_ℤ (pos 0) c.total_tokens))
    then pos 0
    else c.total_tokens

module _ (reserve default_max : ℕ) where
  unfoldable pub answered : RateCall → Option Decision → RateCall × Verdict ApiError
  unfolding estimate
  answered c none =
      if c.strict
      then (c, failed ratelimit_unavailable)
      else (record c { failed_open = true }, go_on)
  answered c (some too_large) = (c, failed (rate_limited (codes "request_too_large") 0))
  answered c (some (denied wait)) = (c, failed (rate_limited (codes "rate_limited") wait))
  answered c (some allowed) = (record c { charged = some (estimate c reserve default_max) }, go_on)

module _ (B : Backend) where
  open B use {Store, take, adjust}

  unfoldable pub before : ℕ → ℕ → RateCall → Store → RateCall × Verdict ApiError × Store
  unfolding answered
  before reserve default_max c s =
      let (d, s') = take s c.tenant_id c.rpm c.tpm (estimate c reserve default_max) in
      let (c', verdict) = answered reserve default_max c d in
      if c.internal || (c.rpm == 0 && c.tpm == 0) then (c, go_on, s) else (c', verdict, s')

  -- A failed `Adjust` is only logged.
  unfoldable pub after : RateCall → Store → Store
  unfolding actual_tokens
  after c s = elim c.charged [
    | none ↦ s
    | some charged ↦ (adjust s c.tenant_id c.tpm (pos charged -ℤ actual_tokens c)).1
  ]
