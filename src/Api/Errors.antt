-- ===== src/Api/Errors.antt =====
-- internal/api/errors.go. The messages, which are texts for people, are left out.
use proofgate.Base.{ℕ, if◌then◌else◌}
use proofgate.Base.Bytes.{Bytes, codes, str_eq}

pub record ApiError : Type 0 where
  pub status : ℕ
  pub kind : Bytes  -- `Type`
  pub code : Bytes
  pub retry_after : ℕ

abbrev pub bad_request : ApiError
bad_request = record {
  status = 400;
  kind = codes "invalid_request_error";
  code = codes "invalid_request";
  retry_after = 0;
}

abbrev pub unauthorized : ApiError
unauthorized = record {
  status = 401;
  kind = codes "authentication_error";
  code = codes "unauthorized";
  retry_after = 0;
}

abbrev pub forbidden : Bytes → ApiError
forbidden code = record {
  status = 403;
  kind = codes "permission_error";
  code = code;
  retry_after = 0;
}

unfoldable pub rate_limited : Bytes → ℕ → ApiError
rate_limited code retry_after =
    if str_eq code (codes "request_too_large")
    then record { status = 413; kind = codes "invalid_request_error"; code = code; retry_after = 0 }
    else record {
      status = 429;
      kind = codes "rate_limit_error";
      code = code;
      retry_after = retry_after;
    }

abbrev pub budget_exceeded : ApiError
budget_exceeded = record {
  status = 402;
  kind = codes "insufficient_quota";
  code = codes "budget_exceeded";
  retry_after = 0;
}

abbrev pub no_healthy_target : ApiError
no_healthy_target = record {
  status = 503;
  kind = codes "api_error";
  code = codes "no_healthy_target";
  retry_after = 0;
}

abbrev pub gateway_timeout : ApiError
gateway_timeout = record {
  status = 504;
  kind = codes "api_error";
  code = codes "gateway_timeout";
  retry_after = 0;
}

abbrev pub upstream : ApiError
upstream = record {
  status = 502;
  kind = codes "api_error";
  code = codes "upstream_error";
  retry_after = 0;
}

abbrev pub internal : ApiError
internal = record {
  status = 500;
  kind = codes "api_error";
  code = codes "internal_error";
  retry_after = 0;
}
