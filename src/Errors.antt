-- ===== src/Errors.antt =====
-- The HTTP status of an error: apps/backend/src/errors/errorToHttpStatus.ts.
use smile4money.Common.{ℕ}

-- The classes of errors that the mapping tells apart, in the order in which it tests them.
pub data ErrorClass : Type 0 where
  provider_retry provider_reject validation not_found conflict rate_limited rpc_timeout other :
      ErrorClass

abbrev pub error_to_http_status : ErrorClass → ℕ
error_to_http_status provider_retry = 503
error_to_http_status provider_reject = 422
error_to_http_status validation = 400
error_to_http_status not_found = 404
error_to_http_status conflict = 409
error_to_http_status rate_limited = 429
error_to_http_status rpc_timeout = 504
error_to_http_status other = 500
