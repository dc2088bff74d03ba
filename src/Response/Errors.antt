-- ===== src/Response/Errors.antt =====
-- src/shared/response/helpers: the answer of a handler that returns, and the exception of one that
-- throws. Http has the same methods for the providers, by their status and their key alone.
use nestjs_template.Common.{ℕ, String, some, truthy_option, if◌then◌else◌}
use nestjs_template.Response.{ResponseParams, AppResponse, Incoming, success, error}

-- The exception that a method throws: its envelope and its status.
pub record HttpException (D : Type 0) : Type 0 where
  pub response : AppResponse D
  pub status : ℕ

-- The methods of `ErrorResponse`.
pub data ErrorMethod : Type 0 where
  bad_request unauthorized payment_required forbidden not_found request_timeout : ErrorMethod
  conflict gone unprocessable_entity too_many_requests internal_server_error : ErrorMethod
  not_implemented bad_gateway service_unavailable gateway_timeout : ErrorMethod

module _ {D : Type 0} (r : Incoming) where
  -- `params.message ||= message`, the envelope, and the exception
  abbrev thrown : String → String → ℕ → ResponseParams D → HttpException D
  thrown message name code p =
      let given = record p {
        message = if truthy_option p.message then p.message else some message;
      } in
      record { response = error r name given; status = code }

  unfoldable pub error_response : ErrorMethod → ResponseParams D → HttpException D
  error_response bad_request = thrown "Bad Request" "BAD_REQUEST" 400
  error_response unauthorized = thrown "Unauthorized" "UNAUTHORIZED" 401
  error_response payment_required = thrown "Payment Required" "PAYMENT_REQUIRED" 402
  error_response forbidden = thrown "Forbidden" "FORBIDDEN" 403
  error_response not_found = thrown "Not Found" "NOT_FOUND" 404
  error_response request_timeout =
      thrown "Unable to process your request at the moment, please try later" "REQUEST_TIMEOUT" 408
  error_response conflict = thrown "Conflict" "CONFLICT" 409
  error_response gone = thrown "Gone" "GONE" 410
  error_response unprocessable_entity = thrown "Unprocessable Entity" "UNPROCESSABLE_ENTITY" 422
  error_response too_many_requests = thrown "Too Many Requests" "TOO_MANY_REQUESTS" 429
  error_response internal_server_error = thrown "Internal Server Error" "INTERNAL_SERVER_ERROR" 500
  error_response not_implemented = thrown "Not Implemented" "NOT_IMPLEMENTED" 501
  error_response bad_gateway = thrown "Bad Gateway" "BAD_GATEWAY" 502
  error_response service_unavailable =
      thrown "Service Unavailable. Please try again later." "SERVICE_UNAVAILABLE" 503
  error_response gateway_timeout = thrown "Gateway Timeout" "GATEWAY_TIMEOUT" 504

-- The methods of `SuccessResponse`.
pub data SuccessMethod : Type 0 where
  ok_ created accepted no_content partial_content : SuccessMethod

unfoldable pub success_response :
    {D : Type 0} → Incoming → SuccessMethod → ResponseParams D → AppResponse D
success_response r ok_ = success r "OK"
success_response r created = success r "CREATED"
success_response r accepted = success r "ACCEPTED"
success_response r no_content = success r "NO_CONTENT"
success_response r partial_content = success r "PARTIAL_CONTENT"
