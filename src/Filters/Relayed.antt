-- ===== src/Filters/Relayed.antt =====
-- What a client gets of an exception that the error helpers throw.
use nestjs_template.Common.{
  ℕ, String, ◌≡◌, ◌≤◌, refl, Bool, not, none, some, or_else, truthy, truthy_option, sym, ap, ◌∙◌,
  ◌&&◌, if◌then◌else◌, arith,
}
use nestjs_template.Response.{ResponseParams, Incoming, status_of, build_response, error}
use nestjs_template.Response.Errors.{
  HttpException, ErrorMethod, error_response, bad_request, unauthorized, payment_required,
  forbidden, not_found, request_timeout, conflict, gone, unprocessable_entity, too_many_requests,
  internal_server_error, not_implemented, bad_gateway, service_unavailable, gateway_timeout,
}
use nestjs_template.Filters.{
  Payload, Fault, Exception, AppRequest, FilterEnv, Watched, Sent, body_of, catch,
}

-- The thrown exception as the filter sees it; NestJS gives it a message and a stack.
abbrev pub exception_of : {D : Type 0} → HttpException D → Fault → Exception
exception_of x f = Exception.http x.status (Payload.object (some x.response.message) none) f

-- `HttpStatus` of NestJS has the names of HTTP_STATUS, from 400 on.
pub record KnowsNames (env : FilterEnv) : Type 0 where
  pub name_of :
      (name : String) (code : ℕ)
      → status_of name ≡ some code
      → 400 ≤ code
      → env.nest_status code ≡ some name

-- The client is sent the status of the envelope, its message if that is not empty, and the stack of
-- the exception outside production only.
pub record IsRelayed {D : Type 0} (is_prod : Bool) (x : HttpException D) (f : Fault) (sent : Sent)
    : Type 0 where
  pub line : sent.line ≡ x.response.status_code
  pub status_code : sent.body.status_code ≡ x.response.status_code
  pub status : sent.body.status ≡ x.response.status
  pub success : sent.body.success ≡ x.response.success
  pub message :
      sent.body.message
      ≡ (if truthy x.response.message then x.response.message else "Internal server error")
  pub stack : sent.body.stack ≡ (if not is_prod && truthy_option f.stack then f.stack else none)

error-status_code :
    {D : Type 0} (r : Incoming) (name : String) (code : ℕ) (p : ResponseParams D)
    → status_of name ≡ some code
    → (error r name p).status_code ≡ code
unfolding error build_response
error-status_code r name code p entry = rw entry refl

error-status :
    {D : Type 0} (r : Incoming) (name : String) (code : ℕ) (p : ResponseParams D)
    → status_of name ≡ some code
    → (error r name p).status ≡ name
unfolding error build_response
error-status r name code p entry =
    ap {B = String} (λ o. elim o [ none ↦ "HTTP_ERROR" | some _ ↦ name ]) entry

module _ {D : Type 0} (env : FilterEnv) (names : KnowsNames env) (r : Incoming) where
  -- One method: its entry of HTTP_STATUS has its status.
  relayed :
      (name : String) (code : ℕ) (p : ResponseParams D) (f : Fault) (req : AppRequest) (s : Watched)
      → status_of name ≡ some code
      → 400 ≤ code
      → (let x : HttpException D = record { response = error r name p; status = code } in
          IsRelayed env.tracking.is_prod x f (catch env (exception_of x f) req s).0)
  unfolding catch body_of error build_response
  relayed name code p f req s entry large =
      let same = sym (error-status_code r name code p entry) in
      record {
        line = same;
        status_code = same;
        status =
            ap (λ o. or_else o "INTERNAL_SERVER_ERROR") (names.name_of name code entry large)
            ∙ sym (error-status r name code p entry);
        success = refl;
        message = refl;
        stack = ground arith;
      }

  -- An exception that any of the error methods throws reaches the client with the status, the name of
  -- the status and the message of its envelope, an empty message replaced, and with its stack outside
  -- production only, whatever the status. NestJS knows the names of the statuses.
  pub catch-error_response :
      (m : ErrorMethod) (p : ResponseParams D) (f : Fault) (req : AppRequest) (s : Watched)
      → IsRelayed env.tracking.is_prod
          (error_response r m p)
          f
          (catch env (exception_of (error_response r m p) f) req s).0
  unfolding error_response status_of
  catch-error_response bad_request p f req s =
      relayed "BAD_REQUEST" 400 _ f req s refl (omega arith)
  catch-error_response unauthorized p f req s =
      relayed "UNAUTHORIZED" 401 _ f req s refl (omega arith)
  catch-error_response payment_required p f req s =
      relayed "PAYMENT_REQUIRED" 402 _ f req s refl (omega arith)
  catch-error_response forbidden p f req s = relayed "FORBIDDEN" 403 _ f req s refl (omega arith)
  catch-error_response not_found p f req s = relayed "NOT_FOUND" 404 _ f req s refl (omega arith)
  catch-error_response request_timeout p f req s =
      relayed "REQUEST_TIMEOUT" 408 _ f req s refl (omega arith)
  catch-error_response conflict p f req s = relayed "CONFLICT" 409 _ f req s refl (omega arith)
  catch-error_response gone p f req s = relayed "GONE" 410 _ f req s refl (omega arith)
  catch-error_response unprocessable_entity p f req s =
      relayed "UNPROCESSABLE_ENTITY" 422 _ f req s refl (omega arith)
  catch-error_response too_many_requests p f req s =
      relayed "TOO_MANY_REQUESTS" 429 _ f req s refl (omega arith)
  catch-error_response internal_server_error p f req s =
      relayed "INTERNAL_SERVER_ERROR" 500 _ f req s refl (omega arith)
  catch-error_response not_implemented p f req s =
      relayed "NOT_IMPLEMENTED" 501 _ f req s refl (omega arith)
  catch-error_response bad_gateway p f req s =
      relayed "BAD_GATEWAY" 502 _ f req s refl (omega arith)
  catch-error_response service_unavailable p f req s =
      relayed "SERVICE_UNAVAILABLE" 503 _ f req s refl (omega arith)
  catch-error_response gateway_timeout p f req s =
      relayed "GATEWAY_TIMEOUT" 504 _ f req s refl (omega arith)
