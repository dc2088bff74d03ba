-- ===== src/Http.antt =====
-- The error helpers of src/shared/response/helpers/error.response.ts: each throws an
-- `HttpException` with the status of its name and the key of the message.
use nestjs_template.Common.{http, Key, Action, throw}

module _ {S A : Type 0} where
  abbrev pub bad_request : Key → Action S A
  bad_request k = throw (http 400 k)

  abbrev pub unauthorized : Key → Action S A
  unauthorized k = throw (http 401 k)

  abbrev pub forbidden : Key → Action S A
  forbidden k = throw (http 403 k)

  abbrev pub not_found : Key → Action S A
  not_found k = throw (http 404 k)

  abbrev pub conflict : Key → Action S A
  conflict k = throw (http 409 k)

  abbrev pub unprocessable_entity : Key → Action S A
  unprocessable_entity k = throw (http 422 k)

  abbrev pub too_many_requests : Key → Action S A
  too_many_requests k = throw (http 429 k)
