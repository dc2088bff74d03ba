-- ===== src/HttpClient.antt =====
-- src/shared/http-client/http.service.ts: the client of other services. A request is the outcome of
-- each time that it is subscribed to; axios and rxjs' `retry` are parameters.
pub mod Retries
use nestjs_template.Common.{
  ℕ, ◌<◌, ◌≤◌, String, ◌≡◌, Bool, true, false, ◌&&◌, Option, none, some, List, [], ◌∷◌, ltb, leb,
  ◌===◌, truthy, truthy_number, if◌then◌else◌,
}

-- The value of an untyped option.
mutual
  pub data Value : Type 0 where
    number : ℕ → Value
    text : String → Value
    object : Fields → Value
    other : Value

  pub data Fields : Type 0 where
    end : Fields
    field : String → Value → Fields → Fields

unfoldable pub member_of : String → Fields → Option Value
member_of k end = none
member_of k (field j v rest) = let later = member_of k rest in if j === k then some v else later

-- `typeof v === 'object' && v !== null ? v : {}`, and the two other tests of the constructor
abbrev pub object_or_empty : Option Value → Fields
object_or_empty (some (object fields)) = fields
object_or_empty _ = end

abbrev pub number_of : Option Value → Option ℕ
number_of (some (number n)) = some n
number_of _ = none

abbrev pub text_of : Option Value → Option String
text_of (some (text s)) = some s
text_of _ = none

abbrev pub object_of : Option Value → Option Fields
object_of (some (object fields)) = some fields
object_of _ = none

pub record HttpClient : Type 0 where
  pub retry_count : ℕ
  pub retry_delay : ℕ
  pub base_url : Option String
  pub http_timeout : Option ℕ
  pub default_headers : Option Fields

abbrev pub number_or : ℕ → Option ℕ → ℕ
number_or n none = n
number_or _ (some m) = m

-- The constructor, without the calls at its end.
unfoldable pub configure : Value → HttpClient
unfolding member_of
configure options =
    let opts = object_or_empty (some options) in
    let retry_opts = object_or_empty (member_of "retry" opts) in
    record {
      retry_count = number_or 3 (number_of (member_of "count" retry_opts));
      retry_delay = number_or 1000 (number_of (member_of "delay" retry_opts));
      base_url = text_of (member_of "baseURL" opts);
      http_timeout = number_of (member_of "timeout" opts);
      default_headers = object_of (member_of "defaultHeaders" opts);
    }

-- The defaults of the axios instance.
pub record Defaults : Type 0 where
  pub base_url : Option String
  pub timeout : ℕ
  pub common : Fields

unfoldable pub set_field : String → Value → Fields → Fields
set_field k v end = field k v end
set_field k v (field j w rest) =
    let later = set_field k v rest in if j === k then field j v rest else field j w later

unfoldable pub set_fields : Fields → Fields → Fields
unfolding set_field
set_fields end common = common
set_fields (field k v rest) common = set_fields rest (set_field k v common)

-- `applyDefaults`
unfoldable pub apply_defaults : HttpClient → Defaults → Defaults
unfolding set_fields
apply_defaults c d = record {
  base_url = elim c.base_url [
    | none ↦ d.base_url
    | some u ↦ if truthy u then some u else d.base_url
  ];
  timeout = elim c.http_timeout [
    | none ↦ d.timeout
    | some t ↦ if truthy_number t then t else d.timeout
  ];
  common = elim c.default_headers [ none ↦ d.common | some hs ↦ set_fields hs d.common ];
}

-- What a request throws: an axios error with the status line of its response, if there is one,
-- whether it has a request, and its code; another `Error`; or something else, as `String(error)`.
pub record AxiosError : Type 0 where
  pub response : Option (ℕ × String)
  pub request : Bool
  pub code : Option String
  pub message : String

pub data Thrown : Type 0 where
  axios : AxiosError → Thrown
  plain : String → Thrown
  stray : String → Thrown

-- The interceptors that `setupInterceptors` registers.
abbrev pub as_error : Thrown → Thrown
as_error (stray shown) = plain shown
as_error e = e

pub record AxiosResponse (A : Type 0) : Type 0 where
  pub body : A
  pub status : ℕ
  pub status_text : String
  pub headers : List (String × String)

pub data Attempt (A : Type 0) : Type 0 where
  answered : AxiosResponse A → Attempt A
  failed : Thrown → Attempt A

-- The `status`: that of a response, or `no_response` (0) or `unresolved` (-1).
pub data Code : Type 0 where
  code_of : ℕ → Code
  no_response unresolved : Code

-- src/shared/http-client/interfaces/http-response.interface.ts
pub record HttpResponse (A : Type 0) : Type 0 where
  pub body : Option A
  pub status : Code
  pub success : Bool
  pub message : String
  pub error : Option String
  pub headers : Option (List (String × String))

abbrev text_or : String → String → String
text_or s default = if truthy s then s else default

abbrev pub is_success : ℕ → Bool
is_success n = leb 200 n && ltb n 300

abbrev pub is_code : Option String → String → Bool
is_code none s = false
is_code (some c) s = c === s

module _ {A : Type 0} where
  -- The function of `map`.
  abbrev pub respond : AxiosResponse A → HttpResponse A
  respond r = record {
    body = some r.body;
    status = code_of r.status;
    success = is_success r.status;
    message = text_or r.status_text "OK";
    error = none;
    headers = some r.headers;
  }

  abbrev failure : Code → String → String → HttpResponse A
  failure code message error = record {
    body = none;
    status = code;
    success = false;
    message = message;
    error = some error;
    headers = none;
  }

  abbrev axios_failure : AxiosError → HttpResponse A
  axios_failure e = elim e.response [
    | some (code, line) ↦ failure (code_of code) (text_or line "HTTP error") e.message
    | none ↦
        if e.request
        then failure no_response "No response received" e.message
        else if is_code e.code "ENOTFOUND"
        then failure unresolved "DNS lookup failed" e.message
        else failure no_response "Unknown error" e.message
  ]

  -- The function of `catchError`, after the interceptor.
  abbrev pub caught : Thrown → HttpResponse A
  caught (axios e) = axios_failure e
  caught (plain message) = failure no_response "Unknown error" (text_or message "Unknown error")
  caught (stray shown) = failure no_response "Unknown error" (text_or shown "Unknown error")

  abbrev pub intercepted : Attempt A → Attempt A
  intercepted (answered r) = answered r
  intercepted (failed e) = failed (as_error e)

-- rxjs' `retry({ count, delay })` of a request, by the outcomes of its subscriptions, and the two laws
-- that its documentation states: the first answer within `count` further subscriptions passes, and
-- without one the last error does.
pub record Retrying (A : Type 0) : Type 0 where
  pub retry : ℕ → ℕ → (ℕ → Attempt A) → Attempt A
  pub passes_answer :
      (count delay n : ℕ) (request : ℕ → Attempt A) (r : AxiosResponse A)
      → n ≤ count
      → ((m : ℕ) → m < n → (e : Thrown) × (request m ≡ failed e))
      → request n ≡ answered r
      → retry count delay request ≡ answered r
  pub passes_error :
      (count delay : ℕ) (request : ℕ → Attempt A) (e : Thrown)
      → ((m : ℕ) → m < count → (x : Thrown) × (request m ≡ failed x))
      → request count ≡ failed e
      → retry count delay request ≡ failed e

-- `handleRequest`
unfoldable pub handle_request :
    {A : Type 0} → Retrying A → HttpClient → (ℕ → Attempt A) → HttpResponse A
handle_request rx c request =
    elim (rx.retry c.retry_count c.retry_delay (λ n. intercepted (request n))) [
      | answered r ↦ respond r
      | failed e ↦ caught e
    ]

-- The calls of axios: the outcome of each time that the request is sent. `C` is a request's
-- configuration and `D` its body.
pub record Axios (A C D : Type 0) : Type 0 where
  pub get : String → Option C → ℕ → Attempt A
  pub post : String → Option D → Option C → ℕ → Attempt A
  pub put : String → Option D → Option C → ℕ → Attempt A
  pub patch : String → Option D → Option C → ℕ → Attempt A
  pub delete : String → Option C → ℕ → Attempt A
  pub head : String → Option C → ℕ → Attempt A

module _ {A C D : Type 0} (rx : Retrying A) (client : Axios A C D) (c : HttpClient) where
  abbrev pub get : String → Option C → HttpResponse A
  get url config = handle_request rx c (client.get url config)

  abbrev pub post : String → Option D → Option C → HttpResponse A
  post url body config = handle_request rx c (client.post url body config)

  abbrev pub put : String → Option D → Option C → HttpResponse A
  put url body config = handle_request rx c (client.put url body config)

  abbrev pub patch : String → Option D → Option C → HttpResponse A
  patch url body config = handle_request rx c (client.patch url body config)

  abbrev pub delete : String → Option C → HttpResponse A
  delete url config = handle_request rx c (client.delete url config)

  abbrev pub head : String → Option C → HttpResponse A
  head url config = handle_request rx c (client.head url config)
