-- ===== src/Sdk/Web.antt =====
-- packages/chassis-sdk/src: the middleware, the interceptors and the exception filter that a request
-- passes, and services/internal-http.service.ts; with common/filters/global-exception.filter.ts and
-- common/interceptors/audit.interceptor.ts of services/identity-service.
pub mod Scoped
pub mod Internal
use saas_chassis.Prelude.{
  ℕ, String, ◌≡◌, Bool, true, false, not, ◌&&◌, ◌||◌, Option, none, some, List, [], ◌∷◌, ◌++◌,
  Result, ok, err, Exception, error, ◌==◌, if◌then◌else◌, or_else, truthy, or_falsy, same_text,
  template, includes, leb,
}
use saas_chassis.Http.{PageMeta}
use saas_chassis.Sdk.TenantAware.{TenantContextData}
use saas_chassis.Identity.Entities.{JwtPayload}

pub record RequestHeaders : Type 0 where
  pub tenant_id : Option String
  pub user_id : Option String
  pub is_platform_admin : Option String
  pub request_id : Option String

-- PLATFORM_ADMIN_TENANT_ID
abbrev pub platform_admin_tenant_id : String
platform_admin_tenant_id = "ffffffff-ffff-ffff-ffff-ffffffffffff"

-- `use` of TenantContextMiddleware: the context that the rest of the request runs in.
unfoldable pub context_of : RequestHeaders → Option TenantContextData
context_of headers =
    let is_admin = same_text headers.is_platform_admin (some "true") in
    if not (truthy headers.tenant_id) && not is_admin
    then none
    else some (record {
      tenant_id = or_falsy headers.tenant_id platform_admin_tenant_id;
      user_id = or_falsy headers.user_id "";
      is_platform_admin = is_admin;
    })

-- `use` of RequestIdMiddleware; `fresh` is the text of `uuidv4()`.
pub with_request_id : (fresh : String) → RequestHeaders → RequestHeaders
with_request_id fresh headers =
    if truthy headers.request_id then headers else record headers { request_id = some fresh }

pub record Envelope (A : Type 0) : Type 0 where
  pub success : Bool
  pub payload : A
  pub request_id : String
  pub timestamp : ℕ
  pub pagination : Option PageMeta

-- ResponseEnvelopeInterceptor; `pagination` is the truthy field of that name of the data, if it has
-- one.
pub envelope :
    {A : Type 0} (fresh : String) (now : ℕ) (pagination : A → Option PageMeta)
    → RequestHeaders
    → A
    → Envelope A
envelope fresh now pagination headers a = record {
  success = true;
  payload = a;
  request_id = or_falsy headers.request_id fresh;
  timestamp = now;
  pagination = pagination a;
}

-- A `message` in the response of an exception is a text or an array of texts.
pub data MessageField : Type 0 where
  one_text : String → MessageField
  many_texts : List String → MessageField

pub data HttpResponse : Type 0 where
  text_response : String → HttpResponse
  object_response : (code : Option String) → (message : Option MessageField) → HttpResponse

-- What a filter catches: an HttpException with its status, response and message, or anything else.
pub data Thrown : Type 0 where
  http_exception : (status : ℕ) → HttpResponse → (message : String) → Thrown
  other_thrown : (message : String) → Thrown

pub record ErrorAnswer : Type 0 where
  pub status : ℕ
  pub code : String
  pub message : MessageField
  pub request_id : Option String

-- `message || d`: an array is truthy.
abbrev pub message_or : Option MessageField → String → MessageField
message_or none d = one_text d
message_or (some (one_text s)) d = if truthy (some s) then one_text s else one_text d
message_or (some (many_texts ss)) d = many_texts ss

-- `catch` of GlobalExceptionFilter of the SDK; `decimal` writes a status in a text.
pub catch_thrown : (decimal : ℕ → String) → RequestHeaders → Thrown → ErrorAnswer
catch_thrown decimal headers (http_exception status (text_response s) message) = record {
  status = status;
  code = "INTERNAL_ERROR";
  message = one_text message;
  request_id = if truthy headers.request_id then headers.request_id else none;
}
catch_thrown decimal headers (http_exception status (object_response code field) message) = record {
  status = status;
  code = or_falsy code (template ("HTTP_" ∷ decimal status ∷ []));
  message = message_or field message;
  request_id = if truthy headers.request_id then headers.request_id else none;
}
catch_thrown decimal headers (other_thrown message) = record {
  status = 500;
  code = "INTERNAL_ERROR";
  message = one_text "An unexpected error occurred";
  request_id = if truthy headers.request_id then headers.request_id else none;
}

-- The answer of the filter of the identity service, without the time.
pub record ErrorResponse : Type 0 where
  pub status_code : ℕ
  pub success : Bool
  pub message : String
  pub errors : Option (List String)
  pub path : String

-- `catch` of GlobalExceptionFilter of the identity service.
pub catch_exception : (url : String) → Thrown → ErrorResponse
catch_exception url (http_exception status (text_response s) message) = record {
  status_code = status;
  success = false;
  message = s;
  errors = none;
  path = url;
}
catch_exception url (http_exception status (object_response code none) message) = record {
  status_code = status;
  success = false;
  message = message;
  errors = none;
  path = url;
}
catch_exception url (http_exception status (object_response code (some (one_text s))) message) =
    record { status_code = status; success = false; message = s; errors = none; path = url }
catch_exception url (http_exception status (object_response code (some (many_texts ss))) message) =
    record {
      status_code = status;
      success = false;
      message = "Validation failed";
      errors = some ss;
      path = url;
    }
catch_exception url (other_thrown message) = record {
  status_code = 500;
  success = false;
  message = "Internal server error";
  errors = none;
  path = url;
}

-- TimeoutInterceptor: a handler that takes `elapsed` milliseconds, with the configured limit.
pub data Ended (A : Type 0) : Type 0 where
  returned : A → Ended A
  threw : Exception → Ended A
  request_timeout : Ended A

pub with_timeout : {A : Type 0} → (configured : Option ℕ) → (elapsed : ℕ) → Result A → Ended A
with_timeout configured elapsed (ok a) =
    if leb (or_else configured 30000) elapsed then request_timeout else returned a
with_timeout configured elapsed (err e) =
    if leb (or_else configured 30000) elapsed then request_timeout else threw e

-- The event of the AuditInterceptor of the identity service, without its times.
pub record HttpEvent : Type 0 where
  pub user_id : String
  pub action : String
  pub url : String
  pub method : String
  pub tenant_id : Option String
  pub is_impersonating : Bool
  pub real_user_id : Option String

-- What the interceptor publishes after a handler has ended; `lower` is `toLowerCase`.
pub audited :
    {A : Type 0} (lower : String → String) (method url : String)
    → Option JwtPayload
    → Result A
    → Option HttpEvent
audited lower method url none r = none
audited lower method url (some user) (err e) = none
audited lower method url (some user) (ok a) =
    if includes ("POST" ∷ "PUT" ∷ "PATCH" ∷ "DELETE" ∷ []) method
    then some (record {
      user_id = user.sub;
      action = template (lower method ∷ ":" ∷ url ∷ []);
      url = url;
      method = method;
      tenant_id = user.tenant_id;
      is_impersonating = user.is_impersonating;
      real_user_id = user.real_user_id;
    })
    else none

-- The headers of a request between services: of two entries with one name the later one counts.
abbrev pub HeaderList : Type 0
HeaderList = List (String × String)

abbrev pub header : String → HeaderList → Option String
header name [] = none
header name ((key, value) ∷ rest) = elim (header name rest) [
  | some later ↦ some later
  | none ↦ if key == name then some value else none
]

-- `mergedHeaders` of InternalHttpService.
unfoldable pub merged_headers :
    (service_name service_token : Option String) → HeaderList → HeaderList
merged_headers service_name service_token headers =
    ("Content-Type", "application/json")
      ∷ ("X-Service-Name", or_else service_name "unknown")
      ∷ headers
    ++ (if truthy service_token then ("X-Service-Token", or_else service_token "") ∷ [] else [])

-- How a `fetch` ends: with a response, its `ok`, its status, its text and what its JSON parses to;
-- or with an error, a timeout too.
pub data Fetched (A : Type 0) : Type 0 where
  response : (is_ok : Bool) → (status text : String) → Result A → Fetched A
  failed : Exception → Fetched A

-- `request` of InternalHttpService; `fetch` is given the method, the URL, the headers and the body.
unfoldable pub request :
    {A : Type 0} (fetch : (method url : String) → HeaderList → Option String → Fetched A)
    → (service_name service_token : Option String) → (method : Option String) → (url : String)
    → (body : Option String) → HeaderList
    → Result A
unfolding merged_headers
request fetch service_name service_token method url body headers =
    elim (fetch (or_else method "GET") url (merged_headers service_name service_token headers)
      body) [
        | failed e ↦ err e
        | response is_ok status text json ↦
            if is_ok then json else err (error (template ("HTTP " ∷ status ∷ ": " ∷ text ∷ [])))
      ]
