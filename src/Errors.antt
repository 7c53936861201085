-- ===== src/Errors.antt =====
-- frontend/src/lib/errors.ts: the error classes, their classification, and the shapes that may
-- leave the browser or reach the screen. `fresh` is what `newTraceId()` returns when it is called.
pub mod Privacy
use jolarca.Common.{
  ℕ, String, ◌<>◌, Bool, Option, none, some, List, [], ◌∷◌, leb, ◌is◌, if◌then◌else◌, or_else,
  first_some,
}
use jolarca.Common.Record.{Entries}
use jolarca.Common.Text.{decimal}
use jolarca.Json.{Value, undefined, null, bool, num, str, arr, obj, get, text?}

-- The fields of `ApiError`; `details` is the raw body.
pub record ApiError : Type 0 where
  pub status : ℕ
  pub code : String
  pub message : String
  pub details : Option Value
  pub trace_id : String

pub data AuthKind : Type 0 where
  unauthenticated forbidden : AuthKind

-- Any thrown value: an instance of one of the error classes (message, then trace id), a plain
-- `TypeError`, another `Error` with its name, or a value that is no error, by its `String(…)`.
pub data Thrown : Type 0 where
  api : ApiError → Thrown
  validation : Entries (List String) → (message trace_id : String) → Thrown
  network : (message trace_id : String) → Thrown
  auth : AuthKind → (message trace_id : String) → Thrown
  permission : (message trace_id : String) → Thrown
  app : (message trace_id : String) → Thrown
  type_error : (message : String) → Thrown
  error : (name message : String) → Thrown
  non_error : (text : String) → Thrown

-- The outcome of a function that may throw.
pub data Result {ℓ} (A : Type ℓ) : Type ℓ where
  ok : A → Result A
  throw : Thrown → Result A

infixl 5 ◌>>=◌
abbrev pub ◌>>=◌ {ℓ κ} : {A : Type ℓ} {B : Type κ} → Result A → (A → Result B) → Result B
ok a >>= f = f a
throw e >>= f = throw e

-- `body && typeof body === "object" ? body : undefined`
unfoldable pub as_record : Value → Option Value
as_record (obj ps) = some (obj ps)
as_record (arr vs) = some (arr vs)
as_record undefined = none
as_record _ = none

-- `typeof record?.[key] === "string" ? record[key] : undefined`
unfoldable pub text_member : Option Value → String → Option String
unfolding text? get
text_member none key = none
text_member (some record_) key = text? (get record_ key)

-- `ApiError.fromResponse`: `parsed` is the caller's body, `json` what the response's own body parses
-- to, `none` where it does not parse.
unfoldable pub from_response :
    (fresh : String) (status : ℕ) (status_text : String) (json parsed : Option Value) → ApiError
unfolding as_record text_member
from_response fresh status status_text json parsed =
    let body = or_else (first_some parsed json) undefined in
    let record_ = as_record body in
    let detail = text_member record_ "detail" in
    record {
      status = status;
      code = or_else detail (or_else (text_member record_ "code") ("http_" <> decimal status));
      message = or_else detail status_text;
      details = record_;
      trace_id = fresh;
    }

pub data ErrorKind : Type 0 where
  api validation network auth unknown : ErrorKind

-- The keys of the `errors` namespace of the translations.
pub data MessageKey : Type 0 where
  unauthorized forbidden not_found server_error generic validation network : MessageKey

pub record ClassifiedError : Type 0 where
  pub kind : ErrorKind
  pub message_key : MessageKey
  pub trace_id : String
  pub status : Option ℕ
  pub code : Option String

abbrev plain : ErrorKind → MessageKey → String → ClassifiedError
plain kind key trace = record {
  kind = kind;
  message_key = key;
  trace_id = trace;
  status = none;
  code = none;
}

abbrev of_api : ErrorKind → MessageKey → ApiError → ClassifiedError
of_api kind key e = record {
  kind = kind;
  message_key = key;
  trace_id = e.trace_id;
  status = some e.status;
  code = some e.code;
}

classify_api : ApiError → ClassifiedError
classify_api e =
    if e.status is 401
    then of_api auth unauthorized e
    else if e.status is 403
    then of_api auth forbidden e
    else if e.status is 404
    then of_api api not_found e
    else of_api api (if leb 500 e.status then server_error else generic) e

abbrev auth_key : AuthKind → MessageKey
auth_key forbidden = forbidden
auth_key unauthenticated = unauthorized

unfoldable pub classify_error : (fresh : String) → Thrown → ClassifiedError
unfolding classify_api
classify_error fresh (api e) = classify_api e
classify_error fresh (validation fields message trace) = plain validation validation trace
classify_error fresh (network message trace) = plain network network trace
classify_error fresh (auth kind message trace) = plain auth (auth_key kind) trace
classify_error fresh (permission message trace) = plain auth forbidden trace
classify_error fresh (type_error message) = plain network network fresh
classify_error fresh (app message trace) = plain unknown generic trace
classify_error fresh (error name message) = plain unknown generic fresh
classify_error fresh (non_error text) = plain unknown generic fresh

pub record SerializedError : Type 0 where
  pub name : String
  pub message : String
  pub trace_id : String
  pub status : Option ℕ
  pub code : Option String
  pub field_names : Option (List String)

-- `error.name`, or "NonError"
abbrev pub name_of : Thrown → String
name_of (api e) = "ApiError"
name_of (validation fields message trace) = "ValidationError"
name_of (network message trace) = "NetworkError"
name_of (auth kind message trace) = "AuthError"
name_of (permission message trace) = "PermissionError"
name_of (app message trace) = "AppError"
name_of (type_error message) = "TypeError"
name_of (error name message) = name
name_of (non_error text) = "NonError"

-- `error.message`, or `String(error)`
abbrev pub message_of : Thrown → String
message_of (api e) = e.message
message_of (validation fields message trace) = message
message_of (network message trace) = message
message_of (auth kind message trace) = message
message_of (permission message trace) = message
message_of (app message trace) = message
message_of (type_error message) = message
message_of (error name message) = message
message_of (non_error text) = text

abbrev status_of : Thrown → Option ℕ
status_of (api e) = some e.status
status_of _ = none

abbrev code_of : Thrown → Option String
code_of (api e) = some e.code
code_of _ = none

-- `Object.keys(o)`
unfoldable pub keys {ℓ} : {V : Type ℓ} → Entries V → List String
keys [] = []
keys ((k, v) ∷ m) = k ∷ keys m

abbrev field_names_of : Thrown → Option (List String)
field_names_of (validation fields message trace) = some (keys fields)
field_names_of _ = none

unfoldable pub serialize_error : (fresh : String) → Thrown → SerializedError
unfolding classify_error keys
serialize_error fresh e = record {
  name = name_of e;
  message = message_of e;
  trace_id = (classify_error fresh e).trace_id;
  status = status_of e;
  code = code_of e;
  field_names = field_names_of e;
}

unfoldable pub safe_user_message : (fresh : String) → Thrown → MessageKey × String
unfolding classify_error
safe_user_message fresh e = let c = classify_error fresh e in (c.message_key, c.trace_id)
