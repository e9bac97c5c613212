-- ===== src/Responses.antt =====
-- common/filters/http-exception.filter.ts: the answer to a request that has thrown.
use text.Mathlib.Text.{◌==◌ as str_eq}
use kigali_pack.Base.{ℕ, ◌≡◌, ap, false, Option, none, some, List, String, ◌==◌, if◌then◌else◌}

-- `body.message`: a text, an array of texts, or something else.
pub data RawMessage : Type 0 where
  single : String → RawMessage
  several : List String → RawMessage
  other : RawMessage

-- What `getResponse` gives: a text, or an object, with its `error` if that is a text.
pub data ExceptionResponse : Type 0 where
  plain : String → ExceptionResponse
  body : RawMessage → Option String → ExceptionResponse

pub data Thrown : Type 0 where
  http_exception : ℕ → ExceptionResponse → Thrown
  -- An `Error`, or anything else.
  unexpected : Thrown

pub record ErrorAnswer : Type 0 where
  pub status : ℕ
  pub code : String
  pub message : String

-- `join('; ')` and `toUpperCase().replace(/\s+/g, '_')`.
pub record TextRuntime : Type 0 where
  pub join : List String → String
  pub to_code : String → String

-- `map[status] ?? fallback`
abbrev code_of_status : ℕ → String → String
code_of_status status fallback =
    if status == 400
    then "BAD_REQUEST"
    else if status == 401
    then "UNAUTHORIZED"
    else if status == 403
    then "FORBIDDEN"
    else if status == 404
    then "NOT_FOUND"
    else if status == 409
    then "CONFLICT"
    else if status == 429
    then "RATE_LIMIT_EXCEEDED"
    else if status == 422
    then "VALIDATION_ERROR"
    else fallback

unfoldable pub map_status_to_code : ℕ → String → String
map_status_to_code status fallback =
    if str_eq fallback "VALIDATION_ERROR" then fallback else code_of_status status fallback

abbrev unexpected_message : String
unexpected_message = "An unexpected error occurred"

module _ (rt : TextRuntime) where
  abbrev message_of : ExceptionResponse → String
  message_of (plain s) = s
  message_of (body (single s) error) = s
  message_of (body (several messages) error) = rt.join messages
  message_of (body other error) = unexpected_message

  -- The code before it is mapped.
  abbrev error_code : ℕ → Option String → String
  error_code status none = "INTERNAL_ERROR"
  error_code status (some error) = if status == 400 then rt.to_code error else "INTERNAL_ERROR"

  abbrev raw_code : ℕ → ExceptionResponse → String
  raw_code status (plain s) = "INTERNAL_ERROR"
  raw_code status (body (several messages) error) = "VALIDATION_ERROR"
  raw_code status (body (single s) error) = error_code status error
  raw_code status (body other error) = error_code status error

  unfoldable pub catch_exception : Thrown → ErrorAnswer
  catch_exception unexpected = record {
    status = 500;
    code = "INTERNAL_ERROR";
    message = unexpected_message;
  }
  catch_exception (http_exception status response) = record {
    status = status;
    code = map_status_to_code status (raw_code status response);
    message = message_of response;
  }

  -- The `error` of a bad request is replaced, unless it spells the code of a validation error.
  pub catch_exception_error :
      (message : String) (error : String)
      → str_eq (rt.to_code error) "VALIDATION_ERROR" ≡ false
      → (catch_exception (http_exception 400 (body (single message) (some error)))).code
        ≡ "BAD_REQUEST"
  unfolding catch_exception map_status_to_code
  catch_exception_error message error differs =
      ap (λ b. if b then rt.to_code error else "BAD_REQUEST") differs
