-- ===== src/Gateway/Types.antt =====
-- src/services/llm-browser-gateway/llm_browser_gateway/adapters/common/types.py: statuses and results.
-- Instants are microseconds.
use Prim.Native.String.{String}
use stock_prediction.Base.{ℕ, Bool, true, false, not, ◌&&◌, Option, none, some, ◌<>◌}

pub data Status : Type 0 where
  success rate_limited login_required verification_required disconnected ui_changed temporary
        invalid_output unknown invalid_request refused :
      Status

pub value : Status → String
value success = "success"
value rate_limited = "rate_limited"
value login_required = "login_required"
value verification_required = "verification_required"
value disconnected = "browser_disconnected"
value ui_changed = "ui_changed"
value temporary = "temporary_unavailable"
value invalid_output = "invalid_output"
value unknown = "submission_unknown"
value invalid_request = "invalid_request"
value refused = "refused"

-- Membership in `REQUEST_FAILURES`.
abbrev pub is_request_failure : Status → Bool
is_request_failure invalid_output = true
is_request_failure invalid_request = true
is_request_failure _ = false

abbrev pub is_unknown : Status → Bool
is_unknown unknown = true
is_unknown _ = false

abbrev pub is_rate_limited : Status → Bool
is_rate_limited rate_limited = true
is_rate_limited _ = false

abbrev pub is_success : Status → Bool
is_success success = true
is_success _ = false

-- A JSON body: an adapter's own, by its text, or that of `error_body`.
pub data Body : Type 0 where
  response : String → Body
  error : (message code : String) (param : Option String) → Body

pub error_body : String → String → Body
error_body message code = error message code none

pub record Result : Type 0 where
  pub body : Body
  pub http_status : ℕ
  pub status : Status
  pub submitted : Option Bool
  pub retry_safe : Bool
  pub reset_at : Option ℕ

pub record BrowserResult : Type 0 where
  pub status : Status
  pub text : String
  pub submitted : Option Bool
  pub reset_at : Option ℕ

http_of : Status → ℕ
http_of rate_limited = 429
http_of invalid_request = 400
http_of invalid_output = 502
http_of _ = 503

is_known : Option Bool → Bool
is_known none = false
is_known (some b) = true

unfoldable pub failure : Status → Option Bool → Result
unfolding value error_body http_of is_known
failure status submitted = record {
  body = error_body ("Browser adapter reported " <> value status) (value status);
  http_status = http_of status;
  status = status;
  submitted = submitted;
  retry_safe = is_known submitted && not (is_unknown status);
  reset_at = none;
}
