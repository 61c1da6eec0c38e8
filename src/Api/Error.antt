-- ===== src/Api/Error.antt =====
-- src/api/error.rs.
use Prim.Native.String.{◌++◌ as append}
use chain_data_service.Base.{ℕ, String}
use chain_data_service.Validation.{
  ValidationError, missing_parameter, invalid_action, invalid_solana_address,
}
use chain_data_service.Validation
use chain_data_service.Db.Tables.{SqlxError}
use chain_data_service.Api.Response.{Response, respond, error_json}

pub data ApiError : Type 0 where
  bad_request : String → ApiError
  not_found : String → ApiError
  database : SqlxError → ApiError
  internal : String → ApiError
  invalid_address : ApiError
  invalid_parameter : String → ApiError

-- The status, with the constants of `http::StatusCode`.
unfoldable pub status_of : ApiError → ℕ
status_of (bad_request m) = 400
status_of (not_found m) = 404
status_of (database e) = 500
status_of (internal m) = 500
status_of invalid_address = 400
status_of (invalid_parameter m) = 400

unfoldable pub message_of : ApiError → String
message_of (bad_request m) = append "Invalid request: " m
message_of (not_found m) = append "Resource not found: " m
message_of (database e) = "Database error occurred"
message_of (internal m) = "Internal server error"
message_of invalid_address = "Invalid blockchain address format"
message_of (invalid_parameter m) = append "Invalid parameter: " m

unfoldable pub into_response : ApiError → Response
unfolding status_of message_of
into_response e = respond (status_of e) (error_json (message_of e))

-- `From<ValidationError>`.
unfoldable pub of_validation : ValidationError → ApiError
of_validation (invalid_solana_address a) = invalid_address
of_validation (invalid_action m) = invalid_parameter (append "Invalid action: " m)
of_validation (missing_parameter p) = bad_request (append "Missing parameter: " p)
of_validation (Validation.invalid_parameter m) = invalid_parameter m
