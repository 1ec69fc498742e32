-- ===== src/Http/Response.antt =====
-- services/api/internal/adapters/inbound/http/validation.go (the error codes and the helpers that
-- write a response) and response.go (the envelope).
pub mod Laws
use cloud_ops_manager.Common.{ℕ, String, Bool, true, List, []}
use cloud_ops_manager.Text.{Text, codes}
use cloud_ops_manager.Config.{Signed}
use cloud_ops_manager.Http.Writer.{
  ErrorResponse, ValidationError, ApiResponse, Payload, Chunk, error_json, api_json, Writer,
  set_header, write_header, write,
}

abbrev pub err_code_validation : String
err_code_validation = "VALIDATION_ERROR"

abbrev pub err_code_invalid_json : String
err_code_invalid_json = "INVALID_JSON"

abbrev pub err_code_missing_header : String
err_code_missing_header = "MISSING_HEADER"

abbrev pub err_code_internal_error : String
err_code_internal_error = "INTERNAL_ERROR"

abbrev pub err_code_unauthorized : String
err_code_unauthorized = "UNAUTHORIZED"

abbrev pub err_code_idempotency_key_invalid : String
err_code_idempotency_key_invalid = "IDEMPOTENCY_KEY_INVALID"

abbrev pub err_code_idempotency_key_mismatch : String
err_code_idempotency_key_mismatch = "IDEMPOTENCY_KEY_MISMATCH"

abbrev pub err_code_idempotency_in_progress : String
err_code_idempotency_in_progress = "IDEMPOTENT_REQUEST_IN_PROGRESS"

-- An error response without details.
unfoldable pub error_response : String → String → String → ErrorResponse
error_response code message id = record {
  code = code;
  message = codes message;
  request_id = id;
  details = [];
}

-- Content-Type, the status, and one JSON document.
abbrev pub respond : ℕ → Chunk → Writer → Writer
respond status c w = write c (write_header status (set_header "Content-Type" "application/json" w))

unfoldable pub respond_with_error : ℕ → ErrorResponse → Writer → Writer
respond_with_error status e = respond status (error_json e)

unfoldable pub respond_with_validation_error : String → List ValidationError → Writer → Writer
unfolding respond_with_error
respond_with_validation_error id errors = respond_with_error 400 (record {
  code = err_code_validation;
  message = codes "Request validation failed";
  request_id = id;
  details = errors;
})

unfoldable pub respond_with_json : ℕ → ApiResponse → Writer → Writer
respond_with_json status r = respond status (api_json r)

-- APIVersionPrefix[1:] of router.go, whose prefix is "/v1".
abbrev pub api_version : String
api_version = "v1"

-- NewAPIResponse, at the time `now`.
unfoldable pub new_api_response : String → Payload → String → ApiResponse
new_api_response now payload id = record {
  success = true;
  payload = payload;
  request_id = id;
  timestamp = now;
  api_version = api_version;
}

-- The pages of a list, and NewPaginatedResponse.
pub record PaginationMeta : Type 0 where
  pub page : Signed
  pub per_page : Signed
  pub total_items : Signed
  pub total_pages : Signed
  pub next_cursor : Text
  pub prev_cursor : Text

pub record PaginatedResponse (A : Type 0) : Type 0 where
  pub success : Bool
  pub items : List A
  pub request_id : String
  pub timestamp : String
  pub api_version : String
  pub pagination : PaginationMeta

unfoldable pub new_paginated_response :
    {A : Type 0} → String → List A → String → PaginationMeta → PaginatedResponse A
new_paginated_response now items id pages = record {
  success = true;
  items = items;
  request_id = id;
  timestamp = now;
  api_version = api_version;
  pagination = pages;
}
