-- ===== src/Domain/Errors.antt =====
-- services/api/internal/domain/errors/errors.go
-- An error of another package is `other`; a DomainError with a nil cause is `root`. errors.Is
-- compares by identity and asks an error's own Is.
mod Tests
use cloud_ops_manager.Common.{
  ◌==◌, ℕ, String, ◌≡◌, refl, Bool, true, false, Option, some, none, List, [], ◌∷◌, ◌++◌, ◌||◌,
  str_eq, insert, arith, null, length,
}
use cloud_ops_manager.Text.{Text, codes}

pub data Sentinel : Type 0 where
  err_not_found err_already_exists err_invalid_input err_unauthorized : Sentinel
  err_forbidden err_internal err_timeout err_unavailable : Sentinel

abbrev pub sentinel_index : Sentinel → ℕ
sentinel_index err_not_found = 0
sentinel_index err_already_exists = 1
sentinel_index err_invalid_input = 2
sentinel_index err_unauthorized = 3
sentinel_index err_forbidden = 4
sentinel_index err_internal = 5
sentinel_index err_timeout = 6
sentinel_index err_unavailable = 7

-- The details of a DomainError, by key.
abbrev pub Details : Type 0
Details = List (String × Text)

pub data GoError : Type 0 where
  sentinel : Sentinel → GoError
  other : Text → GoError
  root : String → Text → Details → GoError
  wrapping : String → Text → GoError → Details → GoError

abbrev pub sentinel_text : Sentinel → String
sentinel_text err_not_found = "resource not found"
sentinel_text err_already_exists = "resource already exists"
sentinel_text err_invalid_input = "invalid input"
sentinel_text err_unauthorized = "unauthorized"
sentinel_text err_forbidden = "forbidden"
sentinel_text err_internal = "internal error"
sentinel_text err_timeout = "operation timed out"
sentinel_text err_unavailable = "service unavailable"

-- Error()
unfoldable pub error_text : GoError → Text
error_text (sentinel s) = codes (sentinel_text s)
error_text (other t) = t
error_text (root code message details) = codes code ++ (codes ": " ++ message)
error_text (wrapping code message cause details) =
    codes code ++ (codes ": " ++ (message ++ (codes ": " ++ error_text cause)))

-- Unwrap()
unfoldable pub unwrap : GoError → Option GoError
unwrap (wrapping code message cause details) = some cause
unwrap _ = none

-- errors.Is(err, s) for a sentinel s: the error itself, or DomainError.Is on its cause.
unfoldable pub is_error : GoError → Sentinel → Bool
is_error (sentinel s) t = sentinel_index s == sentinel_index t
is_error (other m) t = false
is_error (root code message details) t = false
is_error (wrapping code message cause details) t = is_error cause t

-- WithDetail on a DomainError: the map is made when it is missing.
unfoldable pub with_detail : String → Text → GoError → GoError
with_detail k v (root code message details) = root code message (insert k v details)
with_detail k v (wrapping code message cause details) =
    wrapping code message cause (insert k v details)
with_detail k v e = e

unfoldable pub new_domain_error : String → Text → Option GoError → GoError
new_domain_error code message none = root code message []
new_domain_error code message (some cause) = wrapping code message cause []

abbrev pub err_code_resource_not_found : String
err_code_resource_not_found = "RESOURCE_NOT_FOUND"

abbrev pub err_code_resource_already_exists : String
err_code_resource_already_exists = "RESOURCE_ALREADY_EXISTS"

abbrev pub err_code_auth_failed : String
err_code_auth_failed = "AUTH_FAILED"

abbrev pub err_code_user_already_exists : String
err_code_user_already_exists = "USER_ALREADY_EXISTS"

abbrev pub err_code_invalid_credentials : String
err_code_invalid_credentials = "INVALID_CREDENTIALS"

abbrev pub err_code_invalid_confirmation_code : String
err_code_invalid_confirmation_code = "INVALID_CONFIRMATION_CODE"

abbrev pub err_code_validation_failed : String
err_code_validation_failed = "VALIDATION_FAILED"

abbrev pub err_code_external_service : String
err_code_external_service = "EXTERNAL_SERVICE_ERROR"

abbrev pub err_code_queue_error : String
err_code_queue_error = "QUEUE_ERROR"

unfoldable pub not_found : Text → Text → GoError
unfolding new_domain_error
not_found resource id =
    new_domain_error err_code_resource_not_found
      (resource ++ (codes " with id '" ++ (id ++ codes "' not found")))
      (some (sentinel err_not_found))

unfoldable pub already_exists : Text → Text → GoError
unfolding new_domain_error
already_exists resource id =
    new_domain_error err_code_resource_already_exists
      (resource ++ (codes " with id '" ++ (id ++ codes "' already exists")))
      (some (sentinel err_already_exists))

unfoldable pub invalid_input : Text → GoError
unfolding new_domain_error
invalid_input message =
    new_domain_error err_code_validation_failed message (some (sentinel err_invalid_input))

unfoldable pub unauthorized : Text → GoError
unfolding new_domain_error
unauthorized message =
    new_domain_error err_code_auth_failed message (some (sentinel err_unauthorized))

unfoldable pub forbidden : Text → GoError
unfolding new_domain_error
forbidden message = new_domain_error err_code_auth_failed message (some (sentinel err_forbidden))

unfoldable pub internal : Text → Option GoError → GoError
unfolding new_domain_error
internal message cause = new_domain_error err_code_external_service message cause

-- One field that is not valid. (Its value, of any type, is not kept.)
pub record ValidationError : Type 0 where
  pub field : Text
  pub message : Text

abbrev pub new_validation_error : Text → Text → ValidationError
new_validation_error field message = record { field = field; message = message }

abbrev pub validation_error_text : ValidationError → Text
validation_error_text e = e.field ++ (codes ": " ++ e.message)

-- The text of some errors; `itoa` is how fmt writes a number.
unfoldable pub validation_errors_text : (ℕ → Text) → List ValidationError → Text
validation_errors_text itoa [] = codes "validation failed"
validation_errors_text itoa (e ∷ es) =
    codes "validation failed: " ++ (itoa (length (e ∷ es)) ++ codes " errors")

-- Each constructor's error is its own sentinel under errors.Is and no other, whatever details are
-- added to it; `internal` is what its cause is.
constructors_is :
    (k : String) (v resource id : Text) (message : Text) (cause : GoError) (t : Sentinel)
    → (is_error (with_detail k v (not_found resource id)) t ≡ (0 == sentinel_index t))
      × (is_error (with_detail k v (already_exists resource id)) t ≡ (1 == sentinel_index t))
      × (is_error (with_detail k v (invalid_input message)) t ≡ (2 == sentinel_index t))
      × (is_error (with_detail k v (unauthorized message)) t ≡ (3 == sentinel_index t))
      × (is_error (with_detail k v (forbidden message)) t ≡ (4 == sentinel_index t))
      × (is_error (with_detail k v (internal message (some cause))) t ≡ is_error cause t)
      × (is_error (internal message none) t ≡ false)
unfolding is_error with_detail not_found already_exists invalid_input unauthorized forbidden
    internal
constructors_is k v resource id message cause t = (refl, refl, refl, refl, refl, refl, refl)
