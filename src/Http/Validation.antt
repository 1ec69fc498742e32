-- ===== src/Http/Validation.antt =====
-- services/api/internal/adapters/inbound/http/validation.go: the application name rule, the
-- messages of a failed validation, and decoding a request. The validator library and the JSON
-- decoder are arguments.
pub mod Names
pub mod Decoding
mod Tests
use cloud_ops_manager.Common.{
  ◌+◌, ℕ, String, Bool, true, false, ◌&&◌, ◌||◌, Option, some, none, List, [], ◌∷◌, ◌++◌, Result,
  map, str_eq, ltb, leb, ◌==◌, if◌then◌else◌, null,
}
use cloud_ops_manager.Text.{
  Text, codes, byte_len, is_lower_letter, is_upper_letter, is_digit, to_lower,
}
use cloud_ops_manager.Text.Regex.{Regex, one, seq, alt, star, matches}
use cloud_ops_manager.Http.Writer.{ValidationError, World, Writer, on_writer, header_get}
use cloud_ops_manager.Http.Response.{
  respond_with_error, respond_with_validation_error, error_response, err_code_invalid_json,
  err_code_missing_header,
}

abbrev pub is_alnum : ℕ → Bool
is_alnum c = is_lower_letter c || is_digit c

abbrev pub is_hyphen : ℕ → Bool
is_hyphen c = c == b'-'

-- ^[a-z]([a-z0-9]|-[a-z0-9])*$
abbrev pub application_name_regex : Regex
application_name_regex =
    seq (one is_lower_letter) (star (alt (one is_alnum) (seq (one is_hyphen) (one is_alnum))))

abbrev pub application_name_min_length : ℕ
application_name_min_length = 3

abbrev pub application_name_max_length : ℕ
application_name_max_length = 40

unfoldable pub validate_application_name : Text → Bool
validate_application_name value =
    if ltb (byte_len value) application_name_min_length
      || ltb application_name_max_length (byte_len value)
    then false
    else matches application_name_regex value

-- What init registers with the validator, by tag.
abbrev pub registered : List (String × (Text → Bool))
registered = ("appname", validate_application_name) ∷ []

-- validator.FieldError: the field, the tag that failed, its parameter, and the value.
pub record FieldError : Type 0 where
  pub field : Text
  pub tag : String
  pub param : Text
  pub value : Text

abbrev pub snake : ℕ → Text → Text
snake i [] = []
snake i (c ∷ s) =
    let rest = snake (i + 1) s in if ltb 0 i && is_upper_letter c then b'_' ∷ c ∷ rest else c ∷ rest

-- toSnakeCase: an underscore before each capital but one at the start, then lower case.
unfoldable pub to_snake_case : (ℕ → ℕ) → Text → Text
to_snake_case beyond s = to_lower beyond (snake 0 s)

-- formatValidationMessage behind the field's name
abbrev pub message_of : String → Text → Text
message_of tag param =
    if str_eq tag "required"
    then codes " is required"
    else if str_eq tag "email"
    then codes " must be a valid email address"
    else if str_eq tag "min"
    then codes " must be at least " ++ (param ++ codes " characters")
    else if str_eq tag "max"
    then codes " must be at most " ++ (param ++ codes " characters")
    else if str_eq tag "oneof"
    then codes " must be one of: " ++ param
    else if str_eq tag "appname"
    then codes
        " must be 3-40 characters, lowercase, start with a letter, end with a letter or digit, and contain only letters, digits and single hyphens"
    else if str_eq tag "url"
    then codes " must be a valid URL"
    else if str_eq tag "uuid"
    then codes " must be a valid UUID"
    else if str_eq tag "alphanum"
    then codes " must contain only alphanumeric characters"
    else if str_eq tag "gte"
    then codes " must be greater than or equal to " ++ param
    else if str_eq tag "lte"
    then codes " must be less than or equal to " ++ param
    else codes " failed validation: " ++ codes tag

unfoldable pub format_validation_message : (ℕ → ℕ) → FieldError → Text
unfolding to_snake_case
format_validation_message beyond e = to_snake_case beyond e.field ++ message_of e.tag e.param

unfoldable pub validation_error : (ℕ → ℕ) → FieldError → ValidationError
unfolding to_snake_case format_validation_message
validation_error beyond e = record {
  field = to_snake_case beyond e.field;
  message = format_validation_message beyond e;
  value = some e.value;
}

-- ValidateStruct on what the validator reports.
abbrev pub validate_struct :
    {T : Type 0} → (ℕ → ℕ) → (T → List FieldError) → T → List ValidationError
validate_struct beyond check t = map (validation_error beyond) (check t)

module _ {S T : Type 0} (beyond : ℕ → ℕ) (decode : Result String Text → Option T)
    (check : T → List FieldError) where
  abbrev pub validated : String → T → List ValidationError → World S → Option T × World S
  validated id t [] w = (some t, w)
  validated id t (e ∷ es) w = (none, on_writer (respond_with_validation_error id (e ∷ es)) w)

  abbrev pub decoded : String → Option T → World S → Option T × World S
  decoded id none w = (
    none,
    on_writer
        (respond_with_error 400
          (error_response err_code_invalid_json "Invalid JSON in request body" id))
        w,
  )
  decoded id (some t) w = validated id t (validate_struct beyond check t) w

  -- The decoded request, or `none` behind an error response.
  unfoldable pub decode_and_validate : String → World S → Option T × World S
  decode_and_validate id w = decoded id (decode w.request.body) w

-- ValidateRequiredHeader
unfoldable pub validate_required_header :
    {S : Type 0} → String → Text → String → World S → Bool × World S
validate_required_header name shown id w =
    if str_eq (header_get name w.request.headers) ""
    then (
      false,
      on_writer
          (respond_with_error 400 (record {
            code = err_code_missing_header;
            message = codes "Missing required header: " ++ shown;
            request_id = id;
            details =
                record {
                  field = shown;
                  message = codes "Header '" ++ (shown ++ codes "' is required");
                  value = none;
                }
                ∷ [];
          }))
          w,
    )
    else (true, w)
