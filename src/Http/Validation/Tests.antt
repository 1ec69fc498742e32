-- ===== src/Http/Validation/Tests.antt =====
-- Names and bodies at work.
use cloud_ops_manager.Common.{
  ◌≡◌, ◌↔◌, refl, String, true, false, Option, some, none, List, [], ◌∷◌, Result, if◌then◌else◌, ok,
  err, ◌≤◌, all, map,
}
use cloud_ops_manager.Text.{lower_rune, Text, codes, text_eq}
use cloud_ops_manager.Http.Writer.{World, status_recorder, error_json}
use cloud_ops_manager.Http.Writer.Laws.{Received}
use cloud_ops_manager.Http.Response.Laws.{json_headers}
use cloud_ops_manager.Http.Validation.{
  FieldError, validate_application_name, decode_and_validate, to_snake_case, validation_error,
}
use cloud_ops_manager.Http.Validation.Names.{
  validate_application_name_iff, starts_lower, name_char, loose_hyphen,
}
use cloud_ops_manager.Http.Validation.Decoding.{decode_and_validate_answers}

validate_application_name_iff_example :
    (validate_application_name (codes "payments-api") ≡ true) ↔ (
      (3 ≤ 12)
      × (12 ≤ 40)
      × (starts_lower (codes "payments-api") ≡ true)
      × (all name_char (codes "payments-api") ≡ true)
      × (loose_hyphen (codes "payments-api") ≡ false))
validate_application_name_iff_example = validate_application_name_iff (codes "payments-api")

double_hyphen : validate_application_name (codes "payments--api") ≡ false
unfolding validate_application_name cloud_ops_manager.Text.Regex.matches
double_hyphen = refl

too_short : validate_application_name (codes "ab") ≡ false
unfolding validate_application_name
too_short = refl

snaked : to_snake_case (λ c. c) (codes "ConfirmationCode") ≡ codes "confirmation_code"
unfolding to_snake_case lower_rune
snaked = refl

-- A decoder of names, and a validator that wants a valid one.
decode_name : Result String Text → Option Text
decode_name (ok body) = some body
decode_name (err e) = none

check_name : Text → List FieldError
check_name n =
    if validate_application_name n
    then []
    else record { field = codes "Name"; tag = "appname"; param = []; value = n } ∷ []

abbrev bad_world : World Unit
bad_world = record {
  request = record {
    method = "POST";
    path = "/v1/provision";
    pattern = "";
    headers = [];
    body = ok (codes "Payments");
  };
  writer = record {
    layers = status_recorder 200 ∷ [];
    base = record { headers = []; sent = none; body = [] };
  };
  env = tt;
  logs = [];
  now = "";
}

decode_and_validate_answers_example :
    let (result, w) = decode_and_validate (λ c. c) decode_name check_name "r-1" bad_world in
    (result ≡ none)
    × (w.env ≡ tt)
    × (w.logs ≡ [])
    × Received 400
        (json_headers bad_world.writer)
        (error_json (record {
          code = "VALIDATION_ERROR";
          message = codes "Request validation failed";
          request_id = "r-1";
          details = map (validation_error (λ c. c)) (check_name (codes "Payments"));
        })
          ∷ [])
        w.writer
unfolding decode_name check_name validate_application_name cloud_ops_manager.Text.Regex.matches
decode_and_validate_answers_example =
    decode_and_validate_answers (λ c. c) decode_name check_name "r-1" bad_world
      (record { plain = tt; unsent = refl; blank = refl })
