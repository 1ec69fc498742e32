-- ===== src/Cognito/Tests.antt =====
-- A sign-in that Cognito answers without a result.
use cloud_ops_manager.Common.{lookup, refl, String, Option, some, none, List, [], ◌∷◌, Result, ok}
use cloud_ops_manager.Text.{Text, codes}
use cloud_ops_manager.Domain.Model.{SignInRequest}
use cloud_ops_manager.Http.Writer.{header_get, World, Writer, error_json}
use cloud_ops_manager.Http.Writer.Laws.{IsFresh, Received}
use cloud_ops_manager.Http.Response.{error_response}
use cloud_ops_manager.Http.Response.Laws.{json_headers}
use cloud_ops_manager.Http.Validation.{FieldError}
use cloud_ops_manager.Http.Handlers.{sign_in, get_request_id}
use cloud_ops_manager.Cognito.{Client, cognito_auth_provider}
use cloud_ops_manager.Cognito.Laws.{cognito_sign_in_answers}

abbrev silent : Client Unit
silent = record {
  sign_up = λ input s. (ok tt, s);
  initiate_auth = λ input s. (ok none, s);
  confirm_sign_up = λ input s. (ok tt, s);
}

abbrev credentials : SignInRequest
credentials = record { email = codes "ann@x.io"; password = codes "secret" }

decode_credentials : Result String Text → Option SignInRequest
decode_credentials body = some credentials

abbrev passes : SignInRequest → List FieldError
passes r = []

abbrev unsent_writer : Writer
unsent_writer = record { layers = []; base = record { headers = []; sent = none; body = [] } }

unsent_writer-IsFresh : IsFresh unsent_writer
unsent_writer-IsFresh = record { plain = tt; unsent = refl; blank = refl }

abbrev asking : World Unit
asking = record {
  request = record {
    method = "POST";
    path = "/v1/auth/signin";
    pattern = "";
    headers = [];
    body = ok (codes "{}");
  };
  writer = unsent_writer;
  env = tt;
  logs = [];
  now = "noon";
}

cognito_sign_in_answers_example :
    Received 401
      (json_headers unsent_writer)
      (error_json (error_response "UNAUTHORIZED" "Invalid credentials" "") ∷ [])
      (sign_in
        (cognito_auth_provider silent (codes "client"))
        (λ c. c)
        decode_credentials
        passes
        asking).1.writer
unfolding decode_credentials get_request_id header_get lookup
cognito_sign_in_answers_example =
    cognito_sign_in_answers silent (codes "client") (λ c. c) decode_credentials passes credentials
      asking unsent_writer-IsFresh refl refl
