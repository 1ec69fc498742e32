-- ===== src/Cognito/Laws.antt =====
-- A sign-in through the handler, the service and the Cognito adapter.
use cloud_ops_manager.Common.{
  ℕ, String, ◌≡◌, refl, Option, some, none, List, [], ◌∷◌, Result, ok, err,
}
use cloud_ops_manager.Text.{Text}
use cloud_ops_manager.Domain.Errors.{GoError}
use cloud_ops_manager.Domain.Model.{SignInRequest}
use cloud_ops_manager.Http.Writer.{World, Chunk, error_json, api_json, auth}
use cloud_ops_manager.Http.Writer.Laws.{IsFresh, Received}
use cloud_ops_manager.Http.Response.{error_response, new_api_response, err_code_unauthorized}
use cloud_ops_manager.Http.Response.Laws.{json_headers}
use cloud_ops_manager.Http.Validation.{FieldError}
use cloud_ops_manager.Http.Handlers.{sign_in, get_request_id}
use cloud_ops_manager.Http.Handlers.Auth.{sign_in_answers, sign_in_status, sign_in_document}
use cloud_ops_manager.Cognito.{
  cognito_sign_in, Client, InitiateAuthInput, AuthenticationResult, cognito_auth_provider,
  to_string, authenticated,
}

-- A token that Cognito did not send is an empty text.
abbrev pub or_empty : Option Text → Text
or_empty none = []
or_empty (some token) = token

-- What the client of the API receives for an answer of Cognito: each token under its own name.
abbrev pub shown_status : Result GoError (Option AuthenticationResult) → ℕ
shown_status (ok (some r)) = 200
shown_status _ = 401

abbrev pub shown_document : String → String → Result GoError (Option AuthenticationResult) → Chunk
shown_document now id (ok (some r)) = api_json (
    new_api_response now
      (auth (record {
        access_token = or_empty r.access_token;
        refresh_token = or_empty r.refresh_token;
        id_token = or_empty r.id_token;
        expires_in = r.expires_in;
        token_type = or_empty r.token_type;
      }))
      id)
shown_document now id _ = error_json (error_response err_code_unauthorized "Invalid credentials" id)

to_string_same : (token : Option Text) → to_string token ≡ or_empty token
to_string_same none = refl
to_string_same (some token) = refl

status_lem :
    (a : Result GoError (Option AuthenticationResult))
    → sign_in_status (authenticated a) ≡ shown_status a
status_lem (ok (some r)) = refl
status_lem (ok none) = refl
status_lem (err e) = refl

document_lem :
    (now id : String) (a : Result GoError (Option AuthenticationResult))
    → sign_in_document now id (authenticated a) ≡ shown_document now id a
document_lem now id (ok (some r)) =
    rw
      (
        to_string_same r.access_token,
        to_string_same r.refresh_token,
        to_string_same r.id_token,
        to_string_same r.token_type,
      )
      refl
document_lem now id (ok none) = refl
document_lem now id (err e) = refl

module _ {S : Type 0} (client : Client S) (client_id : Text) (beyond : ℕ → ℕ)
    (decode : Result String Text → Option SignInRequest)
    (check : SignInRequest → List FieldError) where
  -- A sign-in that passes validation, with Cognito behind the API, through a fresh writer: Cognito
  -- is asked with the user's name and password, and the client has received status 200 with the
  -- access, refresh and id token of its result, the token's type and its time to live, each in its
  -- own field, and those that are missing as empty texts. If Cognito fails or returns no
  -- result, it has received status 401 and one and the same document.
  pub cognito_sign_in_answers :
      (r : SignInRequest) (w : World S)
      → IsFresh w.writer
      → decode w.request.body ≡ some r
      → check r ≡ []
      → let asked : InitiateAuthInput = record {
        auth_flow = "USER_PASSWORD_AUTH";
        client_id = client_id;
        auth_parameters = ("USERNAME", r.email) ∷ ("PASSWORD", r.password) ∷ [];
      } in
        let answer = (client.initiate_auth asked w.env).0 in
        Received
          (shown_status answer)
          (json_headers w.writer)
          (shown_document w.now (get_request_id w.request) answer ∷ [])
          (sign_in (cognito_auth_provider client client_id) beyond decode check w).1.writer
  unfolding cognito_sign_in
  cognito_sign_in_answers r w f h k =
      let asked : InitiateAuthInput = record {
        auth_flow = "USER_PASSWORD_AUTH";
        client_id = client_id;
        auth_parameters = ("USERNAME", r.email) ∷ ("PASSWORD", r.password) ∷ [];
      } in
      let answer = (client.initiate_auth asked w.env).0 in
      rw (← status_lem answer, ← document_lem w.now (get_request_id w.request) answer)
        (sign_in_answers (cognito_auth_provider client client_id) beyond decode check r w f h k)
