-- ===== src/Http/Handlers/Auth.antt =====
-- What the auth handlers tell a client.
use cloud_ops_manager.Common.{ℕ, String, ◌≡◌, refl, Option, some, List, [], ◌∷◌, Result, ok, err}
use cloud_ops_manager.Text.{Text}
use cloud_ops_manager.Domain.Errors.{GoError}
use cloud_ops_manager.Domain.Model.{SignInRequest}
use cloud_ops_manager.Http.Writer.{World, Chunk, error_json, api_json, auth, AuthResponse}
use cloud_ops_manager.Http.Writer.Laws.{IsFresh, Received}
use cloud_ops_manager.Http.Response.{error_response, new_api_response, err_code_unauthorized}
use cloud_ops_manager.Http.Response.Laws.{
  json_headers, respond_with_error-Received, respond_with_json-Received,
}
use cloud_ops_manager.Http.Validation.{FieldError}
use cloud_ops_manager.Http.Validation.Decoding.{decode_and_validate_valid}
use cloud_ops_manager.Http.Handlers.{
  AuthProvider, sign_in, sign_in_answer, sign_in_decoded, get_request_id,
}

abbrev pub sign_in_status : Result GoError AuthResponse → ℕ
sign_in_status (ok r) = 200
sign_in_status (err e) = 401

-- The document does not depend on the error.
abbrev pub sign_in_document : String → String → Result GoError AuthResponse → Chunk
sign_in_document now id (ok r) = api_json (new_api_response now (auth r) id)
sign_in_document now id (err e) =
    error_json (error_response err_code_unauthorized "Invalid credentials" id)

module _ {S : Type 0} (provider : AuthProvider S) (beyond : ℕ → ℕ)
    (decode : Result String Text → Option SignInRequest)
    (check : SignInRequest → List FieldError) where
  sign_in_answer-Received :
      (id : String) (email : Text) (result : Result GoError AuthResponse) (w : World S)
      → IsFresh w.writer
      → Received
          (sign_in_status result)
          (json_headers w.writer)
          (sign_in_document w.now id result ∷ [])
          (sign_in_answer provider id email result w).1.writer
  sign_in_answer-Received id email (ok r) w f = respond_with_json-Received 200 _ w.writer f
  sign_in_answer-Received id email (err e) w f = respond_with_error-Received 401 _ w.writer f

  pub sign_in_of_valid :
      (r : SignInRequest) (w : World S)
      → decode w.request.body ≡ some r
      → check r ≡ []
      → sign_in provider beyond decode check w
        ≡ sign_in_decoded provider (get_request_id w.request) r w
  unfolding sign_in
  sign_in_of_valid r w h k =
      rw (decode_and_validate_valid beyond decode check (get_request_id w.request) r w h k) refl

  -- A sign-in that passes validation, through a fresh writer: the client has received status 200
  -- with the provider's tokens, or status 401 with one and the same document for every error.
  pub sign_in_answers :
      (r : SignInRequest) (w : World S)
      → IsFresh w.writer
      → decode w.request.body ≡ some r
      → check r ≡ []
      → let result = (provider.sign_in r.email r.password w.env).0 in
        Received
          (sign_in_status result)
          (json_headers w.writer)
          (sign_in_document w.now (get_request_id w.request) result ∷ [])
          (sign_in provider beyond decode check w).1.writer
  sign_in_answers r w f h k = rw (sign_in_of_valid r w h k) (
      sign_in_answer-Received (get_request_id w.request) r.email _
        (record w { env = (provider.sign_in r.email r.password w.env).1 }) f)
