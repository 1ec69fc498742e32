-- ===== src/Cognito.antt =====
-- services/api/internal/adapters/outbound/cognito/auth_provider.go. The Cognito client is an
-- argument.
pub mod Laws
mod Tests
use cloud_ops_manager.Common.{ℕ, String, Option, some, none, List, [], ◌∷◌, Result, ok, err}
use cloud_ops_manager.Text.{Text, codes}
use cloud_ops_manager.Config.{Signed}
use cloud_ops_manager.Domain.Errors.{
  GoError, Sentinel, sentinel, err_unauthorized, new_domain_error, err_code_user_already_exists,
  err_code_invalid_credentials, err_code_auth_failed, err_code_invalid_confirmation_code,
}
use cloud_ops_manager.Http.Writer.{AuthResponse}
use cloud_ops_manager.Http.Handlers.{AuthProvider}

pub record SignUpInput : Type 0 where
  pub client_id : Text
  pub username : Text
  pub password : Text
  pub user_attributes : List (String × Text)

pub record InitiateAuthInput : Type 0 where
  pub auth_flow : String
  pub client_id : Text
  pub auth_parameters : List (String × Text)

pub record ConfirmSignUpInput : Type 0 where
  pub client_id : Text
  pub username : Text
  pub confirmation_code : Text

-- types.AuthenticationResultType, where a nil pointer is `none`.
pub record AuthenticationResult : Type 0 where
  pub access_token : Option Text
  pub refresh_token : Option Text
  pub id_token : Option Text
  pub expires_in : Signed
  pub token_type : Option Text

pub record Client (S : Type 0) : Type 0 where
  pub sign_up : SignUpInput → S → Result GoError Unit × S
  pub initiate_auth : InitiateAuthInput → S → Result GoError (Option AuthenticationResult) × S
  pub confirm_sign_up : ConfirmSignUpInput → S → Result GoError Unit × S

-- aws.ToString
abbrev pub to_string : Option Text → Text
to_string none = []
to_string (some s) = s

-- A failure of the client, as the adapter wraps it.
abbrev pub wrapped : {A : Type 0} → String → Text → Result GoError A → Result GoError A
wrapped code message (ok a) = ok a
wrapped code message (err e) = err (new_domain_error code message (some e))

abbrev pub auth_response : AuthenticationResult → AuthResponse
auth_response r = record {
  access_token = to_string r.access_token;
  refresh_token = to_string r.refresh_token;
  id_token = to_string r.id_token;
  expires_in = r.expires_in;
  token_type = to_string r.token_type;
}

-- What follows InitiateAuth.
abbrev pub authenticated :
    Result GoError (Option AuthenticationResult) → Result GoError AuthResponse
authenticated (err e) =
    err (new_domain_error err_code_invalid_credentials (codes "authentication failed") (some e))
authenticated (ok none) = err (
    new_domain_error err_code_auth_failed (codes "authentication failed: no result returned")
      (some (sentinel err_unauthorized)))
authenticated (ok (some r)) = ok (auth_response r)

module _ {S : Type 0} (client : Client S) (client_id : Text) where
  unfoldable pub cognito_sign_up : Text → Text → S → Result GoError Unit × S
  cognito_sign_up email password s =
      let (answer, s') =
        client.sign_up
          (record {
            client_id = client_id;
            username = email;
            password = password;
            user_attributes = ("email", email) ∷ [];
          })
          s in
      (wrapped err_code_user_already_exists (codes "failed to register user") answer, s')

  unfoldable pub cognito_sign_in : Text → Text → S → Result GoError AuthResponse × S
  cognito_sign_in email password s =
      let (answer, s') =
        client.initiate_auth
          (record {
            auth_flow = "USER_PASSWORD_AUTH";
            client_id = client_id;
            auth_parameters = ("USERNAME", email) ∷ ("PASSWORD", password) ∷ [];
          })
          s in
      (authenticated answer, s')

  unfoldable pub cognito_confirm_sign_up : Text → Text → S → Result GoError Unit × S
  cognito_confirm_sign_up email code s =
      let (answer, s') =
        client.confirm_sign_up
          (record { client_id = client_id; username = email; confirmation_code = code }) s in
      (
        wrapped err_code_invalid_confirmation_code (codes "failed to confirm user registration")
            answer,
        s',
      )

  -- NewCognitoAuthProvider
  abbrev pub cognito_auth_provider : AuthProvider S
  cognito_auth_provider = record {
    sign_up = cognito_sign_up;
    sign_in = cognito_sign_in;
    confirm_sign_up = cognito_confirm_sign_up;
  }
