-- ===== src/Http/Handlers.antt =====
-- services/api/internal/adapters/inbound/http/resource_handler.go and auth_handler.go, with
-- services/api/internal/application/service/auth_service.go behind the latter. JSON decoding, the
-- validator, uuid.NewString and the ports are arguments.
pub mod Provision
pub mod Auth
mod Tests
use cloud_ops_manager.Common.{
  ℕ, String, Bool, true, false, Option, some, none, List, [], ◌∷◌, ◌++◌, Result, ok, err, str_eq,
  if◌then◌else◌,
}
use cloud_ops_manager.Text.{Text, codes}
use cloud_ops_manager.Logging.{Entry, Level, entry, field, text, name, info, warn, error}
use cloud_ops_manager.Domain.Errors.{GoError, error_text}
use cloud_ops_manager.Domain.Model.{
  ProvisionRequest, SignUpRequest, SignInRequest, ConfirmSignUpRequest,
}
use cloud_ops_manager.Publish.{Publisher, send_provisioning_request}
use cloud_ops_manager.Http.Writer.{
  Request, World, Handler, Exit, returned, Writer, Payload, accepted, created, message, auth,
  AuthResponse, on_writer, header_get,
}
use cloud_ops_manager.Http.Response.{
  respond_with_error, respond_with_json, error_response, new_api_response, err_code_internal_error,
  err_code_unauthorized,
}
use cloud_ops_manager.Http.Validation.{FieldError, decode_and_validate}

-- getRequestID
unfoldable pub get_request_id : Request → String
get_request_id r =
    if str_eq (header_get "X-Request-Id" r.headers) ""
    then header_get "X-Amzn-Trace-Id" r.headers
    else header_get "X-Request-Id" r.headers

-- RespondWithJSON of NewAPIResponse, and RespondWithError of an error without details, as the
-- handlers end with them.
abbrev pub succeed : {S : Type 0} → ℕ → Payload → String → World S → Exit × World S
succeed status payload id w =
    (returned, on_writer (respond_with_json status (new_api_response w.now payload id)) w)

abbrev pub fail : {S : Type 0} → ℕ → String → String → String → World S → Exit × World S
fail status code m id w =
    (returned, on_writer (respond_with_error status (error_response code m id)) w)

-- What decoding any request needs: how non-ASCII letters are lowered, the JSON decoder, and the
-- validator.
module _ {S T : Type 0} (beyond : ℕ → ℕ) (decode : Result String Text → Option T)
    (check : T → List FieldError) where
  abbrev pub when_decoded : (T → World S → Exit × World S) → Option T × World S → Exit × World S
  when_decoded handle (none, w) = (returned, w)
  when_decoded handle (some t, w) = handle t w

  -- A handler that decodes its request first.
  abbrev pub decoding : (String → T → World S → Exit × World S) → Handler S
  decoding handle w =
      let id = get_request_id w.request in
      when_decoded (handle id) (decode_and_validate beyond decode check id w)

module _ {S : Type 0} (marshal : ProvisionRequest → Result GoError Text) (publish : Publisher S)
    (new_uuid : S → Text × S) where
  abbrev pub provision_answer : String → Text → Result GoError Unit → World S → Exit × World S
  provision_answer id provision_id (ok _) w =
      succeed 202
        (accepted (record {
          message = "Request accepted for processing";
          request_id = id;
          provision_id = provision_id;
          status = "ACCEPTED";
        }))
        id w
  provision_answer id provision_id (err e) w =
      fail 500 err_code_internal_error "Failed to process provisioning request" id w

  -- Provision behind the decoding: the request gets an id of the server's own.
  unfoldable pub provision_decoded : String → ProvisionRequest → World S → Exit × World S
  provision_decoded id request w =
      let (provision_id, env) = new_uuid w.env in
      let (result, env', logs) =
        send_provisioning_request marshal publish (record request { request_id = provision_id }) env
          w.logs in
      provision_answer id provision_id result (record w { env = env'; logs = logs })

  unfoldable pub provision :
      (ℕ → ℕ)
      → (Result String Text → Option ProvisionRequest)
      → (ProvisionRequest → List FieldError)
      → Handler S
  provision beyond decode check = decoding beyond decode check provision_decoded

-- outbound.AuthProvider
pub record AuthProvider (S : Type 0) : Type 0 where
  pub sign_up : Text → Text → S → Result GoError Unit × S
  pub sign_in : Text → Text → S → Result GoError AuthResponse × S
  pub confirm_sign_up : Text → Text → S → Result GoError Unit × S

module _ {S : Type 0} (provider : AuthProvider S) where
  -- AuthService
  abbrev pub service_sign_up : SignUpRequest → S → Result GoError Unit × S
  service_sign_up r = provider.sign_up r.email r.password

  abbrev pub service_sign_in : SignInRequest → S → Result GoError AuthResponse × S
  service_sign_in r = provider.sign_in r.email r.password

  abbrev pub service_confirm_sign_up : ConfirmSignUpRequest → S → Result GoError Unit × S
  service_confirm_sign_up r = provider.confirm_sign_up r.email r.confirmation_code

  -- The entries of the handler's own logger.
  abbrev pub failure_entry : Level → String → GoError → Entry
  failure_entry level m e =
      entry level m
        (field "component" (name "auth_handler") ∷ field "error" (text (error_text e)) ∷ [])

  abbrev pub email_entry : String → Text → Entry
  email_entry m email =
      entry info m (field "component" (name "auth_handler") ∷ field "email" (text email) ∷ [])

  abbrev pub logging : Entry → World S → World S
  logging e w = record w { logs = w.logs ++ e ∷ [] }

  abbrev pub sign_up_answer : String → Text → Result GoError Unit → World S → Exit × World S
  sign_up_answer id email (err e) w =
      fail 500 err_code_internal_error "Failed to create user" id
        (logging (failure_entry error "auth.signup: service error" e) w)
  sign_up_answer id email (ok _) w =
      succeed 201 (created (record { message = "User created successfully"; status = "CREATED" }))
        id (logging (email_entry "auth.signup: user created" email) w)

  abbrev pub sign_up_decoded : String → SignUpRequest → World S → Exit × World S
  sign_up_decoded id r w =
      let (result, env) = service_sign_up r w.env in
      sign_up_answer id r.email result (record w { env = env })

  unfoldable pub sign_up :
      (ℕ → ℕ)
      → (Result String Text → Option SignUpRequest)
      → (SignUpRequest → List FieldError)
      → Handler S
  sign_up beyond decode check = decoding beyond decode check sign_up_decoded

  abbrev pub sign_in_answer : String → Text → Result GoError AuthResponse → World S → Exit × World S
  sign_in_answer id email (err e) w =
      fail 401 err_code_unauthorized "Invalid credentials" id
        (logging (failure_entry warn "auth.signin: unauthorized" e) w)
  sign_in_answer id email (ok r) w =
      succeed 200 (auth r) id (logging (email_entry "auth.signin: user authenticated" email) w)

  abbrev pub sign_in_decoded : String → SignInRequest → World S → Exit × World S
  sign_in_decoded id r w =
      let (result, env) = service_sign_in r w.env in
      sign_in_answer id r.email result (record w { env = env })

  unfoldable pub sign_in :
      (ℕ → ℕ)
      → (Result String Text → Option SignInRequest)
      → (SignInRequest → List FieldError)
      → Handler S
  sign_in beyond decode check = decoding beyond decode check sign_in_decoded

  abbrev pub confirm_answer : String → Text → Result GoError Unit → World S → Exit × World S
  confirm_answer id email (err e) w =
      fail 500 err_code_internal_error "Failed to confirm user" id
        (logging (failure_entry error "auth.confirm: service error" e) w)
  confirm_answer id email (ok _) w =
      succeed 200
        (message (record { message = "User confirmed successfully"; status = "CONFIRMED" })) id
        (logging (email_entry "auth.confirm: user confirmed" email) w)

  abbrev pub confirm_decoded : String → ConfirmSignUpRequest → World S → Exit × World S
  confirm_decoded id r w =
      let (result, env) = service_confirm_sign_up r w.env in
      confirm_answer id r.email result (record w { env = env })

  unfoldable pub confirm_sign_up :
      (ℕ → ℕ)
      → (Result String Text → Option ConfirmSignUpRequest)
      → (ConfirmSignUpRequest → List FieldError)
      → Handler S
  confirm_sign_up beyond decode check = decoding beyond decode check confirm_decoded
