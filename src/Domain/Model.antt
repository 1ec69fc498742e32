-- ===== src/Domain/Model.antt =====
-- services/api/internal/domain/model/resource.go and auth.go: the requests that the API decodes.
-- (AuthResponse of auth.go stands with the payloads of Http/Writer.antt.) The validation tags are
-- read by the validator library, which is an argument where it is used.
use cloud_ops_manager.Common.{List}
use cloud_ops_manager.Text.{Text}

pub record Application : Type 0 where
  pub name : Text
  pub template : Text
  pub owner : Text
  pub description : Text

pub record Resource : Type 0 where
  pub name : Text
  pub resource_type : Text
  pub cloud_provider : Text
  pub specification : List (Text × Text)

pub record ProvisionRequest : Type 0 where
  pub request_id : Text
  pub application : Application
  pub resources : List Resource
  pub requested_by : Text

pub record SignUpRequest : Type 0 where
  pub email : Text
  pub password : Text

pub record SignInRequest : Type 0 where
  pub email : Text
  pub password : Text

pub record ConfirmSignUpRequest : Type 0 where
  pub email : Text
  pub confirmation_code : Text
