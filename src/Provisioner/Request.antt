-- ===== src/Provisioner/Request.antt =====
-- services/provisioner/internal/provision/request.go
-- `json.Unmarshal` into a Request is the argument `unmarshal`.
pub mod Laws
use cloud_ops_manager.Common.{
  ℕ, String, Bool, not, ◌++◌, List, [], ◌∷◌, map, Result, ok, err, null, if◌then◌else◌,
}
use cloud_ops_manager.Text.{Text, is_space}
use cloud_ops_manager.Text.Trim.{trim}

pub record Application : Type 0 where
  pub name : Text
  pub template : Text
  pub owner : Text
  pub description : Text

pub record Resource : Type 0 where
  pub name : Text
  pub resource_type : Text
  pub cloud_provider : Text
  pub specification : List (Text × Text)

pub record Request : Type 0 where
  pub request_id : Text
  pub application : Application
  pub resources : List Resource
  pub requested_by : Text

pub record ScaffoldWork : Type 0 where
  pub request_id : Text
  pub application_name : Text
  pub template : Text
  pub owner : Text
  pub description : Text

pub record InfraWork : Type 0 where
  pub request_id : Text
  pub application_name : Text
  pub resources : List Resource

unfoldable pub has_work : InfraWork → Bool
has_work w = not (null w.resources)

unfoldable pub resource_types : InfraWork → List Text
resource_types w = map (λ r. r.resource_type) w.resources

-- strings.TrimSpace(s) == ""
unfoldable pub is_blank : Text → Bool
is_blank s = null (trim is_space s)

-- The errors of Parse: the decoder's, or the names of the missing fields.
pub data ParseError (E : Type 0) : Type 0 where
  decode : E → ParseError E
  missing : List String → ParseError E

abbrev pub missing_if : Bool → String → List String
missing_if b field = if b then field ∷ [] else []

unfoldable pub missing_fields : Request → List String
missing_fields r =
    missing_if (is_blank r.request_id) "request_id"
    ++ (missing_if (is_blank r.application.name) "application.name"
        ++ missing_if (is_blank r.application.template) "application.template")

abbrev pub verify : {E : Type 0} → Result E Request → Result (ParseError E) Request
verify (err e) = err (decode e)
verify (ok r) = let fields = missing_fields r in if null fields then ok r else err (missing fields)

unfoldable pub parse :
    {E : Type 0} → (Text → Result E Request) → Text → Result (ParseError E) Request
parse unmarshal body = verify (unmarshal body)

unfoldable pub split : Request → ScaffoldWork × InfraWork
split r = (
  record {
    request_id = r.request_id;
    application_name = r.application.name;
    template = r.application.template;
    owner = r.application.owner;
    description = r.application.description;
  },
  record {
    request_id = r.request_id;
    application_name = r.application.name;
    resources = r.resources;
  },
)
