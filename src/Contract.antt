-- ===== src/Contract.antt =====
-- The contract between the API and the provisioner: the validation tags of
-- services/api/internal/domain/model/resource.go, and the JSON names that it shares with
-- services/provisioner/internal/provision/request.go. How the validator reads a tag and the JSON
-- codecs are arguments.
pub mod Understood
pub mod Types
pub mod Delivered
mod Tests
use cloud_ops_manager.Common.{
  ℕ, String, ◌≡◌, ◌↔◌, Bool, true, false, not, ◌&&◌, List, [], ◌∷◌, ◌++◌, map, length, leb, all,
  any, null, if◌then◌else◌,
}
use cloud_ops_manager.Text.{Text, codes, text_eq}
use cloud_ops_manager.Domain.Model.{ProvisionRequest, Application, Resource}
use cloud_ops_manager.Provisioner.Request.{Request, Resource as WorkResource}
use cloud_ops_manager.Http.Validation.{FieldError, validate_application_name}

-- What may stand in a validate tag of a text.
pub data Tag : Type 0 where
  required appname : Tag
  min max : ℕ → Tag
  oneof : List String → Tag

-- The tags of one text field; `optional` stands for omitempty.
pub record Tagged : Type 0 where
  pub optional : Bool
  pub tags : List Tag
  pub value : Text

abbrev pub needed : List Tag → Text → Tagged
needed tags value = record { optional = false; tags = required ∷ tags; value = value }

abbrev pub application_fields : Application → List Tagged
application_fields a =
    needed (appname ∷ []) a.name
    ∷ needed (min 1 ∷ max 100 ∷ []) a.template
    ∷ needed (min 1 ∷ max 100 ∷ []) a.owner
    ∷ record { optional = true; tags = max 350 ∷ []; value = a.description }
    ∷ []

abbrev pub resource_types : List String
resource_types = "DynamoDB" ∷ "SQS" ∷ "SNS" ∷ "S3" ∷ "RDS" ∷ "VM" ∷ "Lambda" ∷ "VPC" ∷ "ELB" ∷ []

abbrev pub cloud_providers : List String
cloud_providers = "AWS" ∷ "Azure" ∷ "GCP" ∷ []

abbrev pub resource_fields : Resource → List Tagged
resource_fields r =
    needed (min 1 ∷ max 100 ∷ []) r.name
    ∷ needed (oneof resource_types ∷ []) r.resource_type
    ∷ needed (oneof cloud_providers ∷ []) r.cloud_provider
    ∷ []

module _ (passes : Tag → Text → Bool) where
  unfoldable pub field_valid : Tagged → Bool
  field_valid f = if f.optional && null f.value then true else all (λ t. passes t f.value) f.tags

  -- omitempty,max=30 of the specification stands beside the fields.
  unfoldable pub resource_valid : Resource → Bool
  unfolding field_valid
  resource_valid r = all field_valid (resource_fields r) && leb (length r.specification) 30

  -- omitempty,max=20,dive of the resources.
  unfoldable pub request_valid : ProvisionRequest → Bool
  unfolding field_valid resource_valid
  request_valid r =
      all field_valid (application_fields r.application)
      && (leb (length r.resources) 20
          && (all resource_valid r.resources
              && field_valid (needed (min 1 ∷ max 100 ∷ []) r.requested_by)))

-- What the validator documents: a request without errors is one whose tags all pass; required asks
-- that a text is not empty, min and max count its characters, and oneof asks
-- that it is one of the texts of its list, and a registered tag is its function.
pub record Validator (check : ProvisionRequest → List FieldError) (passes : Tag → Text → Bool)
    : Type 0 where
  pub checks : (r : ProvisionRequest) → (check r ≡ []) ↔ (request_valid passes r ≡ true)
  pub required_lem : (s : Text) → passes required s ≡ not (null s)
  pub min_lem : (n : ℕ) (s : Text) → passes (min n) s ≡ leb n (length s)
  pub max_lem : (n : ℕ) (s : Text) → passes (max n) s ≡ leb (length s) n
  pub oneof_lem :
      (ts : List String) (s : Text) → passes (oneof ts) s ≡ any (λ t. text_eq (codes t) s) ts
  pub appname_lem : (s : Text) → passes appname s ≡ validate_application_name s

-- The provisioner's request with the JSON names of the API's.
abbrev pub carried_resource : Resource → WorkResource
carried_resource r = record {
  name = r.name;
  resource_type = r.resource_type;
  cloud_provider = r.cloud_provider;
  specification = r.specification;
}

abbrev pub carried : ProvisionRequest → Request
carried r = record {
  request_id = r.request_id;
  application = record {
    name = r.application.name;
    template = r.application.template;
    owner = r.application.owner;
    description = r.application.description;
  };
  resources = map carried_resource r.resources;
  requested_by = r.requested_by;
}
