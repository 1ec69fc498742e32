-- ===== src/Domain/ValueObjects.antt =====
-- services/api/internal/domain/valueobjects/valueobjects.go
-- The case table beyond ASCII is the argument `beyond`; a Go constructor returns a `Result`.
pub mod Emails
pub mod Enums
pub mod Types
pub mod Sized
pub mod Strings
mod Tests
use cloud_ops_manager.Common.{
  ℕ, Bool, true, false, not, ◌||◌, List, [], ◌∷◌, Result, ok, err, ltb, ◌==◌, if◌then◌else◌, any,
  null,
}
use cloud_ops_manager.Text.{
  Text, codes, text_eq, byte_len, is_space, is_letter, is_digit, to_lower, to_upper,
}
use cloud_ops_manager.Text.Trim.{trim}
use cloud_ops_manager.Text.Regex.{Regex, one, seq, plus, matches}

-- The errors of the constructors, one for each message.
pub data ValueError : Type 0 where
  empty : ValueError
  too_long : ℕ → ValueError
  bad_format : ValueError
  unknown : Text → ValueError

-- strings.TrimSpace
abbrev pub trim_space : Text → Text
trim_space = trim is_space

pub record Email : Type 0 where
  pub value : Text

abbrev pub local_char : ℕ → Bool
local_char c =
    is_letter c || is_digit c || c == b'.' || c == b'_' || c == b'%' || c == b'+' || c == b'-'

abbrev pub domain_char : ℕ → Bool
domain_char c = is_letter c || is_digit c || c == b'.' || c == b'-'

-- [a-zA-Z0-9._%+-]+@[a-zA-Z0-9.-]+\.[a-zA-Z]{2,}
unfoldable pub email_regex : Regex
email_regex = seq (plus (one local_char)) (
    seq (one (λ c. c == b'@')) (
      seq (plus (one domain_char))
        (seq (one (λ c. c == b'.')) (seq (one is_letter) (plus (one is_letter))))))

unfoldable pub new_email : (ℕ → ℕ) → Text → Result ValueError Email
new_email beyond value =
    let normalized = to_lower beyond (trim_space value) in
    if null normalized
    then err empty
    else if ltb 254 (byte_len normalized)
    then err (too_long 254)
    else if not (matches email_regex normalized)
    then err bad_format
    else ok (record { value = normalized })

-- The String methods
abbrev pub email_string : Email → Text
email_string e = e.value

abbrev pub CloudProvider : Type 0
CloudProvider = Text

abbrev pub cloud_provider_aws : CloudProvider
cloud_provider_aws = codes "AWS"

abbrev pub cloud_provider_azure : CloudProvider
cloud_provider_azure = codes "AZURE"

abbrev pub cloud_provider_gcp : CloudProvider
cloud_provider_gcp = codes "GCP"

unfoldable pub valid_cloud_providers : List CloudProvider
valid_cloud_providers = cloud_provider_aws ∷ cloud_provider_azure ∷ cloud_provider_gcp ∷ []

unfoldable pub new_cloud_provider : (ℕ → ℕ) → Text → Result ValueError CloudProvider
new_cloud_provider beyond value =
    let upper = to_upper beyond (trim_space value) in
    if text_eq upper cloud_provider_aws
    then ok cloud_provider_aws
    else if text_eq upper cloud_provider_azure
    then ok cloud_provider_azure
    else if text_eq upper cloud_provider_gcp
    then ok cloud_provider_gcp
    else err (unknown value)

unfoldable pub cloud_provider_is_valid : CloudProvider → Bool
cloud_provider_is_valid c =
    text_eq c cloud_provider_aws || text_eq c cloud_provider_azure || text_eq c cloud_provider_gcp

abbrev pub cloud_provider_string : CloudProvider → Text
cloud_provider_string c = c

abbrev pub ResourceType : Type 0
ResourceType = Text

unfoldable pub valid_resource_types : List ResourceType
valid_resource_types =
    codes "DynamoDB"
    ∷ codes "SQS"
    ∷ codes "SNS"
    ∷ codes "S3"
    ∷ codes "RDS"
    ∷ codes "VM"
    ∷ codes "Lambda"
    ∷ codes "VPC"
    ∷ codes "ELB"
    ∷ []

unfoldable pub resource_type_is_valid : ResourceType → Bool
unfolding valid_resource_types
resource_type_is_valid r = any (text_eq r) valid_resource_types

unfoldable pub new_resource_type : Text → Result ValueError ResourceType
new_resource_type value =
    let candidate = trim_space value in
    if resource_type_is_valid candidate then ok candidate else err (unknown value)

abbrev pub resource_type_string : ResourceType → Text
resource_type_string r = r

abbrev pub ProvisioningStatus : Type 0
ProvisioningStatus = Text

abbrev pub status_pending : ProvisioningStatus
status_pending = codes "pending"

abbrev pub status_in_progress : ProvisioningStatus
status_in_progress = codes "in_progress"

abbrev pub status_completed : ProvisioningStatus
status_completed = codes "completed"

abbrev pub status_failed : ProvisioningStatus
status_failed = codes "failed"

unfoldable pub status_is_valid : ProvisioningStatus → Bool
status_is_valid s =
    text_eq s status_pending
    || text_eq s status_in_progress
    || text_eq s status_completed
    || text_eq s status_failed

unfoldable pub new_provisioning_status : (ℕ → ℕ) → Text → Result ValueError ProvisioningStatus
unfolding status_is_valid
new_provisioning_status beyond value =
    let normalized = to_lower beyond (trim_space value) in
    if status_is_valid normalized then ok normalized else err (unknown value)

unfoldable pub is_final : ProvisioningStatus → Bool
is_final s = text_eq s status_completed || text_eq s status_failed

abbrev pub status_string : ProvisioningStatus → Text
status_string s = s

pub record ResourceId : Type 0 where
  pub value : Text

abbrev pub resource_id_string : ResourceId → Text
resource_id_string r = r.value

unfoldable pub new_resource_id : Text → Result ValueError ResourceId
new_resource_id value =
    let trimmed = trim_space value in
    if null trimmed
    then err empty
    else if ltb 100 (byte_len trimmed)
    then err (too_long 100)
    else ok (record { value = trimmed })

pub record Specification : Type 0 where
  pub value : Text

abbrev pub specification_string : Specification → Text
specification_string s = s.value

unfoldable pub new_specification : Text → Result ValueError Specification
new_specification value =
    let trimmed = trim_space value in
    if null trimmed
    then err empty
    else if ltb 1000 (byte_len trimmed)
    then err (too_long 1000)
    else ok (record { value = trimmed })
