-- ===== src/Domain/ValueObjects/Tests.antt =====
-- The value objects at concrete texts.
use cloud_ops_manager.Common.{arith, false, ℕ, ◌≤◌, ◌≡◌, ◌≢◌, refl, ◌↔◌, [], ok, err}
use cloud_ops_manager.Text.{
  Text, codes, byte_len, to_lower, lower_rune, upper_rune, text_eq, is_space, is_upper_letter,
}
use cloud_ops_manager.Text.Trim.{trim}
use cloud_ops_manager.Text.Regex.{Matches, matches}
use cloud_ops_manager.Domain.ValueObjects.{
  new_provisioning_status, Email, new_email, email_regex, trim_space, new_cloud_provider,
  new_resource_type, resource_type_is_valid, ResourceId, new_resource_id, Specification, empty,
  bad_format, unknown, email_string, cloud_provider_string, resource_type_string, status_string,
  resource_id_string, specification_string, new_specification,
}
use cloud_ops_manager.Domain.ValueObjects.Emails.{new_email_iff}
use cloud_ops_manager.Domain.ValueObjects.Types.{
  Enumerates, provider_text, kind_text, status_text, enum_types,
}
use cloud_ops_manager.Domain.ValueObjects.Sized.{new_resource_id_iff, FewCharactersRefused}
use cloud_ops_manager.Domain.ValueObjects.Strings.{remade, printed_is_read}

-- A case table that maps nothing beyond ASCII.
abbrev ascii : ℕ → ℕ
ascii c = c

abbrev ann : Email
ann = record { value = codes "ann.b+x@mail.example.com" }

ann_accepted : new_email ascii (codes " Ann.B+x@Mail.Example.COM ") ≡ ok ann
unfolding new_email trim is_space lower_rune matches email_regex
ann_accepted = refl

refused :
    (new_email ascii (codes "  ") ≡ err empty)
    × (new_email ascii (codes "ann@mail") ≡ err bad_format)
    × (new_email ascii (codes "ann@mail.c") ≡ err bad_format)
    × (new_email ascii (codes "a nn@mail.com") ≡ err bad_format)
unfolding new_email trim is_space lower_rune matches email_regex
refused = (refl, refl, refl, refl)

abbrev ann_input : Text
ann_input = codes " Ann.B+x@Mail.Example.COM "

new_email_iff_example : (new_email ascii ann_input ≡ ok ann) ↔ (
    (ann.value ≡ to_lower ascii (trim_space ann_input))
    × (byte_len ann.value ≤ 254)
    × Matches email_regex ann.value)
new_email_iff_example = new_email_iff ascii ann_input ann

enum_types_example :
    Enumerates (new_cloud_provider ascii) provider_text
    × Enumerates new_resource_type kind_text
    × Enumerates (new_provisioning_status ascii) status_text
enum_types_example = enum_types ascii ascii

azure : new_cloud_provider ascii (codes " Azure") ≡ ok (codes "AZURE")
unfolding new_cloud_provider trim is_space upper_rune text_eq
azure = refl

types :
    (new_resource_type (codes " SQS\n") ≡ ok (codes "SQS"))
    × (new_resource_type (codes "sqs") ≡ err (unknown (codes "sqs")))
unfolding new_resource_type resource_type_is_valid trim is_space text_eq
types = (refl, refl)

abbrev id_7 : ResourceId
id_7 = record { value = codes "id-7" }

new_resource_id_iff_example :
    ((new_resource_id (codes " id-7") ≡ ok id_7) ↔ (
      (id_7.value ≡ trim_space (codes " id-7")) × (id_7.value ≢ []) × (byte_len id_7.value ≤ 100)))
    × (new_resource_id (codes " id-7") ≡ ok id_7 → new_resource_id id_7.value ≡ ok id_7)
    × ((few : Text) × FewCharactersRefused few)
new_resource_id_iff_example = new_resource_id_iff (codes " id-7") id_7

abbrev small : Specification
small = record { value = codes "t3.small" }

ascii_lowers : (c : ℕ) → 128 ≤ c → is_upper_letter (ascii c) ≡ false
ascii_lowers c h = ground arith

printed_is_read_example :
    (remade (new_email ascii) email_string (new_email ascii ann_input) ≡ new_email ascii ann_input)
    × (remade (new_cloud_provider ascii) cloud_provider_string (new_cloud_provider ascii ann_input)
        ≡ new_cloud_provider ascii ann_input)
    × (remade new_resource_type resource_type_string (new_resource_type ann_input)
        ≡ new_resource_type ann_input)
    × (remade
          (new_provisioning_status ascii)
          status_string
          (new_provisioning_status ascii ann_input)
        ≡ new_provisioning_status ascii ann_input)
    × (remade new_resource_id resource_id_string (new_resource_id ann_input)
        ≡ new_resource_id ann_input)
    × (remade new_specification specification_string (new_specification ann_input)
        ≡ new_specification ann_input)
printed_is_read_example = printed_is_read ascii ascii ascii_lowers ann_input
