-- ===== src/Domain/ValueObjects/Strings.antt =====
-- The String methods of the value objects against their constructors.
use cloud_ops_manager.Common.{ℕ, ◌≤◌, ◌≡◌, ◌∙◌, refl, sym, false, Result, ok, err}
use cloud_ops_manager.Text.{Text, is_space, is_upper_letter}
use cloud_ops_manager.Text.Trim.{trim_idempotent}
use cloud_ops_manager.Domain.ValueObjects.{
  ValueError, new_email, email_string, new_cloud_provider, cloud_provider_string, new_resource_type,
  resource_type_string, new_provisioning_status, status_string, new_resource_id, resource_id_string,
  new_specification, specification_string,
}
use cloud_ops_manager.Domain.ValueObjects.Emails.{new_email_idempotent}
use cloud_ops_manager.Domain.ValueObjects.Enums.{
  provider_accepted, provider_valid, status_accepted, status_valid, new_resource_type_iff,
}
use cloud_ops_manager.Domain.ValueObjects.Sized.{new_resource_id_iff, new_specification_iff}

module _ {A : Type 0} (new : Text → Result ValueError A) (string : A → Text) where
  -- A value that was made is printed, and made again from its text.
  abbrev pub remade : Result ValueError A → Result ValueError A
  remade (ok x) = new (string x)
  remade (err e) = err e

  remade_same :
      (v : Text) (r : Result ValueError A)
      → new v ≡ r
      → ((x : A) → new v ≡ ok x → new (string x) ≡ ok x)
      → remade r ≡ r
  remade_same v (ok x) made again = again x made
  remade_same v (err e) made again = refl

type_again :
    (v p : Text) → new_resource_type v ≡ ok p → new_resource_type (resource_type_string p) ≡ ok p
type_again v p made =
    let (same, valid) = (new_resource_type_iff v p).0 made in
    (new_resource_type_iff p p).1 (same ∙ (sym (trim_idempotent is_space v) ∙ rw same refl), valid)

-- What String prints is read back. Where the table of strings.ToLower lowers (it makes no ASCII
-- capital of a code point beyond ASCII), whatever the table of strings.ToUpper is, and for each of the six kinds of value object and every text: to make a value
-- from the text, print it with String and make a value from that gives what the first step gave,
-- the same value or the same error.
pub printed_is_read :
    (lower upper : ℕ → ℕ) (lowers : (c : ℕ) → 128 ≤ c → is_upper_letter (lower c) ≡ false)
    (v : Text)
    → (remade (new_email lower) email_string (new_email lower v) ≡ new_email lower v)
      × (remade (new_cloud_provider upper) cloud_provider_string (new_cloud_provider upper v)
          ≡ new_cloud_provider upper v)
      × (remade new_resource_type resource_type_string (new_resource_type v) ≡ new_resource_type v)
      × (remade (new_provisioning_status lower) status_string (new_provisioning_status lower v)
          ≡ new_provisioning_status lower v)
      × (remade new_resource_id resource_id_string (new_resource_id v) ≡ new_resource_id v)
      × (remade new_specification specification_string (new_specification v) ≡ new_specification v)
printed_is_read lower upper lowers v = (
  remade_same (new_email lower) email_string v _ refl (new_email_idempotent lower lowers v),
  remade_same (new_cloud_provider upper) cloud_provider_string v _ refl
      (λ p made. provider_accepted upper p (provider_valid upper v p made)),
  remade_same new_resource_type resource_type_string v _ refl (type_again v),
  remade_same (new_provisioning_status lower) status_string v _ refl
      (λ s made. status_accepted lower s (status_valid lower v s made)),
  remade_same new_resource_id resource_id_string v _ refl (λ r. (new_resource_id_iff v r).1),
  remade_same new_specification specification_string v _ refl (λ s. (new_specification_iff v s).1),
)
