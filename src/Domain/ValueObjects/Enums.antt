-- ===== src/Domain/ValueObjects/Enums.antt =====
-- The enumerated value objects: what their constructors accept is what `IsValid` accepts.
use cloud_ops_manager.Common.{ℕ, ◌≡◌, refl, ◌↔◌, inl, inr, true, ok, arith, Bool-cases}
use cloud_ops_manager.Text.{
  Text, text_eq, text_eq→eq, text_eq_refl, is_space, lower_rune, upper_rune,
}
use cloud_ops_manager.Text.Trim.{trim}
use cloud_ops_manager.Domain.ValueObjects.{
  trim_space, new_cloud_provider, cloud_provider_is_valid, cloud_provider_aws, cloud_provider_azure,
  cloud_provider_gcp, new_resource_type, resource_type_is_valid, new_provisioning_status,
  status_is_valid, is_final, status_pending, status_in_progress, status_completed, status_failed,
}

-- A property of all four statuses holds of every valid status.
pub valid_status :
    (P : Text → Type 0)
    → P status_pending
    → P status_in_progress
    → P status_completed
    → P status_failed
    → (s : Text) → status_is_valid s ≡ true
    → P s
unfolding status_is_valid
valid_status P a b c d s h = elim (Bool-cases (text_eq s status_pending)) [
  | inl e ↦ rw (text_eq→eq s _ e) a
  | inr n₁ ↦ elim (Bool-cases (text_eq s status_in_progress)) [
    | inl e ↦ rw (text_eq→eq s _ e) b
    | inr n₂ ↦ elim (Bool-cases (text_eq s status_completed)) [
      | inl e ↦ rw (text_eq→eq s _ e) c
      | inr n₃ ↦ let e : text_eq s status_failed ≡ true = ground arith in rw (text_eq→eq s _ e) d
    ]
  ]
]

pub valid_provider :
    (P : Text → Type 0)
    → P cloud_provider_aws
    → P cloud_provider_azure
    → P cloud_provider_gcp
    → (s : Text) → cloud_provider_is_valid s ≡ true
    → P s
unfolding cloud_provider_is_valid
valid_provider P a b c s h = elim (Bool-cases (text_eq s cloud_provider_aws)) [
  | inl e ↦ rw (text_eq→eq s _ e) a
  | inr n₁ ↦ elim (Bool-cases (text_eq s cloud_provider_azure)) [
    | inl e ↦ rw (text_eq→eq s _ e) b
    | inr n₂ ↦ let e : text_eq s cloud_provider_gcp ≡ true = ground arith in rw (text_eq→eq s _ e) c
  ]
]

pub provider_accepted :
    (beyond : ℕ → ℕ) (p : Text)
    → cloud_provider_is_valid p ≡ true
    → new_cloud_provider beyond p ≡ ok p
unfolding new_cloud_provider trim is_space upper_rune text_eq
provider_accepted beyond = valid_provider (λ p. new_cloud_provider beyond p ≡ ok p) refl refl refl

pub provider_valid :
    (beyond : ℕ → ℕ) (v p : Text)
    → new_cloud_provider beyond v ≡ ok p
    → cloud_provider_is_valid p ≡ true
unfolding new_cloud_provider cloud_provider_is_valid
provider_valid beyond v p h = ground (
  arith,
  text_eq_refl cloud_provider_aws,
  text_eq_refl cloud_provider_azure,
  text_eq_refl cloud_provider_gcp,
)

-- Whatever text a provider is made from, the provider is valid, and making it again gives it
-- back; every valid provider is made from itself.
new_cloud_provider_iff :
    (beyond : ℕ → ℕ) (v p : Text)
    → (new_cloud_provider beyond v ≡ ok p → new_cloud_provider beyond p ≡ ok p)
      × ((cloud_provider_is_valid p ≡ true) ↔ (new_cloud_provider beyond p ≡ ok p))
new_cloud_provider_iff beyond v p = (
  λ h. provider_accepted beyond p (provider_valid beyond v p h),
  (provider_accepted beyond p, provider_valid beyond p p),
)

resource_type_sound :
    (v p : Text)
    → new_resource_type v ≡ ok p
    → (p ≡ trim_space v) × (resource_type_is_valid p ≡ true)
unfolding new_resource_type
resource_type_sound v p h = ground arith

-- A type is accepted exactly when the trimmed text is one of the valid resource types, letter for
-- letter, and the result is that text.
pub new_resource_type_iff :
    (v p : Text)
    → (new_resource_type v ≡ ok p) ↔ ((p ≡ trim_space v) × (resource_type_is_valid p ≡ true))
unfolding new_resource_type
new_resource_type_iff v p = (resource_type_sound v p, λ h. ground arith)

pub status_accepted :
    (beyond : ℕ → ℕ) (s : Text) → status_is_valid s ≡ true → new_provisioning_status beyond s ≡ ok s
unfolding new_provisioning_status trim is_space lower_rune text_eq
status_accepted beyond =
    valid_status (λ s. new_provisioning_status beyond s ≡ ok s) refl refl refl refl

pub status_valid :
    (beyond : ℕ → ℕ) (v s : Text)
    → new_provisioning_status beyond v ≡ ok s
    → status_is_valid s ≡ true
unfolding new_provisioning_status
status_valid beyond v s h = ground arith

final_valid : (s : Text) → is_final s ≡ true → status_is_valid s ≡ true
unfolding is_final status_is_valid
final_valid s h = ground arith

-- Whatever text a status is made from, making it again gives it back; a status is valid exactly
-- when it is made from itself; and a final status is a valid one.
new_provisioning_status_iff :
    (beyond : ℕ → ℕ) (v s : Text)
    → (new_provisioning_status beyond v ≡ ok s → new_provisioning_status beyond s ≡ ok s)
      × ((status_is_valid s ≡ true) ↔ (new_provisioning_status beyond s ≡ ok s))
      × (is_final s ≡ true → status_is_valid s ≡ true)
new_provisioning_status_iff beyond v s = (
  λ h. status_accepted beyond s (status_valid beyond v s h),
  (status_accepted beyond s, status_valid beyond s s),
  final_valid s,
)
