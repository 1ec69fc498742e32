-- ===== src/Contract/Types.antt =====
-- The lists of the oneof tags against the value objects of
-- services/api/internal/domain/valueobjects/valueobjects.go.
use cloud_ops_manager.Common.{
  ℕ, String, ◌≡◌, refl, ◌↔◌, Bool, true, List, [], ◌∷◌, ok, any, map, Bool-cases, inl, inr,
}
use cloud_ops_manager.Text.{Text, codes, text_eq, text_eq→eq, is_space, to_upper, upper_rune}
use cloud_ops_manager.Text.Trim.{trim}
use cloud_ops_manager.Domain.Model.{ProvisionRequest}
use cloud_ops_manager.Domain.ValueObjects.{
  new_resource_type, resource_type_is_valid, valid_resource_types, new_cloud_provider,
}
use cloud_ops_manager.Domain.ValueObjects.Enums.{new_resource_type_iff}
use cloud_ops_manager.Http.Validation.{FieldError}
use cloud_ops_manager.Contract.{Validator, Tag, oneof, resource_types, cloud_providers}

-- A property of each of some texts.
abbrev Each : (Text → Type 0) → List Text → Type 0
Each P [] = Unit
Each P (t ∷ ts) = P t × Each P ts

any-Each :
    (P : Text → Type 0) (s : Text) (ts : List Text) → Each P ts → any (text_eq s) ts ≡ true → P s
any-Each P s [] e h = cc
any-Each P s (t ∷ ts) (p, e) h = elim (Bool-cases (text_eq s t)) [
  | inl k ↦ rw (text_eq→eq s t k) p
  | inr k ↦ any-Each P s ts e (rw k at h)
]

any-Each-codes :
    (P : Text → Type 0) (s : Text) (ts : List String)
    → Each P (map codes ts)
    → any (λ t. text_eq (codes t) s) ts ≡ true
    → P s
any-Each-codes P s [] e h = cc
any-Each-codes P s (t ∷ ts) (p, e) h = elim (Bool-cases (text_eq (codes t) s)) [
  | inl k ↦ rw (← text_eq→eq (codes t) s k) p
  | inr k ↦ any-Each-codes P s ts e (rw k at h)
]

type_accepted :
    (s : Text) → any (λ t. text_eq (codes t) s) resource_types ≡ true → new_resource_type s ≡ ok s
unfolding new_resource_type resource_type_is_valid valid_resource_types text_eq trim is_space
type_accepted s =
    any-Each-codes (λ s. new_resource_type s ≡ ok s) s resource_types
      (refl, (refl, (refl, (refl, (refl, (refl, (refl, (refl, (refl, tt)))))))))

type_listed :
    (s : Text)
    → resource_type_is_valid s ≡ true
    → any (λ t. text_eq (codes t) s) resource_types ≡ true
unfolding resource_type_is_valid valid_resource_types text_eq
type_listed s =
    any-Each (λ s. any (λ t. text_eq (codes t) s) resource_types ≡ true) s valid_resource_types
      (refl, (refl, (refl, (refl, (refl, (refl, (refl, (refl, (refl, tt)))))))))

provider_accepted :
    (beyond : ℕ → ℕ) (s : Text)
    → any (λ t. text_eq (codes t) s) cloud_providers ≡ true
    → new_cloud_provider beyond s ≡ ok (to_upper beyond s)
unfolding new_cloud_provider text_eq trim is_space upper_rune
provider_accepted beyond s =
    any-Each-codes (λ s. new_cloud_provider beyond s ≡ ok (to_upper beyond s)) s cloud_providers
      (refl, (refl, (refl, tt)))

-- For a validator that reads its tags as documented: a resource type passes its tag exactly if
-- the value objects accept it as it is written, so the tag's list and theirs match. A cloud
-- provider that passes its tag is accepted by the value objects, as its upper-case form.
pub types_match :
    (check : ProvisionRequest → List FieldError) (passes : Tag → Text → Bool)
    → Validator check passes
    → (beyond : ℕ → ℕ) (s p : Text) → passes (oneof cloud_providers) p ≡ true
    → ((passes (oneof resource_types) s ≡ true) ↔ (new_resource_type s ≡ ok s))
      × (new_cloud_provider beyond p ≡ ok (to_upper beyond p))
types_match check passes validator beyond s p h = (
  rw (validator.oneof_lem resource_types s)
      (type_accepted s, λ k. type_listed s ((new_resource_type_iff s s).0 k).1),
  provider_accepted beyond p (rw (validator.oneof_lem cloud_providers p) at h),
)
