-- ===== src/Domain/ValueObjects/Sized.antt =====
-- The value objects that are bounded texts.
use cloud_ops_manager.Common.{
  err, zero, suc, ◌∷◌, length, ℕ, ◌≤◌, ◌≡◌, ◌≢◌, ◌∙◌, sym, ◌↔◌, [], ok, arith, refl,
}
use cloud_ops_manager.Text.{Text, byte_len, is_space}
use cloud_ops_manager.Text.Trim.{trim, trim_idempotent}
use cloud_ops_manager.Domain.ValueObjects.{
  too_long, trim_space, ResourceId, new_resource_id, Specification, new_specification,
}

-- A trimmed text that fits a bound, as a constructor accepts it.
abbrev Fits : ℕ → Text → Text → Type 0
Fits most v t = (t ≡ trim_space v) × (t ≢ []) × (byte_len t ≤ most)

id_sound : (v : Text) (r : ResourceId) → new_resource_id v ≡ ok r → Fits 100 v r.value
unfolding new_resource_id
id_sound v r h = (ground arith, λ e. ground arith, ground arith)

id_complete : (v : Text) (r : ResourceId) → Fits 100 v r.value → new_resource_id v ≡ ok r
unfolding new_resource_id
id_complete v r h = ground arith

spec_sound : (v : Text) (s : Specification) → new_specification v ≡ ok s → Fits 1000 v s.value
unfolding new_specification
spec_sound v s h = (ground arith, λ e. ground arith, ground arith)

spec_complete : (v : Text) (s : Specification) → Fits 1000 v s.value → new_specification v ≡ ok s
unfolding new_specification
spec_complete v s h = ground arith

again : (most : ℕ) (v t : Text) → Fits most v t → Fits most t t
again most v t (e, n, b) = (e ∙ (sym (trim_idempotent is_space v) ∙ rw e), n, b)

-- A letter of two bytes (U+00E9), as often as it is asked for.
accent_times : ℕ → Text
accent_times zero = []
accent_times (suc n) = 233 ∷ accent_times n

abbrev accents : Text
accents = accent_times 60

-- It has at most 100 characters, and is refused as longer than 100.
abbrev pub FewCharactersRefused : Text → Type 0
FewCharactersRefused v = (length v ≤ 100) × (new_resource_id v ≡ err (too_long 100))

accents_refused : FewCharactersRefused accents
unfolding new_resource_id trim is_space accent_times
accents_refused = (omega arith, refl)

-- A resource id is accepted exactly when the trimmed text is not empty and has at most 100 bytes,
-- and it is that text; the text of an accepted id is accepted again, as the same id. The error says
-- characters where the bound counts bytes: some text of at most 100 characters is refused as too
-- long.
pub new_resource_id_iff :
    (v : Text) (r : ResourceId)
    → ((new_resource_id v ≡ ok r)
        ↔ ((r.value ≡ trim_space v) × (r.value ≢ []) × (byte_len r.value ≤ 100)))
      × (new_resource_id v ≡ ok r → new_resource_id r.value ≡ ok r)
      × ((few : Text) × FewCharactersRefused few)
new_resource_id_iff v r = (
  (id_sound v r, id_complete v r),
  λ h. id_complete r.value r (again 100 v r.value (id_sound v r h)),
  (accents, accents_refused),
)

-- A specification is accepted exactly when the trimmed text is not empty and has at most 1000
-- bytes, and it is that text; the text of an accepted one is accepted again, as the same one.
pub new_specification_iff :
    (v : Text) (s : Specification)
    → ((new_specification v ≡ ok s)
        ↔ ((s.value ≡ trim_space v) × (s.value ≢ []) × (byte_len s.value ≤ 1000)))
      × (new_specification v ≡ ok s → new_specification s.value ≡ ok s)
new_specification_iff v s = (
  (spec_sound v s, spec_complete v s),
  λ h. spec_complete s.value s (again 1000 v s.value (spec_sound v s h)),
)
