-- ===== src/Domain/ValueObjects/Types.antt =====
-- The values that the constructors of the enumerated value objects make, as types.
use mathlib.Core.Equiv.{Iso, iso_to_equiv}
use mathlib.Core.HLevel.{Σ_prop_path}
use mathlib.Core.Logic.{∥∥₁_elim}
use cloud_ops_manager.Common.{
  ℕ, ◌≡◌, ◌∙◌, refl, true, ok, if◌then◌else◌, Result, List, [], ◌∷◌, any, All, Bool-cases, inl, inr,
}
use cloud_ops_manager.Text.{Text, codes, text_eq, text_eq→eq, is_space, upper_rune, lower_rune}
use cloud_ops_manager.Text.Trim.{trim}
use cloud_ops_manager.Domain.ValueObjects.{
  ValueError, new_cloud_provider, cloud_provider_aws, cloud_provider_azure, new_resource_type,
  resource_type_is_valid, valid_resource_types, new_provisioning_status, status_pending,
  status_in_progress, status_completed,
}
use cloud_ops_manager.Domain.ValueObjects.Enums.{
  valid_provider, provider_valid, valid_status, status_valid, new_resource_type_iff,
}

-- The texts that a constructor makes from some text.
abbrev pub Made : (Text → Result ValueError Text) → Type 0
Made new = (s : Text) × ∥ ((v : Text) × (new v ≡ ok s)) ∥₁

-- The constants of the three types.
pub data Provider : Type 0 where
  aws azure gcp : Provider

pub data Kind : Type 0 where
  dynamo_db sqs sns s3 rds vm lambda vpc elb : Kind

pub data Status : Type 0 where
  pending in_progress completed failed : Status

-- Their texts, as the source declares them.
abbrev pub provider_text : Provider → Text
provider_text aws = codes "AWS"
provider_text azure = codes "AZURE"
provider_text gcp = codes "GCP"

read_provider : Text → Provider
read_provider s =
    if text_eq s cloud_provider_aws
    then aws
    else if text_eq s cloud_provider_azure
    then azure
    else gcp

-- The texts that a constructor makes are those of a type of constants: the two are equal as types,
-- and along that equality a made text goes to the constant with that text.
abbrev pub Enumerates : {E : Type 0} → (Text → Result ValueError Text) → (E → Text) → Type 1
Enumerates {E} new show =
    (same : Made new ≡ E) × ((m : Made new) → show (coe 0 1 (i. same i) m) ≡ m.0)

enumerates :
    {E : Type 0} (new : Text → Result ValueError Text) (show : E → Text) (read : Text → E)
    → ((e : E) → new (show e) ≡ ok (show e))
    → ((e : E) → read (show e) ≡ e)
    → ((v s : Text) → new v ≡ ok s → show (read s) ≡ s)
    → Enumerates new show
enumerates {E} new show read makes left right = ((λ i. V i (Made new) E (iso_to_equiv iso)), goes)
  where
    shown : (m : Made new) → show (read m.0) ≡ m.0
    shown m = ∥∥₁_elim m.1 (hlevel) (λ p. right p.0 m.0 p.1)

    iso : Iso (Made new) E
    iso = record {
      fun = λ m. read m.0;
      inv = λ e. (show e, ∣ (show e, makes e) ∣₁);
      rinv = left;
      linv = λ m. Σ_prop_path (λ s. hlevel) (shown m);
    }

    goes : (m : Made new) → show (coe 0 1 (i. V i (Made new) E (iso_to_equiv iso)) m) ≡ m.0
    goes m = (λ k. show (coe k 1 (_. E) (read m.0))) ∙ shown m

abbrev pub kind_text : Kind → Text
kind_text dynamo_db = codes "DynamoDB"
kind_text sqs = codes "SQS"
kind_text sns = codes "SNS"
kind_text s3 = codes "S3"
kind_text rds = codes "RDS"
kind_text vm = codes "VM"
kind_text lambda = codes "Lambda"
kind_text vpc = codes "VPC"
kind_text elb = codes "ELB"

read_kind : Text → Kind
read_kind s =
    if text_eq s (codes "DynamoDB")
    then dynamo_db
    else if text_eq s (codes "SQS")
    then sqs
    else if text_eq s (codes "SNS")
    then sns
    else if text_eq s (codes "S3")
    then s3
    else if text_eq s (codes "RDS")
    then rds
    else if text_eq s (codes "VM")
    then vm
    else if text_eq s (codes "Lambda")
    then lambda
    else if text_eq s (codes "VPC")
    then vpc
    else elb

abbrev pub status_text : Status → Text
status_text pending = codes "pending"
status_text in_progress = codes "in_progress"
status_text completed = codes "completed"
status_text failed = codes "failed"

read_status : Text → Status
read_status s =
    if text_eq s status_pending
    then pending
    else if text_eq s status_in_progress
    then in_progress
    else if text_eq s status_completed
    then completed
    else failed

-- What holds of every text in a list holds of a text that is found in it.
among :
    (P : Text → Type 0) (ts : List Text) → All P ts → (s : Text) → any (text_eq s) ts ≡ true → P s
among P [] h s e = cc
among P (t ∷ ts) (here, h) s e = elim (Bool-cases (text_eq s t)) [
  | inl same ↦ rw (text_eq→eq s t same) here
  | inr other ↦ among P ts h s (rw other at e)
]

provider_show :
    (beyond : ℕ → ℕ) (e : Provider)
    → (new_cloud_provider beyond (provider_text e) ≡ ok (provider_text e))
      × (read_provider (provider_text e) ≡ e)
unfolding read_provider new_cloud_provider trim is_space upper_rune text_eq
provider_show beyond aws = (refl, refl)
provider_show beyond azure = (refl, refl)
provider_show beyond gcp = (refl, refl)

provider_type : (beyond : ℕ → ℕ) → Enumerates (new_cloud_provider beyond) provider_text
unfolding read_provider text_eq
provider_type beyond =
    enumerates (new_cloud_provider beyond) provider_text read_provider
      (λ e. (provider_show beyond e).0) (λ e. (provider_show beyond e).1)
      (λ v s made.
        valid_provider (λ t. provider_text (read_provider t) ≡ t) refl refl refl s
          (provider_valid beyond v s made))

kind_show :
    (e : Kind)
    → (new_resource_type (kind_text e) ≡ ok (kind_text e)) × (read_kind (kind_text e) ≡ e)
unfolding read_kind new_resource_type trim is_space text_eq resource_type_is_valid
kind_show dynamo_db = (refl, refl)
kind_show sqs = (refl, refl)
kind_show sns = (refl, refl)
kind_show s3 = (refl, refl)
kind_show rds = (refl, refl)
kind_show vm = (refl, refl)
kind_show lambda = (refl, refl)
kind_show vpc = (refl, refl)
kind_show elb = (refl, refl)

kind_type : Enumerates new_resource_type kind_text
unfolding read_kind text_eq resource_type_is_valid
kind_type =
    enumerates new_resource_type kind_text read_kind (λ e. (kind_show e).0) (λ e. (kind_show e).1)
      (λ v s made.
        among (λ t. kind_text (read_kind t) ≡ t) valid_resource_types
          (refl, (refl, (refl, (refl, (refl, (refl, (refl, (refl, (refl, tt))))))))) s
          ((new_resource_type_iff v s).0 made).1)

status_show :
    (beyond : ℕ → ℕ) (e : Status)
    → (new_provisioning_status beyond (status_text e) ≡ ok (status_text e))
      × (read_status (status_text e) ≡ e)
unfolding read_status new_provisioning_status trim is_space lower_rune text_eq
status_show beyond pending = (refl, refl)
status_show beyond in_progress = (refl, refl)
status_show beyond completed = (refl, refl)
status_show beyond failed = (refl, refl)

status_type : (beyond : ℕ → ℕ) → Enumerates (new_provisioning_status beyond) status_text
unfolding read_status text_eq
status_type beyond =
    enumerates (new_provisioning_status beyond) status_text read_status
      (λ e. (status_show beyond e).0) (λ e. (status_show beyond e).1)
      (λ v s made.
        valid_status (λ t. status_text (read_status t) ≡ t) refl refl refl refl s
          (status_valid beyond v s made))

-- Each constructor of an enumerated value object makes exactly the constants that the source
-- declares for its type: the type of the texts that it makes from some text is, as a type, that of
-- the three cloud providers, of the nine resource types, and of the four statuses, and along that
-- equality each text goes to the constant declared with that very text, whatever the case tables
-- of strings.ToLower and strings.ToUpper say of letters outside ASCII.
pub enum_types :
    (lower upper : ℕ → ℕ)
    → Enumerates (new_cloud_provider upper) provider_text
      × Enumerates new_resource_type kind_text
      × Enumerates (new_provisioning_status lower) status_text
enum_types lower upper = (provider_type upper, kind_type, status_type lower)
