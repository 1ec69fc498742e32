-- ===== src/Publish/Carriers.antt =====
-- The carriers of trace context: kafkaHeaderCarrier and sqsAttributeCarrier of the two queue
-- adapters of the API, and their read-only twins of
-- services/provisioner/internal/consumer/propagation.go. An SQS attribute is kept by its string
-- value, `none` where it has none.
use cloud_ops_manager.Common.{
  String, Option, some, List, [], ◌∷◌, map, str_eq, if◌then◌else◌, insert, lookup,
}
use cloud_ops_manager.Text.{Text}

abbrev pub Carrier : Type 0
Carrier = List (String × Text)

-- Get of kafkaHeaderCarrier: the first header with the key, or the empty text.
unfoldable pub kafka_get : String → Carrier → Text
kafka_get key [] = []
kafka_get key ((k, v) ∷ hs) = if str_eq k key then v else kafka_get key hs

-- Set: overwrites the first header with the key, or appends one.
unfoldable pub kafka_set : String → Text → Carrier → Carrier
kafka_set key value [] = (key, value) ∷ []
kafka_set key value ((k, v) ∷ hs) =
    if str_eq k key then (k, value) ∷ hs else (k, v) ∷ kafka_set key value hs

unfoldable pub kafka_keys : Carrier → List String
kafka_keys = map (λ h. h.0)

-- The SQS attributes of a message.
abbrev pub Attributes : Type 0
Attributes = List (String × Option Text)

abbrev pub string_value : Option (Option Text) → Text
string_value (some (some v)) = v
string_value _ = []

unfoldable pub sqs_get : String → Attributes → Text
sqs_get key attrs = string_value (lookup key attrs)

unfoldable pub sqs_set : String → Text → Attributes → Attributes
sqs_set key value attrs = insert key (some value) attrs

unfoldable pub sqs_keys : Attributes → List String
sqs_keys = map (λ h. h.0)
