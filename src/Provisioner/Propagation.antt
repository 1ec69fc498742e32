-- ===== src/Provisioner/Propagation.antt =====
-- services/provisioner/internal/consumer/propagation.go: the read-only carriers over the headers of
-- a Kafka message and the attributes of an SQS message, and what the consumers extract from them.
-- The propagator of OpenTelemetry is an argument. A carrier is what its interface shows of it; Keys
-- of a map has the order of the map here.
mod Tests
use cloud_ops_manager.Common.{
  String, ◌≡◌, refl, ap, ◌∙◌, Option, some, none, List, [], ◌∷◌, map, str_eq, if◌then◌else◌, lookup,
  null,
}
use cloud_ops_manager.Text.{Text}
use cloud_ops_manager.Publish.Carriers.{
  Carrier, Attributes, string_value, kafka_get, kafka_set, sqs_get, sqs_set,
}
use cloud_ops_manager.Publish.Laws.{get-kafka_set, sqs_get-sqs_set}

-- propagation.TextMapCarrier, as Extract reads it.
pub record TextMapCarrier : Type 0 where
  pub get : String → Text
  pub keys : List String

-- kafkaHeaderCarrier
unfoldable pub header_value : Carrier → String → Text
header_value [] key = []
header_value ((k, v) ∷ hs) key = if str_eq k key then v else header_value hs key

unfoldable pub kafka_header_carrier : Carrier → TextMapCarrier
unfolding header_value
kafka_header_carrier hs = record { get = header_value hs; keys = map (λ h. h.0) hs }

-- sqsAttributeCarrier: a missing attribute, and one without a string value, are the empty text.
unfoldable pub attribute_value : Attributes → String → Text
attribute_value attrs key = string_value (lookup key attrs)

unfoldable pub sqs_attribute_carrier : Attributes → TextMapCarrier
unfolding attribute_value
sqs_attribute_carrier attrs = record { get = attribute_value attrs; keys = map (λ h. h.0) attrs }

-- Set of both carriers does nothing.
abbrev pub carrier_set : {C : Type 0} → String → Text → C → C
carrier_set key value c = c

module _ {X : Type 0} (extract : TextMapCarrier → X → X) where
  unfoldable pub extract_kafka : X → Carrier → X
  extract_kafka ctx headers = extract (kafka_header_carrier headers) ctx

  unfoldable pub extract_sqs : X → Attributes → X
  extract_sqs ctx attrs = extract (sqs_attribute_carrier attrs) ctx

-- What Inject does with a carrier of the API: it sets fields, one after another.
abbrev pub set_all : {C : Type 0} → (String → Text → C → C) → List (String × Text) → C → C
set_all set [] c = c
set_all set ((k, v) ∷ fs) c = set_all set fs (set k v c)

-- The fields, as a carrier of their own: the last value that was set for a key, or else `old`.
abbrev pub last_value : Text → List (String × Text) → String → Text
last_value old [] key = old
last_value old ((k, v) ∷ fs) key = last_value (if str_eq k key then v else old) fs key

abbrev pub fields_carrier : List (String × Text) → TextMapCarrier
fields_carrier fs = record { get = last_value [] fs; keys = map (λ f. f.0) fs }

kafka_get_same : (key : String) (hs : Carrier) → header_value hs key ≡ kafka_get key hs
unfolding header_value kafka_get
kafka_get_same key [] = refl
kafka_get_same key ((k, v) ∷ hs) = rw (kafka_get_same key hs) refl

sqs_get_same : (key : String) (attrs : Attributes) → attribute_value attrs key ≡ sqs_get key attrs
unfolding attribute_value sqs_get
sqs_get_same key attrs = refl

-- Every key has the last value that was set.
set_all-get :
    {C : Type 0} (get : String → C → Text) (set : String → Text → C → C)
    → ((k j : String) (v : Text) (c : C) → get j (set k v c) ≡ (if str_eq k j then v else get j c))
    → (key : String) (fs : List (String × Text)) (c : C)
    → get key (set_all set fs c) ≡ last_value (get key c) fs key
set_all-get get set law key [] c = refl
set_all-get get set law key ((k, v) ∷ fs) c =
    set_all-get get set law key fs (set k v c) ∙ ap (λ o. last_value o fs key) (law k key v c)

-- The attributes of a sent message, which are left out where there are none, as they arrive.
abbrev pub arriving : Attributes → Attributes
arriving attrs = if null attrs then [] else attrs

arriving_same : (attrs : Attributes) → arriving attrs ≡ attrs
arriving_same [] = refl
arriving_same (a ∷ attrs) = refl

empty_header : (key : String) → kafka_get key [] ≡ []
unfolding kafka_get
empty_header key = refl

empty_attribute : (key : String) → sqs_get key [] ≡ []
unfolding sqs_get lookup
empty_attribute key = refl

-- The trace context crosses the queue, whichever it is. Let the propagator extract from a carrier
-- what Get answers for each key, and nothing else. Then what the provisioner extracts from the
-- headers of a Kafka message, and from the attributes of an SQS message, on which the API has set
-- any fields, is what it would extract from the fields themselves, the last value of each key; so
-- both queues carry the same context.
pub extracted_is_injected :
    {X : Type 0} (extract : TextMapCarrier → X → X)
    → ((c c' : TextMapCarrier) (x : X)
        → ((key : String) → c.get key ≡ c'.get key)
        → extract c x ≡ extract c' x)
    → (ctx : X) (fs : List (String × Text))
    → (extract_kafka extract ctx (set_all kafka_set fs []) ≡ extract (fields_carrier fs) ctx)
      × (extract_sqs extract ctx (arriving (set_all sqs_set fs []))
          ≡ extract (fields_carrier fs) ctx)
unfolding extract_kafka extract_sqs kafka_header_carrier sqs_attribute_carrier
extracted_is_injected extract by_get ctx fs = (
  by_get _ _ ctx (λ key.
      kafka_get_same key (set_all kafka_set fs [])
      ∙ (set_all-get kafka_get kafka_set get-kafka_set key fs [] ∙ rw empty_header refl)),
  by_get _ _ ctx (λ key. rw (arriving_same (set_all sqs_set fs [])) (
      sqs_get_same key (set_all sqs_set fs [])
      ∙ (set_all-get sqs_get sqs_set sqs_get-sqs_set key fs [] ∙ rw empty_attribute refl))),
)
