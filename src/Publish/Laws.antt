-- ===== src/Publish/Laws.antt =====
-- What the carriers keep, and what the adapters hand to the queues.
use cloud_ops_manager.Common.{
  String, ◌≡◌, refl, some, [], ◌∷◌, ◌++◌, str_eq, str_eq_iff, str_eq_refl, arith, if◌then◌else◌,
  any, lookup-insert,
}
use cloud_ops_manager.Text.{Text}
use cloud_ops_manager.Publish.Carriers.{
  Carrier, kafka_get, kafka_set, kafka_keys, Attributes, sqs_get, sqs_set,
}

pub get-kafka_set :
    (k j : String) (v : Text) (hs : Carrier)
    → kafka_get j (kafka_set k v hs) ≡ (if str_eq k j then v else kafka_get j hs)
unfolding kafka_get kafka_set
get-kafka_set k j v [] = refl
get-kafka_set k j v ((i, x) ∷ hs) =
    ground
      (arith, str_eq_iff i k, str_eq_iff i j, str_eq_iff k j, str_eq_refl j, get-kafka_set k j v hs)

pub keys-kafka_set :
    (k : String) (v : Text) (hs : Carrier)
    → kafka_keys (kafka_set k v hs)
      ≡ (if any (λ i. str_eq i k) (kafka_keys hs) then kafka_keys hs else kafka_keys hs ++ k ∷ [])
unfolding kafka_keys kafka_set
keys-kafka_set k v [] = refl
keys-kafka_set k v ((i, x) ∷ hs) = ground (arith, keys-kafka_set k v hs)

-- What a producer sets on the attributes of an SQS message, a consumer gets: the value of the key
-- that was set, and of every other key what it was.
pub sqs_get-sqs_set :
    (k j : String) (v : Text) (attrs : Attributes)
    → sqs_get j (sqs_set k v attrs) ≡ (if str_eq k j then v else sqs_get j attrs)
unfolding sqs_get sqs_set
sqs_get-sqs_set k j v attrs = ground (arith, lookup-insert k j (some v) attrs)
