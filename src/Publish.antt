-- ===== src/Publish.antt =====
-- services/api/internal/application/service/resource_service.go and the two queue adapters,
-- services/api/internal/adapters/outbound/kafka/resource_publisher.go and
-- services/api/internal/adapters/outbound/sqs/resource_publisher.go.
-- The queue's writer or client, json.Marshal, and the trace propagator are arguments.
pub mod Carriers
pub mod Laws
use cloud_ops_manager.Common.{
  ℕ, String, Bool, true, Option, some, none, List, [], ◌∷◌, ◌++◌, Result, ok, err, length, null,
  if◌then◌else◌,
}
use cloud_ops_manager.Text.{Text, codes}
use cloud_ops_manager.Logging.{Entry, entry, field, text, number, info}
use cloud_ops_manager.Domain.Errors.{GoError, other, new_domain_error, err_code_queue_error}
use cloud_ops_manager.Domain.Model.{ProvisionRequest}
use cloud_ops_manager.Publish.Carriers.{Carrier}

-- kafka.Message and sqs.SendMessageInput, as the adapters fill them.
pub record KafkaMessage : Type 0 where
  pub key : Text
  pub value : Text
  pub headers : Carrier

pub record SendMessageInput : Type 0 where
  pub message_body : Text
  pub queue_url : Text
  pub message_attributes : Option Carrier

-- kafka.Writer, as NewResourcePublisher of the Kafka adapter sets it up.
pub data Balancer : Type 0 where
  hash : Balancer

pub record KafkaWriter : Type 0 where
  pub addr : List Text
  pub topic : Text
  pub balancer : Balancer
  pub allow_auto_topic_creation : Bool

abbrev pub new_kafka_publisher : List Text → Text → KafkaWriter
new_kafka_publisher brokers topic = record {
  addr = brokers;
  topic = topic;
  balancer = hash;
  allow_auto_topic_creation = true;
}

-- Close of the Kafka adapter passes on what the writer's Close answers.
abbrev pub close_kafka_publisher :
    {S : Type 0} → (S → Result GoError Unit × S) → S → Result GoError Unit × S
close_kafka_publisher close = close

-- ResourcePublisher of the SQS adapter, but for its client.
pub record SqsPublisher : Type 0 where
  pub queue_url : Text

abbrev pub new_sqs_publisher : Text → SqsPublisher
new_sqs_publisher queue_url = record { queue_url = queue_url }

-- ResourcePublisher, the port.
abbrev pub Publisher : Type 0 → Type 0
Publisher S = ProvisionRequest → S → Result GoError Unit × S

-- A failure that the adapter wraps as a queue error.
abbrev pub queue_error : Text → GoError → GoError
queue_error message cause = new_domain_error err_code_queue_error message (some cause)

abbrev pub sent : Text → Result GoError Unit → Result GoError Unit
sent message (ok _) = ok tt
sent message (err e) = err (queue_error message e)

abbrev pub attributes_of : Carrier → Option Carrier
attributes_of attrs = if null attrs then none else some attrs

module _ {S : Type 0} (marshal : ProvisionRequest → Result GoError Text)
    (inject : S → Carrier → Carrier) where
  -- `write_messages` is the Kafka writer; `inject` adds the trace context to a carrier.
  abbrev pub publish_kafka_body :
      (KafkaMessage → S → Result GoError Unit × S)
      → ProvisionRequest
      → Result GoError Text
      → S
      → Result GoError Unit × S
  publish_kafka_body write_messages request (err e) s =
      (err (queue_error (codes "failed to serialize provision request for publishing") e), s)
  publish_kafka_body write_messages request (ok body) s =
      let (answer, s') =
        write_messages
          (record { key = request.application.name; value = body; headers = inject s [] }) s in
      (
        sent
            (codes "failed to publish provision request "
              ++ (request.request_id ++ codes " to kafka"))
            answer,
        s',
      )

  unfoldable pub publish_kafka : (KafkaMessage → S → Result GoError Unit × S) → Publisher S
  publish_kafka write_messages request = publish_kafka_body write_messages request (marshal request)

  abbrev pub publish_sqs_body :
      (SendMessageInput → S → Result GoError Unit × S)
      → Text
      → ProvisionRequest
      → Result GoError Text
      → S
      → Result GoError Unit × S
  publish_sqs_body send_message queue_url request (err e) s =
      (err (queue_error (codes "failed to serialize provision request for publishing") e), s)
  publish_sqs_body send_message queue_url request (ok body) s =
      let (answer, s') =
        send_message
          (record {
            message_body = body;
            queue_url = queue_url;
            message_attributes = attributes_of (inject s []);
          })
          s in
      (
        sent
            (codes "failed to publish provision request "
              ++ (request.request_id ++ codes " to queue"))
            answer,
        s',
      )

  -- `send_message` is the SQS client.
  unfoldable pub publish_sqs : (SendMessageInput → S → Result GoError Unit × S) → Text → Publisher S
  publish_sqs send_message queue_url request =
      publish_sqs_body send_message queue_url request (marshal request)

-- A body that cannot be marshalled is logged as the empty text.
abbrev pub body_text : Result GoError Text → Text
body_text (ok b) = b
body_text (err e) = []

-- What SendProvisioningRequest logs before it publishes.
unfoldable pub publishing_entry :
    (ProvisionRequest → Result GoError Text) → ProvisionRequest → Entry
publishing_entry marshal r = entry info "publishing provisioning request" (
    field "request_id" (text r.request_id)
    ∷ field "application_name" (text r.application.name)
    ∷ field "template" (text r.application.template)
    ∷ field "resource_count" (number (length r.resources))
    ∷ field "body" (text (body_text (marshal r)))
    ∷ [])

-- The log grows at the end.
unfoldable pub send_provisioning_request :
    {S : Type 0}
    → (ProvisionRequest → Result GoError Text)
    → Publisher S
    → ProvisionRequest
    → S
    → List Entry
    → Result GoError Unit × S × List Entry
unfolding publishing_entry
send_provisioning_request marshal publish r s logs =
    let (answer, s') = publish r s in (answer, s', logs ++ publishing_entry marshal r ∷ [])
