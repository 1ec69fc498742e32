-- ===== src/Provisioner/Start.antt =====
-- services/provisioner/cmd/consumer/main.go, and Setup of
-- services/provisioner/internal/telemetry/telemetry.go. The process and the libraries are those of
-- Bootstrap; the consumers' clients and the context are arguments. The consumers run on fuel.
-- The span of getQueueURL is not modelled.
pub mod Flush
mod Tests
use cloud_ops_manager.Common.{
  ℕ, String, Bool, true, false, not, ◌&&◌, Option, some, none, List, [], ◌∷◌, ◌++◌, Result, ok, err,
  map, null, if◌then◌else◌,
}
use cloud_ops_manager.Text.{Text, codes, is_space}
use cloud_ops_manager.Text.Trim.{trim}
use cloud_ops_manager.Logging.{text, field, error}
use cloud_ops_manager.Config.{not_empty}
use cloud_ops_manager.Config.Split.{split_string}
use cloud_ops_manager.Bootstrap.{
  Signal, logs, traces, metrics, Call, load_default_config, parameter, new_exporter, merge_resource,
  set_provider, set_propagator, shutdown_provider, Outside, Process, Step, and_then, wrap, log,
  note, perform, remember, is_found,
}
use cloud_ops_manager.Bootstrap.Telemetry.{TelemetryConfig, attributes, new_resource}
use cloud_ops_manager.Provisioner.Request.{Request, ParseError}
use cloud_ops_manager.Provisioner.Sqs.{Client, World as SqsWorld, run_sqs}
use cloud_ops_manager.Provisioner.Kafka.{KafkaConfig, Reader, World as KafkaWorld, run_kafka}

abbrev pub service_name : Text
service_name = codes "resource-provisioner-consumer"

-- splitBrokers: the items between commas, trimmed, without the empty ones.
unfoldable pub split_brokers : Text → List Text
split_brokers csv = not_empty (map (trim is_space) (split_string csv (codes ",")))

-- errors.Join: nil if nothing failed, else the errors on lines.
abbrev pub join_errors : Result Text Unit → Result Text Unit → Result Text Unit
join_errors (ok _) r = r
join_errors (err e) (ok _) = err e
join_errors (err e) (err f) = err (e ++ (codes "\n" ++ f))

-- What the consumers are given: the context, and the clients over the state of the libraries.
pub record Transports (S : Type 0) : Type 0 where
  pub cancelled : S → Bool
  pub reader : KafkaConfig → Reader S
  pub client : Client S

module _ (getenv : String → Text) where
  unfoldable pub env_or_default : String → String → Text
  env_or_default key fallback = let v = getenv key in if null v then codes fallback else v

  abbrev pub setup_config : TelemetryConfig
  setup_config = record {
    service_name = service_name;
    service_version = getenv "SERVICE_VERSION";
    environment = env_or_default "ENVIRONMENT" "dev";
  }

module _ {S : Type 0} (outside : Outside S) (getenv : String → Text) where
  abbrev pub exporter : Signal → String → Step S Unit
  exporter s what p = wrap what (perform outside (new_exporter s) p)

  -- newResource, which is that of the API.
  abbrev pub service_resource : TelemetryConfig → Step S Unit
  service_resource = new_resource outside

  -- Setup: whether there is telemetry to shut down. Without an endpoint it does nothing.
  unfoldable pub setup : Step S Bool
  unfolding new_resource
  setup p =
      if null (getenv "OTEL_EXPORTER_OTLP_ENDPOINT")
      then (ok false, p)
      else and_then (service_resource (setup_config getenv) p) (λ _ p₁.
        and_then (exporter traces "creating otlp trace exporter" p₁) (λ _ p₂.
          and_then
            (exporter metrics "creating otlp metric exporter"
              (note set_propagator (note (set_provider traces) p₂)))
            (λ _ p₃.
              and_then (exporter logs "creating otlp log exporter" (note (set_provider metrics) p₃))
                (λ _ p₄. (ok true, note (set_provider logs) p₄)))))

  -- The shutdown that Setup returns: all three providers, whatever the others answer.
  unfoldable pub shutdown : Step S Unit
  shutdown p =
      let (traced, p₁) = perform outside (shutdown_provider traces) p in
      let (measured, p₂) = perform outside (shutdown_provider metrics) p₁ in
      let (logged, p₃) = perform outside (shutdown_provider logs) p₂ in
      (join_errors traced (join_errors measured logged), p₃)

  abbrev pub shutdown_logged : Result Text Unit × Process S → Process S
  shutdown_logged (ok _, p) = p
  shutdown_logged (err e, p) = log error "telemetry shutdown error" (field "error" (text e) ∷ []) p

  -- The deferred shutdown, which main reaches by returning.
  unfoldable pub deferred : Bool → Process S → Process S
  unfolding shutdown
  deferred true p = shutdown_logged (shutdown p)
  deferred false p = p

  -- A value that is missing is the empty text (aws.ToString). That an answer without an error has a
  -- parameter is left to the service; the source would panic at one without.
  abbrev pub queue_url : Result Text (Option Text) → Result Text Text
  queue_url (err e) = err e
  queue_url (ok none) = err (codes "SQS queue URL is empty")
  queue_url (ok (some url)) = if null url then err (codes "SQS queue URL is empty") else ok url

  unfoldable pub get_queue_url : Step S Text
  unfolding env_or_default
  get_queue_url p =
      let key =
        env_or_default getenv "PROVISIONER_QUEUE_PARAM_KEY"
          "/INTERNAL_DEVELOPER_PLATFORM/PROVISIONER_QUEUE_URL" in
      let (answer, env) = outside.get_parameter key false p.env in
      (queue_url answer, remember (parameter key false) (is_found answer) (record p { env = env }))

  -- The part of runSQS before the consumer.
  unfoldable pub resolve : Step S Text
  unfolding get_queue_url
  resolve p =
      and_then (wrap "load AWS config" (perform outside load_default_config p))
        (λ _ p₁. get_queue_url p₁)

  module _ {E : Type 0} (transports : Transports S) (unmarshal : Text → Result E Request)
      (explain : ParseError E → Text) (fuel : ℕ) where
    -- The consumers count and write in a world of their own, over the same state.
    abbrev pub after_sqs : Process S → Option (SqsWorld S) → Option (Process S)
    after_sqs p none = none
    after_sqs p (some w) = some (record p { env = w.env; entries = w.sink.logs })

    abbrev pub after_kafka : Process S → Option (KafkaWorld S) → Option (Process S)
    after_kafka p none = none
    after_kafka p (some w) = some (record p { env = w.env; entries = w.sink.logs })

    abbrev pub consume_sqs : Text → Process S → Option (Process S)
    consume_sqs url p = after_sqs p (
        run_sqs transports.client unmarshal explain fuel url (record {
          env = p.env;
          sink = record { logs = p.entries; spans = [] };
          received = 0;
          processed = 0;
          failed = 0;
        }))

    abbrev pub kafka_config : List Text → KafkaConfig
    kafka_config brokers = record {
      brokers = brokers;
      topic = env_or_default getenv "KAFKA_TOPIC" "resource-provisioning";
      group_id = env_or_default getenv "KAFKA_GROUP_ID" "resource-provisioner";
    }

    abbrev pub consume_kafka : List Text → Process S → Option (Process S)
    consume_kafka brokers p = after_kafka p (
        run_kafka (transports.reader (kafka_config brokers)) unmarshal explain fuel
          (kafka_config brokers)
          (record {
            env = p.env;
            sink = record { logs = p.entries; spans = [] };
            span_errors = [];
            received = 0;
            processed = 0;
            failed = 0;
          }))

    -- What main does after a consumer, which returns ctx.Err(): that error is not nil only if the
    -- context is cancelled, and then main returns.
    abbrev pub consumed : Bool → Option (Process S) → Option (ℕ × Process S)
    consumed telemetry none = none
    consumed telemetry (some p) = some (0, deferred telemetry p)

    -- What main does after runSQS could not start: os.Exit runs no deferred call.
    abbrev pub resolved : Bool → Result Text Text × Process S → Option (ℕ × Process S)
    resolved telemetry (ok url, p) = consumed telemetry (consume_sqs url p)
    resolved telemetry (err e, p) =
        if transports.cancelled p.env
        then some (0, deferred telemetry p)
        else some (1, log error "sqs consumer error" (field "error" (text e) ∷ []) p)

    abbrev pub set_up : Result Text Bool × Process S → Option (ℕ × Process S)
    set_up (err e, p) =
        some (1, log error "unable to set up telemetry" (field "error" (text e) ∷ []) p)
    set_up (ok telemetry, p) =
        let brokers = split_brokers (getenv "KAFKA_BROKERS") in
        if null brokers
        then resolved telemetry (resolve p)
        else consumed telemetry (consume_kafka brokers p)

    unfoldable pub main : Process S → Option (ℕ × Process S)
    unfolding setup split_brokers resolve deferred env_or_default
    main p = set_up (setup p)
