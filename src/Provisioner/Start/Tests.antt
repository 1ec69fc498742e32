-- ===== src/Provisioner/Start/Tests.antt =====
-- A provisioner that may not read the queue's URL, once without and once with Kafka brokers.
use cloud_ops_manager.Common.{
  ℕ, String, ◌≡◌, refl, Bool, true, false, Option, some, none, [], Result, ok, err, str_eq,
  if◌then◌else◌,
}
use cloud_ops_manager.Text.{Text, codes}
use cloud_ops_manager.Bootstrap.{Outside, Process, traces, metrics, logs}
use cloud_ops_manager.Bootstrap.Release.Held.{is_open, telemetry}
use cloud_ops_manager.Provisioner.Request.{Request, ParseError}
use cloud_ops_manager.Provisioner.Sqs.{Client, World as SqsWorld}
use cloud_ops_manager.Provisioner.Sqs.Run.{polls}
use cloud_ops_manager.Provisioner.Kafka.{KafkaConfig, Reader, World as KafkaWorld}
use cloud_ops_manager.Provisioner.Kafka.Laws.{rounds}
use cloud_ops_manager.Provisioner.Start.{Transports, setup, main}
use cloud_ops_manager.Provisioner.Start.Flush.{Exits, provisioner_flushes}

-- The state says whether the context is cancelled, and the first poll cancels it.
abbrev outside : Outside Bool
outside = record {
  ask = λ c s. (ok tt, s);
  get_parameter = λ key decrypt s. (err (codes "access denied"), s);
  get_parameters = λ keys s. (ok [], s);
  handles = λ patterns. true;
}

abbrev transports : Transports Bool
transports = record {
  cancelled = λ s. s;
  reader = λ cfg. record {
    cancelled = λ s. s;
    fetch = λ s. (err (codes "context canceled"), true);
    commit = λ m s. (ok tt, s);
    close = λ s. (ok tt, s);
  };
  client = record { cancelled = λ s. s; receive = λ s. (ok [], true); delete = λ h s. (ok tt, s) };
}

abbrev unmarshal : Text → Result Text Request
unmarshal body = err (codes "unexpected end of JSON input")

abbrev explain : ParseError Text → Text
explain e = codes "cannot parse"

abbrev getenv : String → Text
getenv key = if str_eq key "OTEL_EXPORTER_OTLP_ENDPOINT" then codes "http://collector:4317" else []

abbrev with_brokers : String → Text
with_brokers key = if str_eq key "KAFKA_BROKERS" then codes " kafka:9092,, " else getenv key

abbrev begun : Process Bool
begun = record { env = false; events = []; entries = [] }

stops_sqs :
    (w : SqsWorld Bool)
    → transports.client.cancelled (polls transports.client unmarshal explain 1 w).env ≡ true
unfolding cloud_ops_manager.Provisioner.Sqs.poll cloud_ops_manager.Provisioner.Sqs.received
    cloud_ops_manager.Provisioner.Sqs.process_all
stops_sqs w = refl

stops_kafka :
    (cfg : KafkaConfig) (w : KafkaWorld Bool)
    → (transports.reader cfg).cancelled (rounds (transports.reader cfg) unmarshal explain 1 w).env
      ≡ true
unfolding cloud_ops_manager.Provisioner.Kafka.round cloud_ops_manager.Provisioner.Kafka.fetched
stops_kafka cfg w = refl

provisioner_flushes_example :
    (q : ℕ × Process Bool) × (main outside getenv transports unmarshal explain 2 begun ≡ some q)
    × Exits getenv true q
unfolding setup cloud_ops_manager.Bootstrap.and_then cloud_ops_manager.Bootstrap.wrap
provisioner_flushes_example =
    provisioner_flushes outside getenv transports unmarshal explain 1 stops_sqs stops_kafka true
      begun (setup outside getenv begun).1 (λ s. refl) refl

abbrev status : Option (ℕ × Process Bool) → Option (ℕ × Bool)
status none = none
status (some (code, end)) = some (code, is_open (telemetry logs) end.events)

statuses :
    (status (main outside getenv transports unmarshal explain 2 begun) ≡ some (1, true))
    × (status (main outside with_brokers transports unmarshal explain 2 begun) ≡ some (0, false))
unfolding main cloud_ops_manager.Bootstrap.and_then cloud_ops_manager.Bootstrap.wrap
    cloud_ops_manager.Config.Split.split_string cloud_ops_manager.Text.Trim.trim
    cloud_ops_manager.Text.is_space cloud_ops_manager.Provisioner.Kafka.run_kafka
    cloud_ops_manager.Provisioner.Kafka.run_loop cloud_ops_manager.Provisioner.Kafka.round
    cloud_ops_manager.Provisioner.Kafka.fetched
statuses = (refl, refl)
