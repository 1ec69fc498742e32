-- ===== src/Provisioner/Kafka/Tests.antt =====
-- The Kafka consumer at a concrete topic, whose one message cannot be understood.
use cloud_ops_manager.Common.{
  ℕ, ◌+◌, ◌-◌, ◌≡◌, refl, some, List, [], ◌∷◌, ◌++◌, Result, ok, err, ◌==◌,
}
use cloud_ops_manager.Text.{Text, codes}
use cloud_ops_manager.Provisioner.Request.{Request, ParseError, parse}
use cloud_ops_manager.Provisioner.Dispatch.{dispatch}
use cloud_ops_manager.Provisioner.Kafka.{
  KafkaMessage, KafkaConfig, Reader, World, process, fetched, round, run_kafka,
}
use cloud_ops_manager.Provisioner.Kafka.Laws.{process_commits, run_kafka_total}

unmarshal : Text → Result Text Request
unmarshal body = err (codes "unexpected end of JSON input")

explain : ParseError Text → Text
explain e = codes "cannot parse"

abbrev message : KafkaMessage
message = record { offset = 4; value = codes "{" }

-- The rounds left before the context is cancelled, and the offsets committed.
record Topic : Type 0 where
  rounds_left : ℕ
  offsets : List ℕ

abbrev reader : Reader Topic
reader = record {
  cancelled = λ t. t.rounds_left == 0;
  fetch = λ t. (ok message, record t { rounds_left = t.rounds_left - 1 });
  commit = λ m t. (ok tt, record t { offsets = m.offset ∷ t.offsets });
  close = λ t. (ok tt, t);
}

abbrev cfg : KafkaConfig
cfg = record { brokers = []; topic = codes "t"; group_id = codes "g" }

abbrev start : World Topic
start = record {
  env = record { rounds_left = 1; offsets = [] };
  sink = record { logs = []; spans = [] };
  span_errors = [];
  received = 0;
  processed = 0;
  failed = 0;
}

process_commits_example :
    let w' = process reader unmarshal explain message start in
    (w'.env ≡ (reader.commit message start.env).1)
    × ((reader.commit message start.env).0 ≡ ok tt → w'.processed ≡ start.processed + 1)
    × ((e : ParseError Text)
        → parse unmarshal message.value ≡ err e
        → w'.span_errors ≡ start.span_errors ++ "provision request could not be understood" ∷ [])
process_commits_example = process_commits reader unmarshal explain message start

run_kafka_total_example :
    (w' : World Topic) × (run_kafka reader unmarshal explain 2 cfg start ≡ some w')
    × (w'.processed + w'.failed + start.received ≡ start.processed + start.failed + w'.received)
unfolding round fetched process dispatch parse unmarshal
run_kafka_total_example = run_kafka_total reader unmarshal explain 1 cfg start refl
