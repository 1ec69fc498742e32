-- ===== src/Provisioner/Kafka.antt =====
-- services/provisioner/internal/consumer/kafka.go
-- The Kafka reader and the context are the argument `reader`, over a state of their own. The loop
-- runs on fuel, one unit for each round; `none` means that the fuel ran out.
pub mod Laws
mod Tests
use cloud_ops_manager.Common.{
  ℕ, zero, suc, ◌+◌, String, Bool, true, false, Option, some, none, List, [], ◌∷◌, Result, ok, err,
  if◌then◌else◌, ◌++◌,
}
use cloud_ops_manager.Text.{Text}
use cloud_ops_manager.Logging.{Level, Field, entry, text, field, error, info, warn}
use cloud_ops_manager.Provisioner.Request.{Request, ParseError}
use cloud_ops_manager.Provisioner.Dispatch.{Sink, log, dispatch}

pub record KafkaMessage : Type 0 where
  pub offset : ℕ
  pub value : Text

pub record KafkaConfig : Type 0 where
  pub brokers : List Text
  pub topic : Text
  pub group_id : Text

-- kafka.Reader and the context. Each call may change the reader's state, also when it fails.
pub record Reader (S : Type 0) : Type 0 where
  pub cancelled : S → Bool
  pub fetch : S → Result Text KafkaMessage × S
  pub commit : KafkaMessage → S → Result Text Unit × S
  pub close : S → Result Text Unit × S

-- `span_errors` are the statuses that processing set on its spans.
pub record World (S : Type 0) : Type 0 where
  pub env : S
  pub sink : Sink
  pub span_errors : List String
  pub received : ℕ
  pub processed : ℕ
  pub failed : ℕ

module _ {S : Type 0} where
  abbrev pub write : Level → String → List Field → World S → World S
  write level message fields w = record w { sink = log (entry level message fields) w.sink }

  abbrev pub set_span_error : Bool → World S → World S
  set_span_error true w = w
  set_span_error false w = record w {
    span_errors = w.span_errors ++ "provision request could not be understood" ∷ [];
  }

  -- What follows the answer to CommitMessages.
  abbrev pub committed : Result Text Unit → World S → World S
  committed (err e) w =
      write error "failed to commit message" (field "error" (text e) ∷ [])
        (record w { failed = w.failed + 1 })
  committed (ok _) w = write info "message committed" [] (record w { processed = w.processed + 1 })

  abbrev pub closed : Result Text Unit → World S → World S
  closed (err e) w = write warn "failed to close Kafka reader" (field "error" (text e) ∷ []) w
  closed (ok _) w = w

  -- What RunKafka writes before its loop.
  abbrev pub started : KafkaConfig → World S → World S
  started cfg w =
      write info "consuming messages from Kafka"
        (field "topic" (text cfg.topic) ∷ field "group" (text cfg.group_id) ∷ []) w

module _ {S E : Type 0} (reader : Reader S) (unmarshal : Text → Result E Request)
    (explain : ParseError E → Text) where
  -- A message is dispatched, and its offset committed whatever the dispatch says.
  unfoldable pub process : KafkaMessage → World S → World S
  process m w =
      let w₁ =
        write info "received message" (field "body" (text m.value) ∷ [])
          (record w { received = w.received + 1 }) in
      let (understood, sink) = dispatch explain unmarshal m.value w₁.sink in
      let w₂ = set_span_error understood (record w₁ { sink = sink }) in
      let (answer, env) = reader.commit m w₂.env in committed answer (record w₂ { env = env })

  -- What follows the answer to FetchMessage. A failed fetch of a cancelled context is a shutdown,
  -- and writes nothing.
  unfoldable pub fetched : Result Text KafkaMessage → World S → World S
  fetched (err e) w =
      if reader.cancelled w.env
      then w
      else write error "failed to fetch message" (field "error" (text e) ∷ []) w
  fetched (ok m) w = process m w

  unfoldable pub round : World S → World S
  round w = let (answer, env) = reader.fetch w.env in fetched answer (record w { env = env })

  unfoldable pub run_loop : ℕ → World S → Option (World S)
  run_loop zero w = none
  run_loop (suc fuel) w =
      let rest = run_loop fuel (round w) in if reader.cancelled w.env then some w else rest

  -- The deferred Close runs when the loop returns.
  abbrev pub finish : Option (World S) → Option (World S)
  finish none = none
  finish (some w) =
      let (answer, env) = reader.close w.env in some (closed answer (record w { env = env }))

  unfoldable pub run_kafka : ℕ → KafkaConfig → World S → Option (World S)
  run_kafka fuel cfg w = finish (run_loop fuel (started cfg w))
