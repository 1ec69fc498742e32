-- ===== src/Provisioner/Sqs.antt =====
-- services/provisioner/internal/consumer/sqs.go
-- The SQS client and the context are the argument `client`, over a state of their own. The loop
-- runs on fuel, one unit for each round of polling; `none` means that the fuel ran out.
pub mod Batch
pub mod Run
mod Tests
use cloud_ops_manager.Common.{
  ℕ, zero, suc, ◌+◌, String, Bool, true, false, Option, some, none, List, [], ◌∷◌, Result, ok, err,
  length, if◌then◌else◌,
}
use cloud_ops_manager.Text.{Text}
use cloud_ops_manager.Logging.{Level, Field, entry, text, field, error, info}
use cloud_ops_manager.Provisioner.Request.{Request, ParseError}
use cloud_ops_manager.Provisioner.Dispatch.{Sink, log, dispatch}

-- An SQS message; an absent id, body or handle is read as the empty text (aws.ToString).
pub record Message : Type 0 where
  pub message_id : Text
  pub body : Text
  pub receipt_handle : Text

-- SQSClient and the context. Each call may change the client's state, also when it fails.
pub record Client (S : Type 0) : Type 0 where
  pub cancelled : S → Bool
  pub receive : S → Result Text (List Message) × S
  pub delete : Text → S → Result Text Unit × S

-- The state of a consumer: the client's, what was written, and the three counters of metrics.go.
pub record World (S : Type 0) : Type 0 where
  pub env : S
  pub sink : Sink
  pub received : ℕ
  pub processed : ℕ
  pub failed : ℕ

module _ {S : Type 0} where
  abbrev pub write : Level → String → List Field → World S → World S
  write level message fields w = record w { sink = log (entry level message fields) w.sink }

  abbrev pub add_failed : World S → World S
  add_failed w = record w { failed = w.failed + 1 }

  abbrev pub add_processed : World S → World S
  add_processed w = record w { processed = w.processed + 1 }

  -- What RunSQS writes before its loop.
  abbrev pub started : Text → World S → World S
  started queue_url w =
      write info "polling messages from SQS queue" (field "queue_url" (text queue_url) ∷ []) w

  -- What follows the answer to DeleteMessage.
  abbrev pub deleted : Result Text Unit → World S → World S
  deleted (err e) w =
      write error "failed to delete message" (field "error" (text e) ∷ []) (add_failed w)
  deleted (ok _) w = write info "message deleted" [] (add_processed w)

module _ {S E : Type 0} (client : Client S) (unmarshal : Text → Result E Request)
    (explain : ParseError E → Text) where
  abbrev pub handled : Bool → Message → World S → World S
  handled false m w =
      write error "leaving message on the queue for redelivery"
        (field "message_id" (text m.message_id) ∷ []) (add_failed w)
  handled true m w =
      let (answer, env) = client.delete m.receipt_handle w.env in
      deleted answer (record w { env = env })

  -- The body of the loop over the messages of one poll.
  unfoldable pub process : Message → World S → World S
  process m w =
      let w' = write info "received message" (field "body" (text m.body) ∷ []) w in
      let (understood, sink) = dispatch explain unmarshal m.body w'.sink in
      handled understood m (record w' { sink = sink })

  unfoldable pub process_all : List Message → World S → World S
  process_all [] w = w
  process_all (m ∷ ms) w = process_all ms (process m w)

  -- What follows the answer to ReceiveMessage. A failed poll of a cancelled context is a shutdown,
  -- and writes nothing.
  unfoldable pub received : Result Text (List Message) → World S → World S
  received (err e) w =
      if client.cancelled w.env
      then w
      else write error "failed to receive messages" (field "error" (text e) ∷ []) w
  received (ok ms) w = process_all ms (record w { received = w.received + length ms })

  -- One round: ReceiveMessage, then its messages.
  unfoldable pub poll : World S → World S
  poll w = let (answer, env) = client.receive w.env in received answer (record w { env = env })

  unfoldable pub run_loop : ℕ → World S → Option (World S)
  run_loop zero w = none
  run_loop (suc fuel) w =
      let rest = run_loop fuel (poll w) in if client.cancelled w.env then some w else rest

  unfoldable pub run_sqs : ℕ → Text → World S → Option (World S)
  run_sqs fuel queue_url w = run_loop fuel (started queue_url w)
