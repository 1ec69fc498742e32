-- ===== src/Provisioner/Sqs/Batch.antt =====
-- The messages of one poll: what is counted, and which of them are deleted.
use cloud_ops_manager.Common.{
  ◌+◌, ◌≡◌, refl, ap, ◌∙◌, Bool, true, false, List, [], ◌∷◌, Result, ok, err, length, arith,
  if◌then◌else◌,
}
use cloud_ops_manager.Text.{Text}
use cloud_ops_manager.Provisioner.Request.{Request, ParseError, parse}
use cloud_ops_manager.Provisioner.Dispatch.{Sink, dispatch}
use cloud_ops_manager.Provisioner.Sqs.{Message, Client, World, process, process_all, received, poll}

-- Whether a result is a value.
abbrev pub is_ok : {E A : Type 0} → Result E A → Bool
is_ok (ok _) = true
is_ok (err _) = false

module _ {S : Type 0} (client : Client S) where
  abbrev pub delete_all : List Text → S → S
  delete_all [] s = s
  delete_all (h ∷ hs) s = delete_all hs (client.delete h s).1

  delete_step :
      (b : Bool) (h : Text) (hs : List Text) (s : S)
      → delete_all hs (if b then (client.delete h s).1 else s)
        ≡ delete_all (if b then h ∷ hs else hs) s
  delete_step true h hs s = refl
  delete_step false h hs s = refl

module _ {E : Type 0} (unmarshal : Text → Result E Request) where
  -- The receipt handles of the messages that can be understood, in order.
  abbrev pub understood : List Message → List Text
  understood [] = []
  understood (m ∷ ms) =
      if is_ok (parse unmarshal m.body) then m.receipt_handle ∷ understood ms else understood ms

module _ {S E : Type 0} (client : Client S) (unmarshal : Text → Result E Request)
    (explain : ParseError E → Text) where
  dispatch-is_ok :
      (body : Text) (s : Sink)
      → (dispatch explain unmarshal body s).0 ≡ is_ok (parse unmarshal body)
  unfolding dispatch
  dispatch-is_ok body s = ground arith

  env-process :
      (m : Message) (w : World S)
      → (process client unmarshal explain m w).env ≡ (
          if is_ok (parse unmarshal m.body)
          then (client.delete m.receipt_handle w.env).1
          else w.env)
  unfolding process dispatch
  env-process m w = ground arith

  -- A poll's messages leave the queue's client as the deletions of the understood ones do, in
  -- their order, and no other call: a message that cannot be understood stays on the queue.
  pub env-process_all :
      (ms : List Message) (w : World S)
      → (process_all client unmarshal explain ms w).env
        ≡ delete_all client (understood unmarshal ms) w.env
  unfolding process_all
  env-process_all [] w = refl
  env-process_all (m ∷ ms) w =
      env-process_all ms (process client unmarshal explain m w)
      ∙ (ap (delete_all client (understood unmarshal ms)) (env-process m w)
          ∙ delete_step client (is_ok (parse unmarshal m.body)) m.receipt_handle
              (understood unmarshal ms) w.env)

  process_counts :
      (m : Message) (w : World S)
      → let w' = process client unmarshal explain m w in
        (w'.processed + w'.failed ≡ w.processed + w.failed + 1) × (w'.received ≡ w.received)
  unfolding process
  process_counts m w = ground arith

  process_all_counts :
      (ms : List Message) (w : World S)
      → let w' = process_all client unmarshal explain ms w in
        (w'.processed + w'.failed ≡ w.processed + w.failed + length ms) × (w'.received ≡ w.received)
  unfolding process_all
  process_all_counts [] w = omega arith
  process_all_counts (m ∷ ms) w =
      let w₁ = process client unmarshal explain m w in
      let (balance, same) = process_counts m w in
      let (balance', same') = process_all_counts ms w₁ in (omega arith, omega arith)

  -- One poll counts every message that it received once more as processed or as failed.
  pub poll_counts :
      (w : World S)
      → let w' = poll client unmarshal explain w in
        w'.processed + w'.failed + w.received ≡ w.processed + w.failed + w'.received
  unfolding poll received
  poll_counts w = poll_answer (client.receive w.env).0 (record w { env = (client.receive w.env).1 })
    where
      poll_answer :
          (r : Result Text (List Message)) (w : World S)
          → let w' = received client unmarshal explain r w in
            w'.processed + w'.failed + w.received ≡ w.processed + w.failed + w'.received
      poll_answer (ok ms) w =
          let (balance, same) =
            process_all_counts ms (record w { received = w.received + length ms }) in
          omega arith
      poll_answer (err e) w = ground arith
