-- ===== src/Provisioner/Kafka/Laws.antt =====
-- The Kafka consumer: every fetched message is committed once, understood or not.
use cloud_ops_manager.Common.{
  ℕ, zero, suc, ◌+◌, ◌≡◌, refl, ap, true, some, Result, ok, err, arith, Bool-cases, inl, inr, [],
  ◌∷◌, ◌++◌,
}
use cloud_ops_manager.Text.{Text}
use cloud_ops_manager.Provisioner.Request.{Request, ParseError, parse}
use cloud_ops_manager.Provisioner.Dispatch.{dispatch}
use cloud_ops_manager.Provisioner.Kafka.{
  KafkaMessage, KafkaConfig, Reader, World, process, fetched, round, run_loop, run_kafka, started,
  closed, finish,
}

module _ {S E : Type 0} (reader : Reader S) (unmarshal : Text → Result E Request)
    (explain : ParseError E → Text) where
  -- Processing a message commits it and makes no other call of the reader, also when the message
  -- cannot be understood; then the span has an error and the message is still counted as
  -- processed if the commit succeeds.
  pub process_commits :
      (m : KafkaMessage) (w : World S)
      → let w' = process reader unmarshal explain m w in
        (w'.env ≡ (reader.commit m w.env).1)
        × ((reader.commit m w.env).0 ≡ ok tt → w'.processed ≡ w.processed + 1)
        × ((e : ParseError E)
            → parse unmarshal m.value ≡ err e
            → w'.span_errors ≡ w.span_errors ++ "provision request could not be understood" ∷ [])
  unfolding process dispatch
  process_commits m w = (ground arith, λ h. ground arith, λ e h. ground arith)

  process_counts :
      (m : KafkaMessage) (w : World S)
      → let w' = process reader unmarshal explain m w in
        (w'.processed + w'.failed ≡ w.processed + w.failed + 1) × (w'.received ≡ w.received + 1)
  unfolding process
  process_counts m w = ground arith

  round_counts :
      (w : World S)
      → let w' = round reader unmarshal explain w in
        w'.processed + w'.failed + w.received ≡ w.processed + w.failed + w'.received
  unfolding round fetched
  round_counts w = answer (reader.fetch w.env).0 (record w { env = (reader.fetch w.env).1 })
    where
      answer :
          (r : Result Text KafkaMessage) (w : World S)
          → let w' = fetched reader unmarshal explain r w in
            w'.processed + w'.failed + w.received ≡ w.processed + w.failed + w'.received
      answer (ok m) w = let (balance, same) = process_counts m w in omega arith
      answer (err e) w = ground arith

  -- The world after `n` rounds, whatever the context says.
  abbrev pub rounds : ℕ → World S → World S
  rounds zero w = w
  rounds (suc n) w = rounds n (round reader unmarshal explain w)

  loop_total :
      (n : ℕ) (w : World S)
      → reader.cancelled (rounds n w).env ≡ true
      → (w' : World S) × (run_loop reader unmarshal explain (suc n) w ≡ some w')
  unfolding run_loop
  loop_total zero w h = (w, rw h)
  loop_total (suc n) w h = elim (Bool-cases (reader.cancelled w.env)) [
    | inl stop ↦ (w, rw stop)
    | inr more ↦ rw more (loop_total n (round reader unmarshal explain w) h)
  ]

  loop_counts :
      (fuel : ℕ) (w w' : World S)
      → run_loop reader unmarshal explain fuel w ≡ some w'
      → w'.processed + w'.failed + w.received ≡ w.processed + w.failed + w'.received
  unfolding run_loop
  loop_counts zero w w' h = cc
  loop_counts (suc fuel) w w' h = elim (Bool-cases (reader.cancelled w.env)) [
    | inl stop ↦ ground arith
    | inr more ↦
        let counts = loop_counts fuel (round reader unmarshal explain w) w' (ground arith) in
        omega (arith, round_counts w)
  ]

  closed_counts :
      (r : Result Text Unit) (w : World S)
      → let w' = closed r w in
        (w'.processed ≡ w.processed) × (w'.failed ≡ w.failed) × (w'.received ≡ w.received)
  closed_counts (ok _) w = (refl, refl, refl)
  closed_counts (err e) w = (refl, refl, refl)

  -- If the context is cancelled after some number of rounds, that many rounds of fuel and one more
  -- are enough for RunKafka to return; the messages received since its start are then those
  -- counted as processed or as failed.
  pub run_kafka_total :
      (n : ℕ) (cfg : KafkaConfig) (w : World S)
      → reader.cancelled (rounds n (started cfg w)).env ≡ true
      → (w' : World S) × (run_kafka reader unmarshal explain (suc n) cfg w ≡ some w')
        × (w'.processed + w'.failed + w.received ≡ w.processed + w.failed + w'.received)
  unfolding run_kafka
  run_kafka_total n cfg w h =
      let (w₁, returns) = loop_total n (started cfg w) h in
      let (answer, env) = reader.close w₁.env in
      let (p, f, r) = closed_counts answer (record w₁ { env = env }) in
      (
        closed answer (record w₁ { env = env }),
        ap (finish reader unmarshal explain) returns,
        omega (arith, loop_counts (suc n) (started cfg w) w₁ returns),
      )
