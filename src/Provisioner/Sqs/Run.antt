-- ===== src/Provisioner/Sqs/Run.antt =====
-- The polling loop: it returns once the context is cancelled, and every message is accounted for.
use cloud_ops_manager.Common.{
  ℕ, zero, suc, ◌+◌, ◌≡◌, true, some, Result, arith, Bool-cases, inl, inr,
}
use cloud_ops_manager.Text.{Text}
use cloud_ops_manager.Provisioner.Request.{Request, ParseError}
use cloud_ops_manager.Provisioner.Sqs.{Client, World, poll, run_loop, run_sqs, started}
use cloud_ops_manager.Provisioner.Sqs.Batch.{poll_counts}

module _ {S E : Type 0} (client : Client S) (unmarshal : Text → Result E Request)
    (explain : ParseError E → Text) where
  -- The world after `n` rounds, whatever the context says.
  abbrev pub polls : ℕ → World S → World S
  polls zero w = w
  polls (suc n) w = polls n (poll client unmarshal explain w)

  loop_total :
      (n : ℕ) (w : World S)
      → client.cancelled (polls n w).env ≡ true
      → (w' : World S) × (run_loop client unmarshal explain (suc n) w ≡ some w')
  unfolding run_loop
  loop_total zero w h = (w, rw h)
  loop_total (suc n) w h = elim (Bool-cases (client.cancelled w.env)) [
    | inl stop ↦ (w, rw stop)
    | inr more ↦ rw more (loop_total n (poll client unmarshal explain w) h)
  ]

  loop_result :
      (fuel : ℕ) (w w' : World S)
      → run_loop client unmarshal explain fuel w ≡ some w'
      → (client.cancelled w'.env ≡ true)
        × (w'.processed + w'.failed + w.received ≡ w.processed + w.failed + w'.received)
  unfolding run_loop
  loop_result zero w w' h = cc
  loop_result (suc fuel) w w' h = elim (Bool-cases (client.cancelled w.env)) [
    | inl stop ↦ ground arith
    | inr more ↦
        let (stopped, counts) =
          loop_result fuel (poll client unmarshal explain w) w' (ground arith) in
        (stopped, omega (arith, poll_counts client unmarshal explain w))
  ]

  -- If the context is cancelled after some number of rounds, that many rounds of fuel and one more
  -- are enough for RunSQS to return. It returns with the context cancelled, and the messages
  -- received since its start are those counted as processed or as failed.
  pub run_sqs_total :
      (n : ℕ) (queue_url : Text) (w : World S)
      → client.cancelled (polls n (started queue_url w)).env ≡ true
      → (w' : World S) × (run_sqs client unmarshal explain (suc n) queue_url w ≡ some w')
        × (client.cancelled w'.env ≡ true)
        × (w'.processed + w'.failed + w.received ≡ w.processed + w.failed + w'.received)
  unfolding run_sqs
  run_sqs_total n queue_url w h =
      let (w', returns) = loop_total n (started queue_url w) h in
      let (stopped, counts) = loop_result (suc n) (started queue_url w) w' returns in
      (w', returns, stopped, counts)
