-- ===== src/Provisioner/Start/Flush.antt =====
-- Which runs of the provisioner shut their telemetry down.
use cloud_ops_manager.Common.{
  ℕ, suc, String, ◌≡◌, ◌⊎◌, refl, ap, Bool, true, false, Option, some, List, [], ◌∷◌, Result, ok,
  err, null, Bool-cases, inl, inr,
}
use cloud_ops_manager.Text.{Text}
use cloud_ops_manager.Logging.{text, field, error}
use cloud_ops_manager.Bootstrap.{
  Signal, logs, traces, metrics, load_default_config, set_provider, Outside, Process, log, note,
  perform,
}
use cloud_ops_manager.Bootstrap.Telemetry.{new_resource}
use cloud_ops_manager.Bootstrap.Release.Held.{
  telemetry, is_open, Ends, Ends-and_then, Ends-wrap, Ends-ok, Ends-always, Ends-end,
}
use cloud_ops_manager.Provisioner.Request.{Request, ParseError}
use cloud_ops_manager.Provisioner.Sqs.{World as SqsWorld}
use cloud_ops_manager.Provisioner.Sqs.Run.{polls, run_sqs_total}
use cloud_ops_manager.Provisioner.Kafka.{KafkaConfig, World as KafkaWorld}
use cloud_ops_manager.Provisioner.Kafka.Laws.{rounds, run_kafka_total}
use cloud_ops_manager.Provisioner.Start.{
  Transports, split_brokers, setup, shutdown, shutdown_logged, deferred, get_queue_url, resolve,
  after_sqs, after_kafka, kafka_config, consume_kafka, consumed, resolved, set_up, main,
}

module _ {S : Type 0} where
  -- All three providers are open, or none.
  abbrev pub Flushed : Bool → Process S → Type 0
  Flushed b p = (s : Signal) → is_open (telemetry s) p.events ≡ b

module _ {S : Type 0} (getenv : String → Text) where
  -- How a process ends: at exit status 0 nothing of the telemetry is open, at 1 it is as `b` says.
  abbrev pub Exits : Bool → ℕ × Process S → Type 0
  Exits b (code, end) =
      ((code ≡ 0) × Flushed false end)
      ⊎ ((code ≡ 1) × Flushed b end × (null (split_brokers (getenv "KAFKA_BROKERS")) ≡ true))

module _ {S : Type 0} (outside : Outside S) (getenv : String → Text) where
  shutdown-Flushed : (p : Process S) → Flushed false (shutdown outside getenv p).1
  unfolding shutdown
  shutdown-Flushed p logs = refl
  shutdown-Flushed p traces = refl
  shutdown-Flushed p metrics = refl

  deferred-Flushed :
      (b : Bool) (p : Process S) → Flushed b p → Flushed false (deferred outside getenv b p)
  unfolding deferred
  deferred-Flushed false p h = h
  deferred-Flushed true p h = go (shutdown outside getenv p) (shutdown-Flushed p)
    where
      go :
          (q : Result Text Unit × Process S)
          → Flushed false q.1
          → Flushed false (shutdown_logged outside getenv q)
      go (ok u, q) h = h
      go (err e, q) h = h

  resolve-Flushed :
      (b : Bool) (p : Process S) → Flushed b p → Flushed b (resolve outside getenv p).1
  unfolding resolve get_queue_url
  resolve-Flushed b p h = Ends-end (Flushed b) _ (
      Ends-and_then (λ _. Flushed b) (λ _. Flushed b) (Flushed b) _ _
        (Ends-wrap _ _ _ _ (Ends-always (Flushed b) (perform outside load_default_config p) h))
        (λ _ q k. Ends-always (Flushed b) (get_queue_url outside getenv q) k))

  -- Nothing is said of a Setup that fails.
  abbrev Anything : Process S → Type 0
  Anything p = Unit

  -- A step that keeps something.
  Ends-keep :
      {A : Type 0} (F : Process S → Type 0) (q : Result Text A × Process S)
      → F q.1
      → Ends (λ _. F) Anything q
  unfolding Ends
  Ends-keep F (ok u, q) h = h
  Ends-keep F (err e, q) h = tt

  -- Which providers are open while Setup runs.
  abbrev Provided : Bool → Bool → Bool → Process S → Type 0
  Provided t m l p =
      (is_open (telemetry traces) p.events ≡ t)
      × (is_open (telemetry metrics) p.events ≡ m)
      × (is_open (telemetry logs) p.events ≡ l)

  Provided-Flushed : (b : Bool) (p : Process S) → Provided b b b p → Flushed b p
  Provided-Flushed b p (t, m, l) logs = l
  Provided-Flushed b p (t, m, l) traces = t
  Provided-Flushed b p (t, m, l) metrics = m

  setup-Flushed : (p : Process S) → Flushed false p → Ends Flushed Anything (setup outside getenv p)
  unfolding setup new_resource
  setup-Flushed p closed = elim (Bool-cases (null (getenv "OTEL_EXPORTER_OTLP_ENDPOINT"))) [
    | inl h ↦ rw h (Ends-ok Flushed Anything false p closed)
    | inr h ↦ rw h (
        Ends-and_then (λ _. Provided false false false) Flushed Anything _ _
          (Ends-wrap _ _ _ _ (Ends-keep _ _ (closed traces, closed metrics, closed logs)))
          (λ _ p₁ k₁.
            Ends-and_then (λ _. Provided false false false) Flushed Anything _ _
              (Ends-wrap _ _ _ _ (Ends-keep _ _ k₁))
              (λ _ p₂ (t₂, m₂, l₂).
                Ends-and_then (λ _. Provided true false false) Flushed Anything _ _
                  (Ends-wrap _ _ _ _ (Ends-keep _ _ (refl, m₂, l₂)))
                  (λ _ p₃ (t₃, m₃, l₃).
                    Ends-and_then (λ _. Provided true true false) Flushed Anything _ _
                      (Ends-wrap _ _ _ _ (Ends-keep _ _ (t₃, refl, l₃)))
                      (λ _ p₄ (t₄, m₄, l₄).
                        Ends-ok Flushed Anything true _
                          (Provided-Flushed true (note (set_provider logs) p₄) (t₄, m₄, refl)))))))
  ]

  module _ {E : Type 0} (transports : Transports S) (unmarshal : Text → Result E Request)
      (explain : ParseError E → Text) (n : ℕ)
      (stops_sqs : (w : SqsWorld S)
        → transports.client.cancelled (polls transports.client unmarshal explain n w).env ≡ true)
      (stops_kafka : (cfg : KafkaConfig) (w : KafkaWorld S)
        → (transports.reader cfg).cancelled
            (rounds (transports.reader cfg) unmarshal explain n w).env
          ≡ true) where
    abbrev Ending : Bool → Option (ℕ × Process S) → Type 0
    Ending b o = (q : ℕ × Process S) × (o ≡ some q) × Exits getenv b q

    consumed-Ending :
        (b : Bool) (o : Option (Process S)) (p : Process S)
        → o ≡ some p
        → Flushed b p
        → Ending b (consumed outside getenv transports unmarshal explain (suc n) b o)
    consumed-Ending b o p h f =
        ((0, deferred outside getenv b p), rw h refl, inl (refl, deferred-Flushed b p f))

    resolved-Ending :
        (b : Bool) (q : Result Text Text × Process S)
        → Flushed b q.1
        → null (split_brokers (getenv "KAFKA_BROKERS")) ≡ true
        → Ending b (resolved outside getenv transports unmarshal explain (suc n) b q)
    resolved-Ending b (ok url, p) f none_set =
        let (w, returns, stopped, counts) =
          run_sqs_total transports.client unmarshal explain n url
            (record {
              env = p.env;
              sink = record { logs = p.entries; spans = [] };
              received = 0;
              processed = 0;
              failed = 0;
            })
            (stops_sqs _) in
        consumed-Ending b _ (record p { env = w.env; entries = w.sink.logs })
          (ap (after_sqs outside getenv transports unmarshal explain (suc n) p) returns) f
    resolved-Ending b (err e, p) f none_set = elim (Bool-cases (transports.cancelled p.env)) [
      | inl h ↦ rw h ((0, deferred outside getenv b p), refl, inl (refl, deferred-Flushed b p f))
      | inr h ↦ rw h (
        (1, log error "sqs consumer error" (field "error" (text e) ∷ []) p),
        refl,
        inr (refl, f, none_set),
      )
    ]

    set_up-Ending :
        (b : Bool) (p : Process S)
        → Flushed b p
        → Ending b (set_up outside getenv transports unmarshal explain (suc n) (ok b, p))
    set_up-Ending b p f = elim (Bool-cases (null (split_brokers (getenv "KAFKA_BROKERS")))) [
      | inl h ↦
          rw h (rw h at (resolved-Ending b (resolve outside getenv p) (resolve-Flushed b p f) h))
      | inr h ↦ rw h (rw h at (kafka (split_brokers (getenv "KAFKA_BROKERS"))))
    ]
      where
        kafka :
            (brokers : List Text)
            → Ending b (
                consumed outside getenv transports unmarshal explain
                  (suc n)
                  b
                  (consume_kafka outside getenv transports unmarshal explain (suc n) brokers p))
        kafka brokers =
            let cfg = kafka_config outside getenv transports unmarshal explain (suc n) brokers in
            let (w, returns, counts) =
              run_kafka_total (transports.reader cfg) unmarshal explain n cfg
                (record {
                  env = p.env;
                  sink = record { logs = p.entries; spans = [] };
                  span_errors = [];
                  received = 0;
                  processed = 0;
                  failed = 0;
                })
                (stops_kafka cfg _) in
            consumed-Ending b _ (record p { env = w.env; entries = w.sink.logs })
              (ap (after_kafka outside getenv transports unmarshal explain (suc n) p) returns) f

    -- A process that begins with no telemetry open and whose Setup succeeds, where the context of the
    -- consumers is cancelled within n rounds from whatever state. It ends, with exit status 0 or 1. At
    -- 0 no telemetry is open. It is 1 only without Kafka brokers, and then every provider that Setup
    -- opened is still open: nothing flushes it.
    pub provisioner_flushes :
        (started : Bool) (p p₁ : Process S)
        → Flushed false p
        → setup outside getenv p ≡ (ok started, p₁)
        → (q : ℕ × Process S) × (main outside getenv transports unmarshal explain (suc n) p
            ≡ some q)
          × Exits getenv started q
    unfolding main Ends
    provisioner_flushes started p p₁ closed h =
        rw h (set_up-Ending started p₁ (rw h at (setup-Flushed p closed)))
