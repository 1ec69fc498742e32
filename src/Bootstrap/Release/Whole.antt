-- ===== src/Bootstrap/Release/Whole.antt =====
-- What is open after New.
use cloud_ops_manager.Common.{
  String, ◌≡◌, refl, sym, ap, ◌∙◌, true, false, some, none, null, Bool-cases, inl, inr,
}
use cloud_ops_manager.Text.{Text}
use cloud_ops_manager.Config.{Config}
use cloud_ops_manager.Bootstrap.{logs, traces, metrics, new_writer, Outside, Process, note}
use cloud_ops_manager.Bootstrap.Wiring.{
  Application, kafka, is_local_mode, initialize_adapters, initialize_services, initialize_handlers,
  initialize_kafka_resource_service, initialize_server, mux_panics, served,
}
use cloud_ops_manager.Bootstrap.Server.{is_closer}
use cloud_ops_manager.Bootstrap.Start.{
  finished, initialize_local, initialize_remote, initialize_rest, new_application,
}
use cloud_ops_manager.Bootstrap.Release.Held.{
  Held, redis, writer, telemetry, is_open, has, Matches, Same, Ends, Ends-and_then, Ends-wrap,
  Ends-weaken, Ends-ok,
}
use cloud_ops_manager.Bootstrap.Release.Opening.{new_aws_clients-Same}
use cloud_ops_manager.Bootstrap.Release.Started.{
  Early, Calm, Ready, Connected, Early-Calm, with_logs-Early, with_tracing-Early,
  initialize_metrics-Early, load_runtime_config-Early, initialize_redis-Connected,
}

-- A server holds nothing.
has-served : (a : Application) (r : Held) → has r (served a) ≡ has r a
unfolding served
has-served a redis = refl
has-served a writer = refl
has-served a (telemetry logs) = refl
has-served a (telemetry traces) = refl
has-served a (telemetry metrics) = refl

-- The SQS publisher holds nothing.
remote_has :
    (path : Text) (a : Application) (r : Held)
    → a.resource_publisher ≡ none
    → has r (initialize_handlers (initialize_services (initialize_adapters path a))) ≡ has r a
remote_has path a redis e = refl
remote_has path a writer e = sym (ap is_closer e)
remote_has path a (telemetry logs) e = refl
remote_has path a (telemetry traces) e = refl
remote_has path a (telemetry metrics) e = refl

aws_has : (a : Application) (r : Held) → has r (record a { aws_clients = true }) ≡ has r a
aws_has a redis = refl
aws_has a writer = refl
aws_has a (telemetry logs) = refl
aws_has a (telemetry traces) = refl
aws_has a (telemetry metrics) = refl

module _ {S : Type 0} (outside : Outside S) (path : Text) (cfg : Config) where
  finished-Ready :
      (message : String) (a : Application) (p : Process S)
      → Matches a p
      → a.config ≡ cfg
      → let q = finished outside path message (initialize_server outside.handles a) p in
        Ready outside.handles cfg q.0 q.1
  unfolding initialize_server served
  finished-Ready message a p m same = elim (Bool-cases (mux_panics outside.handles a.config)) [
    | inl e ↦ rw e (ap (mux_panics outside.handles) (sym same) ∙ e)
    | inr e ↦ rw e (λ r. m r ∙ sym (has-served a r), refl)
  ]

  initialize_local-Ready :
      (a : Application) (p : Process S)
      → Early cfg a p
      → Ready outside.handles cfg
          (initialize_local outside path a p).0
          (initialize_local outside path a p).1
  unfolding initialize_local initialize_kafka_resource_service
  initialize_local-Ready a p early = elim (Bool-cases (null a.config.messaging.kafka_brokers)) [
    | inl e ↦ rw e (finished-Ready _ _ _ without early.0.1)
    | inr e ↦ rw e (finished-Ready _ _ _ with_writer early.0.1)
  ]
    where
      without : Matches (initialize_handlers (initialize_adapters path a)) p
      without redis = early.0.0 redis
      without writer = early.0.0 writer
      without (telemetry logs) = early.0.0 (telemetry logs)
      without (telemetry traces) = early.0.0 (telemetry traces)
      without (telemetry metrics) = early.0.0 (telemetry metrics)

      with_writer :
          Matches
            (initialize_handlers (record (initialize_adapters path a) {
              resource_publisher =
                  some (kafka a.config.messaging.kafka_brokers a.config.messaging.kafka_topic);
              resource_service = true;
            }))
            (note (new_writer a.config.messaging.kafka_brokers a.config.messaging.kafka_topic) p)
      with_writer redis = early.0.0 redis
      with_writer writer = refl
      with_writer (telemetry logs) = early.0.0 (telemetry logs)
      with_writer (telemetry traces) = early.0.0 (telemetry traces)
      with_writer (telemetry metrics) = early.0.0 (telemetry metrics)

  initialize_remote-Ready :
      (a : Application) (p : Process S)
      → Early cfg a p
      → Ends (Ready outside.handles cfg) Calm (initialize_remote outside path a p)
  unfolding initialize_remote
  initialize_remote-Ready a p early =
      Ends-and_then (λ _. Same p) (Ready outside.handles cfg) Calm _ _
        (Ends-wrap _ _ _ _ (
          Ends-weaken (λ _. Same p) _ (Same p) Calm _ (new_aws_clients-Same outside p p (λ r. refl))
            (λ _ q o. o) (λ q s. Early-Calm cfg a p q early s)))
        (λ _ p₁ s₁.
          Ends-and_then (Early cfg) (Ready outside.handles cfg) Calm _ _
            (Ends-wrap _ _ _ _ (
              load_runtime_config-Early outside path cfg (record a { aws_clients = true }) p₁
                (((λ r. s₁ r ∙ (early.0.0 r ∙ sym (aws_has a r))), early.0.1), early.1, early.2)))
            (λ a₂ p₂ e₂.
              Ends-and_then (Connected outside path cfg) (Ready outside.handles cfg) Calm _ _
                (Ends-wrap _ _ _ _ (initialize_redis-Connected outside path cfg a₂ p₂ e₂))
                (λ a₃ p₃ ((m, same), none_yet).
                  Ends-ok (Ready outside.handles cfg) Calm _ _
                    (finished-Ready _ _ p₃ (λ r. m r ∙ sym (remote_has path a₃ r none_yet)) same))))

  initialize_rest-Ready :
      (a : Application) (p : Process S)
      → Early cfg a p
      → Ends (Ready outside.handles cfg) Calm (initialize_rest outside path a p)
  initialize_rest-Ready a p early = elim (Bool-cases (is_local_mode a.config)) [
    | inl e ↦ rw e (Ends-ok (Ready outside.handles cfg) Calm _ _ (initialize_local-Ready a p early))
    | inr e ↦ rw e (initialize_remote-Ready a p early)
  ]

  -- New, in a process that holds nothing: the application that it returns has a server and is there
  -- to close exactly what is open; if New fails then neither Redis nor the writer is open; and it
  -- panics only at the patterns of its configuration.
  pub new_application-Ready :
      (p : Process S)
      → ((r : Held) → is_open r p.events ≡ false)
      → Ends (Ready outside.handles cfg) Calm (new_application outside path cfg p)
  unfolding new_application
  new_application-Ready p closed =
      Ends-and_then (Early cfg) (Ready outside.handles cfg) Calm _ _
        (with_logs-Early outside path cfg p closed)
        (λ a p₁ e₁.
          Ends-and_then (Early cfg) (Ready outside.handles cfg) Calm _ _
            (with_tracing-Early outside path cfg a _ e₁)
            (λ b p₂ e₂.
              Ends-and_then (Early cfg) (Ready outside.handles cfg) Calm _ _
                (Ends-wrap _ _ _ _ (initialize_metrics-Early outside path cfg b p₂ e₂))
                (λ c p₃ e₃. initialize_rest-Ready c p₃ e₃)))
