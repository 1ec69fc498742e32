-- ===== src/Bootstrap/Local.antt =====
-- Local mode.
use cloud_ops_manager.Common.{
  ◌≡◌, refl, String, Option, some, none, Bool, true, false, [], Result, all, null, Bool-cases, inl,
  inr, arith,
}
use cloud_ops_manager.Text.{Text}
use cloud_ops_manager.Config.{Config}
use cloud_ops_manager.Bootstrap.{
  metrics, Call, new_exporter, merge_resource, set_provider, new_writer, Outside, Process, perform,
}
use cloud_ops_manager.Bootstrap.Telemetry.{new_resource, new_metrics, attributes, TelemetryConfig}
use cloud_ops_manager.Bootstrap.Wiring.{
  Application, is_local_mode, initialize_metrics, initialize_kafka_resource_service,
  telemetry_config,
}
use cloud_ops_manager.Bootstrap.Start.{
  otlp_enabled, finished, with_logs, with_tracing, initialize_local, initialize_rest,
  new_application,
}
use cloud_ops_manager.Bootstrap.Release.Held.{
  Ends, Ends-and_then, Ends-wrap, Ends-ok, Ends-always, Ends-end,
}

-- The calls that need neither AWS nor Redis nor a Collector.
abbrev pub is_offline : Call → Bool
is_offline (new_exporter metrics) = true
is_offline (merge_resource attrs) = true
is_offline (set_provider metrics) = true
is_offline (new_writer brokers topic) = true
is_offline _ = false

module _ {S : Type 0} (outside : Outside S) (path : Text) where
  -- Nothing but such calls was made.
  abbrev pub Offline : Process S → Type 0
  Offline p = all (λ e. is_offline e.call) p.events ≡ true

  -- How a step of local mode ends.
  abbrev pub EndsOffline : {A : Type 0} → Result Text A × Process S → Type 0
  EndsOffline q = Ends (λ _. Offline) Offline q

  perform-Offline :
      (c : Call) (p : Process S)
      → is_offline c ≡ true
      → Offline p
      → EndsOffline (perform outside c p)
  perform-Offline c p k h = Ends-always Offline (perform outside c p) (rw k h)

  new_metrics-Offline :
      (c : TelemetryConfig) (p : Process S) → Offline p → EndsOffline (new_metrics outside c p)
  unfolding new_metrics new_resource
  new_metrics-Offline c p h =
      Ends-and_then (λ _. Offline) (λ _. Offline) Offline _ _
        (Ends-wrap _ _ _ _ (perform-Offline (new_exporter metrics) p refl h))
        (λ _ p₁ h₁.
          Ends-and_then (λ _. Offline) (λ _. Offline) Offline _ _
            (Ends-wrap _ _ _ _ (perform-Offline (merge_resource (attributes c)) p₁ refl h₁))
            (λ _ p₂ h₂. Ends-ok _ _ _ _ h₂))

  events-finished :
      (message : String) (o : Option Application) (p : Process S)
      → (finished outside path message o p).1.events ≡ p.events
  events-finished message none p = refl
  events-finished message (some a) p = refl

  initialize_local-Offline :
      (a : Application) (p : Process S) → Offline p → Offline (initialize_local outside path a p).1
  unfolding initialize_local initialize_kafka_resource_service
  initialize_local-Offline a p h = elim (Bool-cases (null a.config.messaging.kafka_brokers)) [
    | inl e ↦ rw e (rw (events-finished _ _ _) h)
    | inr e ↦ rw e (rw (events-finished _ _ _) h)
  ]

  abbrev Local : Application → Process S → Type 0
  Local a p = (is_local_mode a.config ≡ true) × Offline p

  not_enabled : (cfg : Config) → is_local_mode cfg ≡ true → otlp_enabled cfg ≡ false
  not_enabled cfg h = ground (arith, h)

  with_logs-Local :
      (cfg : Config) (p : Process S)
      → is_local_mode cfg ≡ true
      → Offline p
      → Ends Local Offline (with_logs outside path cfg p)
  with_logs-Local cfg p local h = rw (not_enabled cfg local) (Ends-ok Local Offline _ p (local, h))

  with_tracing-Local :
      (a : Application) (p : Process S)
      → Local a p
      → Ends Local Offline (with_tracing outside path a p)
  with_tracing-Local a p (local, h) =
      rw (not_enabled a.config local) (Ends-ok Local Offline a p (local, h))

  initialize_metrics-Local :
      (a : Application) (p : Process S)
      → Local a p
      → Ends Local Offline (initialize_metrics outside a p)
  unfolding initialize_metrics
  initialize_metrics-Local a p (local, h) =
      Ends-and_then (λ _. Offline) Local Offline _ _
        (new_metrics-Offline (telemetry_config a.config) p h)
        (λ _ q o. Ends-ok Local Offline _ _ (local, o))

  initialize_rest-Offline :
      (a : Application) (p : Process S) → Local a p → EndsOffline (initialize_rest outside path a p)
  initialize_rest-Offline a p (local, h) =
      rw local (Ends-ok (λ _. Offline) Offline _ _ (initialize_local-Offline a p h))

  -- In local mode New, in a process that has asked for nothing, asks for nothing that needs AWS,
  -- Redis or a Collector, whether or not it fails: of the libraries it uses the Prometheus
  -- exporter, the resource, the meter provider and the Kafka writer alone.
  pub local_mode-Offline :
      (cfg : Config) (p : Process S)
      → is_local_mode cfg ≡ true
      → p.events ≡ []
      → Offline (new_application outside path cfg p).1
  unfolding new_application
  local_mode-Offline cfg p local none_yet = Ends-end Offline _ (
      Ends-and_then Local (λ _. Offline) Offline _ _
        (with_logs-Local cfg p local (rw none_yet refl))
        (λ a p₁ l₁.
          Ends-and_then Local (λ _. Offline) Offline _ _ (with_tracing-Local a _ l₁)
            (λ b p₂ l₂.
              Ends-and_then Local (λ _. Offline) Offline _ _
                (Ends-wrap _ _ _ _ (initialize_metrics-Local b p₂ l₂)) initialize_rest-Offline)))
