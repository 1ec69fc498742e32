-- ===== src/Bootstrap/Start.antt =====
-- New of services/api/internal/bootstrap/application.go.
use cloud_ops_manager.Common.{
  String, Bool, Option, some, none, true, not, ◌&&◌, [], ◌∷◌, ok, if◌then◌else◌,
}
use cloud_ops_manager.Text.{Text}
use cloud_ops_manager.Logging.{text, name, field, info, warn}
use cloud_ops_manager.Config.{Config}
use cloud_ops_manager.Bootstrap.{Outside, Process, Step, and_then, wrap, log}
use cloud_ops_manager.Bootstrap.Infrastructure.{new_aws_clients}
use cloud_ops_manager.Bootstrap.Telemetry.{new_logs, new_tracing}
use cloud_ops_manager.Bootstrap.Wiring.{
  Application, blank, is_local_mode, telemetry_config, initialize_adapters, initialize_services,
  initialize_handlers, initialize_server, initialize_kafka_resource_service, initialize_metrics,
  initialize_redis, load_runtime_config,
}

-- otlpEnabled
abbrev pub otlp_enabled : Config → Bool
otlp_enabled cfg = cfg.app.enable_tracing && not (is_local_mode cfg)

abbrev pub local_mode_message : String
local_mode_message =
    "Running in LOCAL mode: AWS, Parameter Store, and Cognito are disabled; queue transport is Kafka"

module _ {S : Type 0} (outside : Outside S) (path : Text) where
  abbrev pub with_logs : Config → Step S Application
  with_logs cfg p =
      if otlp_enabled cfg
      then wrap "failed to initialize logs pipeline" (
          and_then (new_logs outside (telemetry_config cfg) p)
            (λ _ p₁. (ok (record (blank cfg) { logs = true }), p₁)))
      else (ok (blank cfg), p)

  abbrev pub with_tracing : Application → Step S Application
  with_tracing a p =
      if otlp_enabled a.config
      then and_then
          (wrap "failed to initialize tracing" (new_tracing outside (telemetry_config a.config) p))
          (λ _ p₁. (
            ok (record a { tracing = true }),
            log info "OpenTelemetry tracing initialized (OTLP exporter)" [] p₁,
          ))
      else (ok a, p)

  -- New behind initializeServer. A panic there ends it without an application and without an error.
  abbrev pub finished : String → Option Application → Process S → Option Application × Process S
  finished message none p = (none, p)
  finished message (some a) p = (some a, log info message [] p)

  unfoldable pub initialize_local : Application → Process S → Option Application × Process S
  unfolding initialize_kafka_resource_service initialize_server
  initialize_local a p =
      let p₁ =
        log warn local_mode_message
          (field "functional_endpoints" (name "/v1/provision, /metrics, /v1/health, /v1/swagger")
            ∷ [])
          p in
      let (b, p₂) = initialize_kafka_resource_service (initialize_adapters path a) p₁ in
      finished "Application initialized successfully (local mode)"
        (initialize_server outside.handles (initialize_handlers b)) p₂

  -- What New does outside local mode, behind the metrics.
  unfoldable pub initialize_remote : Application → Step S (Option Application)
  unfolding initialize_redis load_runtime_config new_aws_clients initialize_server
  initialize_remote a p =
      and_then (wrap "failed to initialize AWS clients" (new_aws_clients outside p)) (λ _ p₁.
        and_then
          (wrap "failed to load runtime configuration"
            (load_runtime_config outside (record a { aws_clients = true }) p₁))
          (λ a₂ p₂.
            and_then (wrap "failed to initialize Redis" (initialize_redis outside a₂ p₂)) (λ a₃ p₃.
              let (o, p₄) =
                finished "Application initialized successfully"
                  (initialize_server outside.handles
                    (initialize_handlers (initialize_services (initialize_adapters path a₃))))
                  p₃ in
              (ok o, p₄))))

  abbrev pub initialize_rest : Application → Step S (Option Application)
  initialize_rest a p =
      if is_local_mode a.config
      then (let (b, p₁) = initialize_local a p in (ok b, p₁))
      else initialize_remote a p

  unfoldable pub new_application : Config → Step S (Option Application)
  unfolding initialize_local initialize_remote initialize_metrics
  new_application cfg p = and_then (with_logs cfg p) (λ a p₁.
      and_then
        (with_tracing a (
          log info "Initializing application"
            (field "environment" (text cfg.app.environment)
              ∷ field "service" (text cfg.app.service_name)
              ∷ [])
            p₁))
        (λ b p₂.
          and_then (wrap "failed to initialize metrics" (initialize_metrics outside b p₂))
            initialize_rest))
