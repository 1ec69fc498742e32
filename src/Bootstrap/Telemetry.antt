-- ===== src/Bootstrap/Telemetry.antt =====
-- services/api/internal/telemetry: logs.go, metrics.go, resource.go and tracing.go.
-- Of the options of a provider, the view of the metrics is kept.
use cloud_ops_manager.Common.{ℕ, String, List, [], ◌∷◌, ok, null, if◌then◌else◌}
use cloud_ops_manager.Text.{Text}
use cloud_ops_manager.Bootstrap.{
  Signal, logs, traces, metrics, new_exporter, merge_resource, set_provider, set_propagator,
  shutdown_provider, Outside, Step, and_then, wrap, note, perform,
}

-- LogsConfig, MetricsConfig and TracingConfig.
pub record TelemetryConfig : Type 0 where
  pub service_name : Text
  pub service_version : Text
  pub environment : Text

-- An empty version is left out.
abbrev pub version_attribute : Text → List (String × Text)
version_attribute v = if null v then [] else ("service.version", v) ∷ []

abbrev pub attributes : TelemetryConfig → List (String × Text)
attributes c =
    ("service.name", c.service_name)
    ∷ ("deployment.environment", c.environment)
    ∷ version_attribute c.service_version

-- requestDurationBuckets, in milliseconds.
abbrev pub request_duration_buckets : List ℕ
request_duration_buckets =
    5 ∷ 10 ∷ 25 ∷ 50 ∷ 75 ∷ 100 ∷ 250 ∷ 500 ∷ 750 ∷ 1000 ∷ 2500 ∷ 5000 ∷ 7500 ∷ 10000 ∷ []

-- metric.View: the boundaries of the instrument with a name.
pub record View : Type 0 where
  pub instrument : String
  pub boundaries : List ℕ

abbrev pub duration_view : View
duration_view = record {
  instrument = "http.server.request.duration";
  boundaries = request_duration_buckets;
}

-- Metrics: what its provider is made with.
pub record Metrics : Type 0 where
  pub attributes : List (String × Text)
  pub view : View

module _ {S : Type 0} (outside : Outside S) where
  unfoldable pub new_resource : TelemetryConfig → Step S Unit
  new_resource c p =
      wrap "building telemetry resource" (perform outside (merge_resource (attributes c)) p)

  -- NewLoggerProvider, or NewMeterProvider, and its registration as the global provider.
  unfoldable pub new_logs : TelemetryConfig → Step S Unit
  unfolding new_resource
  new_logs c p =
      and_then (wrap "creating otlp log exporter" (perform outside (new_exporter logs) p))
        (λ _ p₁. and_then (new_resource c p₁) (λ _ p₂. (ok tt, note (set_provider logs) p₂)))

  unfoldable pub new_metrics : TelemetryConfig → Step S Metrics
  unfolding new_resource
  new_metrics c p =
      and_then (wrap "creating prometheus exporter" (perform outside (new_exporter metrics) p))
        (λ _ p₁. and_then (new_resource c p₁) (λ _ p₂. (
          ok (record { attributes = attributes c; view = duration_view }),
          note (set_provider metrics) p₂,
        )))

  unfoldable pub new_tracing : TelemetryConfig → Step S Unit
  unfolding new_resource
  new_tracing c p =
      and_then (wrap "creating otlp trace exporter" (perform outside (new_exporter traces) p))
        (λ _ p₁.
          and_then (new_resource c p₁)
            (λ _ p₂. (ok tt, note set_propagator (note (set_provider traces) p₂))))

  -- Shutdown of Logs, Metrics and Tracing.
  unfoldable pub shutdown : Signal → Step S Unit
  shutdown s p = perform outside (shutdown_provider s) p
