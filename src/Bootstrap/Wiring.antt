-- ===== src/Bootstrap/Wiring.antt =====
-- services/api/internal/bootstrap/application.go: the application and the parts that New puts
-- together. A pointer that may be nil is a Boolean where nothing but nil is asked of it. What the
-- constructors of handlers and services keep is not modelled: they cannot fail.
use cloud_ops_manager.Common.{
  Bool, true, false, not, ◌&&◌, Option, some, none, List, [], ◌∷◌, ◌++◌, ok, null, if◌then◌else◌,
}
use cloud_ops_manager.Text.{Text, codes, text_eq}
use cloud_ops_manager.Logging.{text, texts, field, info, warn}
use cloud_ops_manager.Config.{Config, Signed}
use cloud_ops_manager.Bootstrap.{new_writer, Outside, Process, Step, and_then, wrap, note, log}
use cloud_ops_manager.Bootstrap.Infrastructure.{get_parameter, new_redis}
use cloud_ops_manager.Bootstrap.Telemetry.{TelemetryConfig, new_metrics}

-- What the resource service publishes through.
pub data Publisher : Type 0 where
  sqs : Text → Publisher
  kafka : List Text → Text → Publisher

-- What the server's handler is made of: the fields of RouterConfig, and the prefix under which the
-- routes are served a second time, with what is stripped of it, where requests are traced.
pub record Handling : Type 0 where
  pub allowed_origins : List Text
  pub idempotency_store : Bool
  pub idempotency_ttl : Signed
  pub prefix : Option (Text × Text)

-- server.Config with the address and the handler of http.Server.
pub record Server : Type 0 where
  pub addr : Text
  pub handler : Handling
  pub port : Text
  pub read_timeout : Signed
  pub write_timeout : Signed
  pub idle_timeout : Signed
  pub shutdown_timeout : Signed

pub record Application : Type 0 where
  pub config : Config
  pub aws_clients : Bool
  pub metrics : Bool
  pub tracing : Bool
  pub logs : Bool
  pub provisioner_queue_url : Text
  pub cognito_client_id : Text
  pub redis_addr : Text
  pub redis_client : Bool
  pub resource_publisher : Option Publisher
  pub resource_service : Bool
  pub auth_service : Bool
  pub swagger_path : Option Text
  pub handlers : Bool
  pub server : Option Server

-- &Application{Config: cfg}
abbrev pub blank : Config → Application
blank cfg = record {
  config = cfg;
  aws_clients = false;
  metrics = false;
  tracing = false;
  logs = false;
  provisioner_queue_url = [];
  cognito_client_id = [];
  redis_addr = [];
  redis_client = false;
  resource_publisher = none;
  resource_service = false;
  auth_service = false;
  swagger_path = none;
  handlers = false;
  server = none;
}

-- Options of New.
pub record Options : Type 0 where
  pub swagger_path : Text

abbrev pub default_options : Options
default_options = record { swagger_path = codes "./docs/swagger.yaml" }

unfoldable pub is_local_mode : Config → Bool
is_local_mode c = text_eq c.app.environment (codes "local")

abbrev pub telemetry_config : Config → TelemetryConfig
telemetry_config c = record {
  service_name = c.app.service_name;
  service_version = c.app.version;
  environment = c.app.environment;
}

abbrev pub initialize_adapters : Text → Application → Application
initialize_adapters path a = record a { swagger_path = some path }

abbrev pub initialize_services : Application → Application
initialize_services a = record a {
  resource_publisher = some (sqs a.provisioner_queue_url);
  resource_service = true;
  auth_service = true;
}

abbrev pub initialize_handlers : Application → Application
initialize_handlers a = record a { handlers = true }

-- "/<environment>/", and "/<environment>".
abbrev pub prefix_of : Config → Text × Text
prefix_of c = (codes "/" ++ (c.app.environment ++ codes "/"), codes "/" ++ c.app.environment)

-- The patterns of the ServeMux in front of the router.
abbrev pub patterns_of : Config → List Text
patterns_of c = (prefix_of c).0 ∷ codes "/" ∷ []

-- Whether requests are traced, and so go through that ServeMux.
abbrev pub is_traced : Config → Bool
is_traced c = c.app.enable_tracing && not (is_local_mode c)

-- Whether the ServeMux panics at its patterns.
unfoldable pub mux_panics : (List Text → Bool) → Config → Bool
unfolding is_local_mode
mux_panics handles c = is_traced c && not (handles (patterns_of c))

-- The application with its server.
unfoldable pub served : Application → Application
unfolding is_local_mode
served a = record a {
  server = some (record {
    addr = codes ":" ++ a.config.server.port;
    handler = record {
      allowed_origins = a.config.app.allowed_origins;
      idempotency_store = a.redis_client;
      idempotency_ttl = a.config.idempotency.ttl;
      prefix = if is_traced a.config then some (prefix_of a.config) else none;
    };
    port = a.config.server.port;
    read_timeout = a.config.server.read_timeout;
    write_timeout = a.config.server.write_timeout;
    idle_timeout = a.config.server.idle_timeout;
    shutdown_timeout = a.config.server.shutdown_timeout;
  });
}

-- `none` is a panic of the ServeMux.
unfoldable pub initialize_server : (List Text → Bool) → Application → Option Application
unfolding mux_panics served
initialize_server handles a = if mux_panics handles a.config then none else some (served a)

module _ {S : Type 0} where
  unfoldable pub initialize_kafka_resource_service :
      Application → Process S → Application × Process S
  initialize_kafka_resource_service a p =
      let brokers = a.config.messaging.kafka_brokers in
      let topic = a.config.messaging.kafka_topic in
      if null brokers
      then (a, log warn "Resource publishing disabled: KAFKA_BROKERS not set in local mode" [] p)
      else (
        record a { resource_publisher = some (kafka brokers topic); resource_service = true },
        log info "Resource service enabled (kafka, local mode)"
            (field "brokers" (texts brokers) ∷ field "topic" (text topic) ∷ [])
            (note (new_writer brokers topic) p),
      )

module _ {S : Type 0} (outside : Outside S) where
  unfoldable pub initialize_metrics : Application → Step S Application
  unfolding new_metrics
  initialize_metrics a p = and_then (new_metrics outside (telemetry_config a.config) p) (λ _ p₁. (
    ok (record a { metrics = true }),
    log info "OpenTelemetry metrics provider initialized (prometheus exporter)" [] p₁,
  ))

  -- The store is there exactly if the client is.
  unfoldable pub initialize_redis : Application → Step S Application
  initialize_redis a p =
      if null a.redis_addr
      then (ok a, log warn "Redis address not configured; idempotency layer disabled" [] p)
      else and_then (new_redis outside a.redis_addr p) (λ _ p₁.
        (ok (record a { redis_client = true }), log info "Idempotency layer enabled (redis)" [] p₁))

  -- REDIS_ADDR wins over the parameter.
  abbrev pub redis_address : Application → Step S Text
  redis_address a p =
      if not (null a.config.idempotency.redis_addr)
      then (ok a.config.idempotency.redis_addr, p)
      else if not (null a.config.aws.redis_addr_param_key)
      then wrap "failed to get Redis address"
          (get_parameter outside a.config.aws.redis_addr_param_key p)
      else (ok [], p)

  abbrev pub log_redis_address : Text → Process S → Process S
  log_redis_address addr p =
      if null addr
      then p
      else log info "Loaded Redis address" (field "redis_addr" (text addr) ∷ []) p

  unfoldable pub load_runtime_config : Application → Step S Application
  load_runtime_config a p =
      and_then
        (wrap "failed to get provisioner queue URL"
          (get_parameter outside a.config.aws.provisioner_queue_param_key p))
        (λ url p₁.
          and_then
            (wrap "failed to get Cognito client ID" (
              get_parameter outside a.config.aws.cognito_client_id_param_key
                (log info "Loaded provisioner queue URL" (field "queue_url" (text url) ∷ []) p₁)))
            (λ id p₂.
              and_then
                (redis_address a
                  (log info "Loaded Cognito client ID" (field "client_id" (text id) ∷ []) p₂))
                (λ addr p₃. (
                  ok (record a {
                    provisioner_queue_url = url;
                    cognito_client_id = id;
                    redis_addr = addr;
                  }),
                  log_redis_address addr p₃,
                ))))
