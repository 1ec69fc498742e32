-- ===== src/Config.antt =====
-- services/api/internal/config/config.go, whose splitting of lists is that of splitBrokers of
-- services/provisioner/cmd/consumer/main.go written out. os.Getenv, time.ParseDuration,
-- strconv.Atoi and strconv.ParseBool are arguments.
pub mod Split
pub mod Lists
pub mod Validity
mod Tests
use cloud_ops_manager.Common.{
  ℕ, ◌*◌, String, Bool, true, false, ◌||◌, Option, some, none, List, [], ◌∷◌, Result, ok, err, map,
  ◌==◌, null, if◌then◌else◌,
}
use cloud_ops_manager.Text.{Text, codes}
use cloud_ops_manager.Text.Trim.{trim}
use cloud_ops_manager.Config.Split.{split_string}

-- A signed number, as a Go int or int32, or a time.Duration in nanoseconds.
pub data Signed : Type 0 where
  plus : ℕ → Signed
  minus : ℕ → Signed

abbrev pub seconds : ℕ → Signed
seconds n = plus (n * 1000000000)

-- The environment of the process, where a variable that is not set reads as empty, and the
-- parsers of package time and package strconv.
pub record Environment : Type 0 where
  pub getenv : String → Text
  pub parse_duration : Text → Option Signed
  pub atoi : Text → Option Signed
  pub parse_bool : Text → Option Bool

pub record MessagingConfig : Type 0 where
  pub kafka_brokers : List Text
  pub kafka_topic : Text

pub record ServerConfig : Type 0 where
  pub port : Text
  pub read_timeout : Signed
  pub write_timeout : Signed
  pub idle_timeout : Signed
  pub shutdown_timeout : Signed

pub record AwsConfig : Type 0 where
  pub region : Text
  pub provisioner_queue_param_key : Text
  pub cognito_client_id_param_key : Text
  pub redis_addr_param_key : Text

pub record IdempotencyConfig : Type 0 where
  pub redis_addr : Text
  pub redis_password : Text
  pub redis_db : Signed
  pub ttl : Signed
  pub dial_timeout : Signed
  pub read_timeout : Signed
  pub write_timeout : Signed

pub record AppConfig : Type 0 where
  pub environment : Text
  pub log_level : Text
  pub allowed_origins : List Text
  pub enable_tracing : Bool
  pub service_name : Text
  pub version : Text

pub record Config : Type 0 where
  pub server : ServerConfig
  pub aws : AwsConfig
  pub app : AppConfig
  pub idempotency : IdempotencyConfig
  pub messaging : MessagingConfig

-- trimSpace: spaces, tabs, and ends of lines.
abbrev pub is_blank : ℕ → Bool
is_blank c = c == 32 || c == 9 || c == 10 || c == 13

unfoldable pub trim_space : Text → Text
trim_space s = trim is_blank s

abbrev pub not_empty : List Text → List Text
not_empty [] = []
not_empty (p ∷ ps) = if null p then not_empty ps else p ∷ not_empty ps

unfoldable pub split_and_trim : Text → Text → List Text
unfolding trim_space
split_and_trim s sep = not_empty (map trim_space (split_string s sep))

abbrev pub get_or : {A : Type 0} → A → Option A → A
get_or default none = default
get_or default (some a) = a

module _ (env : Environment) where
  unfoldable pub get_env_or_default : String → String → Text
  get_env_or_default key default =
      let value = env.getenv key in if null value then codes default else value

  unfoldable pub get_duration_env : String → Signed → Signed
  get_duration_env key default =
      let value = env.getenv key in
      if null value then default else get_or default (env.parse_duration value)

  unfoldable pub get_int_env : String → Signed → Signed
  get_int_env key default =
      let value = env.getenv key in if null value then default else get_or default (env.atoi value)

  unfoldable pub get_bool_env : String → Bool → Bool
  get_bool_env key default =
      let value = env.getenv key in
      if null value then default else get_or default (env.parse_bool value)

  unfoldable pub get_slice_env : String → List Text → List Text
  get_slice_env key default =
      let value = env.getenv key in if null value then default else split_and_trim value (codes ",")

  abbrev pub apply : List (Config → Config) → Config → Config
  apply [] c = c
  apply (o ∷ os) c = apply os (o c)

  abbrev pub defaults : Config
  defaults = record {
    server = record {
      port = get_env_or_default "PORT" "8080";
      read_timeout = get_duration_env "SERVER_READ_TIMEOUT" (seconds 15);
      write_timeout = get_duration_env "SERVER_WRITE_TIMEOUT" (seconds 15);
      idle_timeout = get_duration_env "SERVER_IDLE_TIMEOUT" (seconds 60);
      shutdown_timeout = get_duration_env "SERVER_SHUTDOWN_TIMEOUT" (seconds 30);
    };
    aws = record {
      region = get_env_or_default "AWS_REGION" "us-east-1";
      provisioner_queue_param_key =
          get_env_or_default "PROVISIONER_QUEUE_PARAM_KEY"
            "/INTERNAL_DEVELOPER_PLATFORM/PROVISIONER_QUEUE_URL";
      cognito_client_id_param_key =
          get_env_or_default "COGNITO_CLIENT_ID_PARAM_KEY"
            "/INTERNAL_DEVELOPER_PLATFORM/COGNITO_CLIENT_ID";
      redis_addr_param_key =
          get_env_or_default "REDIS_ADDR_PARAM_KEY" "/INTERNAL_DEVELOPER_PLATFORM/REDIS_ADDR";
    };
    app = record {
      environment = get_env_or_default "ENVIRONMENT" "dev";
      log_level = get_env_or_default "LOG_LEVEL" "info";
      allowed_origins = get_slice_env "ALLOWED_ORIGINS" (codes "*" ∷ []);
      enable_tracing = get_bool_env "ENABLE_TRACING" true;
      service_name = get_env_or_default "SERVICE_NAME" "internal-developer-platform.api";
      version = get_env_or_default "SERVICE_VERSION" "";
    };
    messaging = record {
      kafka_brokers = get_slice_env "KAFKA_BROKERS" [];
      kafka_topic = get_env_or_default "KAFKA_TOPIC" "resource-provisioning";
    };
    idempotency = record {
      redis_addr = get_env_or_default "REDIS_ADDR" "";
      redis_password = get_env_or_default "REDIS_PASSWORD" "";
      redis_db = get_int_env "REDIS_DB" (plus 0);
      ttl = get_duration_env "IDEMPOTENCY_TTL" (seconds (24 * 3600));
      dial_timeout = get_duration_env "REDIS_DIAL_TIMEOUT" (seconds 2);
      read_timeout = get_duration_env "REDIS_READ_TIMEOUT" (seconds 1);
      write_timeout = get_duration_env "REDIS_WRITE_TIMEOUT" (seconds 1);
    };
  }

  -- NewConfig, with its options in order.
  unfoldable pub new_config : List (Config → Config) → Config
  new_config opts = apply opts defaults

-- Validate: the first value that is missing.
unfoldable pub validate : Config → Result String Unit
validate c =
    if null c.server.port
    then err "missing required configuration: server port"
    else if null c.aws.provisioner_queue_param_key
    then err "missing required configuration: provisioner queue param key"
    else if null c.aws.cognito_client_id_param_key
    then err "missing required configuration: cognito client id param key"
    else ok tt

unfoldable pub with_port : Text → Config → Config
with_port port c = record c { server = record c.server { port = port } }

unfoldable pub with_environment : Text → Config → Config
with_environment env c = record c { app = record c.app { environment = env } }

unfoldable pub with_log_level : Text → Config → Config
with_log_level level c = record c { app = record c.app { log_level = level } }
