-- ===== src/Bootstrap/Server.antt =====
-- services/api/internal/server/server.go, Run and Shutdown of
-- services/api/internal/bootstrap/application.go, and services/api/cmd/server/main.go. What wakes
-- Start is an argument; the goroutine that serves has written its line by then.
use cloud_ops_manager.Common.{
  ℕ, String, Bool, true, false, Option, some, none, [], ◌∷◌, ◌++◌, Result, ok, err, if◌then◌else◌,
}
use cloud_ops_manager.Text.{Text, codes}
use cloud_ops_manager.Logging.{text, name, field, info, warn, error, fatal}
use cloud_ops_manager.Config.{Config, Environment, Signed, seconds, new_config, validate}
use cloud_ops_manager.Bootstrap.{
  logs, traces, metrics, close_redis, close_writer, listen, shutdown_server, Outside, Process, Step,
  log, perform,
}
use cloud_ops_manager.Bootstrap.Telemetry.{shutdown}
use cloud_ops_manager.Bootstrap.Wiring.{Application, Publisher, sqs, kafka, Server, default_options}
use cloud_ops_manager.Bootstrap.Start.{new_application}

-- What the select of Start receives: an error of ListenAndServe, a signal, or the end of the
-- context.
pub data Wake : Type 0 where
  server_error : Text → Wake
  interrupted : Text → Wake
  cancelled : Wake

pub record ServerTimes : Type 0 where
  pub port : Text
  pub read_timeout : Signed
  pub write_timeout : Signed
  pub idle_timeout : Signed
  pub shutdown_timeout : Signed

-- DefaultConfig of server.go
abbrev pub default_config : ServerTimes
default_config = record {
  port = codes "8080";
  read_timeout = seconds 15;
  write_timeout = seconds 15;
  idle_timeout = seconds 60;
  shutdown_timeout = seconds 30;
}

-- The publisher of Kafka is an io.Closer, that of SQS is not.
abbrev pub is_closer : Option Publisher → Bool
is_closer none = false
is_closer (some (sqs url)) = false
is_closer (some (kafka brokers topic)) = true

-- Addr
abbrev pub addr : Server → Text
addr s = s.addr

module _ {S : Type 0} (outside : Outside S) where
  abbrev pub server_stopped : Result Text Unit × Process S → Result Text Unit × Process S
  server_stopped (err e, p) = (
    err (codes "server shutdown error: " ++ e),
    log error "Server forced to shutdown" (field "error" (text e) ∷ []) p,
  )
  server_stopped (ok _, p) = (ok tt, log info "Server stopped gracefully" [] p)

  unfoldable pub stop_server : Step S Unit
  stop_server p =
      server_stopped
        (perform outside shutdown_server (log info "Initiating graceful shutdown" [] p))

  unfoldable pub start_server : Server → Wake → Step S Unit
  unfolding stop_server
  start_server s (server_error e) p = (
    err (codes "server error: " ++ e),
    log info "Starting HTTP server" (field "port" (text s.port) ∷ []) p,
  )
  start_server s (interrupted signal) p = stop_server (
      log info "Received shutdown signal" (field "signal" (text signal) ∷ [])
        (log info "Starting HTTP server" (field "port" (text s.port) ∷ []) p))
  start_server s cancelled p = stop_server (
      log info "Context cancelled" []
        (log info "Starting HTTP server" (field "port" (text s.port) ∷ []) p))

  -- ListenAndServe, for a caller that stops the server itself.
  unfoldable pub listen_and_serve : Server → Step S Unit
  listen_and_serve s p =
      perform outside listen (log info "Starting HTTP server" (field "port" (text s.port) ∷ []) p)

  unfoldable pub run : Application → Server → Wake → Step S Unit
  unfolding start_server
  run a s wake p = start_server s wake (
      log info "Starting application"
        (field "port" (text a.config.server.port)
          ∷ field "environment" (text a.config.app.environment)
          ∷ [])
        p)

  -- A part that is there is closed, and an error of that is a warning.
  abbrev pub warned : String → Result Text Unit × Process S → Process S
  warned message (ok _, p) = p
  warned message (err e, p) = log warn message (field "error" (text e) ∷ []) p

  unfoldable pub close : Bool → Step S Unit → String → Process S → Process S
  close there ending message p = if there then warned message (ending p) else p

  unfoldable pub shutdown_application : Application → Step S Unit
  unfolding close shutdown
  shutdown_application a p = (
    ok tt,
    close a.logs (shutdown outside logs) "Failed to shut down logs provider" (
        close a.tracing (shutdown outside traces) "Failed to shut down tracing provider" (
          close a.metrics (shutdown outside metrics) "Failed to shut down metrics provider" (
            close (is_closer a.resource_publisher) (perform outside close_writer)
              "Failed to close resource publisher"
              (close a.redis_client (perform outside close_redis) "Failed to close Redis client"
                (log info "Shutting down application" [] p))))),
  )

  -- What main does after Shutdown: `code` is the status that it would exit with.
  abbrev pub exits : ℕ → Result Text Unit × Process S → ℕ × Process S
  exits code (ok _, p) = (code, p)
  exits code (err e, p) = (1, log error "Shutdown error" (field "error" (text e) ∷ []) p)

  -- What main does after Run.
  abbrev pub ran : Application → Result Text Unit × Process S → ℕ × Process S
  ran a (ok _, p) = exits 0 (shutdown_application a p)
  ran a (err e, p) =
      exits 1
        (shutdown_application a (log error "Application error" (field "error" (text e) ∷ []) p))

  -- Without a server, Run would dereference nil, and the runtime exits with 2.
  abbrev pub serve : Application → Option Server → Wake → Process S → ℕ × Process S
  serve a none wake p = (2, p)
  serve a (some s) wake p = ran a (run a s wake p)

  -- What main does after New. Fatal writes its entry and exits with 1; after a panic the runtime
  -- exits with 2.
  abbrev pub initialized : Wake → Result Text (Option Application) × Process S → ℕ × Process S
  initialized wake (err e, p) =
      (1, log fatal "Failed to initialize application" (field "error" (text e) ∷ []) p)
  initialized wake (ok none, p) = (2, p)
  initialized wake (ok (some a), p) = serve a a.server wake p

  abbrev pub validated : Config → Wake → Result String Unit → Process S → ℕ × Process S
  validated cfg wake (err e) p =
      (1, log fatal "Configuration validation failed" (field "error" (name e) ∷ []) p)
  validated cfg wake (ok _) p =
      initialized wake (new_application outside default_options.swagger_path cfg p)

  unfoldable pub main : Environment → Wake → Process S → ℕ × Process S
  unfolding new_config validate new_application run shutdown_application
  main environment wake p =
      let cfg = new_config environment [] in validated cfg wake (validate cfg) p
