-- ===== src/Bootstrap/Release/Closing.antt =====
-- What is open after Shutdown, and at the end of the process.
use cloud_ops_manager.Common.{
  ℕ, String, ◌≡◌, ◌⊎◌, refl, ◌∙◌, Bool, true, false, ◌&&◌, Option, some, none, [], ◌∷◌, Result, ok,
  err, if◌then◌else◌, Bool-cases, inl, inr, arith,
}
use cloud_ops_manager.Text.{Text, codes}
use cloud_ops_manager.Logging.{text, field, error, info}
use cloud_ops_manager.Config.{Config, Environment, new_config, validate}
use cloud_ops_manager.Bootstrap.{
  logs, traces, metrics, Call, close_redis, close_writer, shutdown_provider, shutdown_server,
  Outside, Process, log, perform, is_some, is_done,
}
use cloud_ops_manager.Bootstrap.Telemetry.{shutdown}
use cloud_ops_manager.Bootstrap.Wiring.{Application, Server, mux_panics}
use cloud_ops_manager.Bootstrap.Start.{new_application}
use cloud_ops_manager.Bootstrap.Server.{
  Wake, server_error, interrupted, cancelled, is_closer, close, warned, shutdown_application,
  stop_server, server_stopped, start_server, run, ran, serve, initialized, validated, main,
}
use cloud_ops_manager.Bootstrap.Release.Held.{
  Held, redis, writer, telemetry, held_eq, is_open, has, opened_by, closed_by, Matches, Same, Ends,
}
use cloud_ops_manager.Bootstrap.Release.Started.{Calm, Ready}
use cloud_ops_manager.Bootstrap.Release.Whole.{new_application-Ready}

and_true : (b : Bool) → (b && true) ≡ b
and_true true = refl
and_true false = refl

and_false : (b : Bool) → (b && false) ≡ false
and_false true = refl
and_false false = refl

closed_lem : (b : Bool) → (if b then false else b) ≡ false
closed_lem true = refl
closed_lem false = refl

-- What is left open when the five parts are closed.
each_closed :
    (a : Application) (r : Held)
    → (if held_eq (telemetry logs) r && a.logs
        then false
        else if held_eq (telemetry traces) r && a.tracing
        then false
        else if held_eq (telemetry metrics) r && a.metrics
        then false
        else if held_eq writer r && is_closer a.resource_publisher
        then false
        else if held_eq redis r && a.redis_client
        then false
        else has r a)
      ≡ false
each_closed a redis = closed_lem a.redis_client
each_closed a writer = closed_lem (is_closer a.resource_publisher)
each_closed a (telemetry logs) = closed_lem a.logs
each_closed a (telemetry traces) = closed_lem a.tracing
each_closed a (telemetry metrics) = closed_lem a.metrics

module _ {S : Type 0} where
  -- Nothing of what can be closed is open.
  abbrev pub AllClosed : Process S → Type 0
  AllClosed p = (r : Held) → is_open r p.events ≡ false

  -- What a process ends with, where `started` says that New did not fail, and `panics` that the
  -- ServeMux panics at the patterns of the configuration.
  abbrev pub Ended : Bool → Bool → ℕ × Process S → Type 0
  Ended panics started (code, end) =
      (Calm end × ((code ≡ 0) ⊎ (code ≡ 1)) × (AllClosed end ⊎ ((started ≡ false) × (code ≡ 1))))
      ⊎ ((code ≡ 2) × (panics ≡ true))

module _ {S : Type 0} (outside : Outside S) where
  events-warned :
      (message : String) (q : Result Text Unit × Process S)
      → (warned outside message q).events ≡ q.1.events
  events-warned message (ok u, p) = refl
  events-warned message (err e, p) = refl

  open-close :
      (there : Bool) (c : Call) (h : Held) (message : String) (p : Process S) (r : Held)
      → opened_by c ≡ none
      → closed_by c ≡ some h
      → is_open r (close outside there (perform outside c) message p).events
        ≡ (if held_eq h r && there then false else is_open r p.events)
  unfolding close
  open-close true c h message p r o k =
      rw (events-warned message (perform outside c p))
        (rw o (rw k (rw (and_true (held_eq h r)) refl)))
  open-close false c h message p r o k = rw (and_false (held_eq h r)) refl

  -- Shutdown closes whatever the application is there to close, each failure of that
  -- notwithstanding, and does not fail.
  pub shutdown_application-AllClosed :
      (a : Application) (p : Process S)
      → Matches a p
      → (AllClosed (shutdown_application outside a p).1)
        × ((shutdown_application outside a p).0 ≡ ok tt)
  unfolding shutdown_application shutdown
  shutdown_application-AllClosed a p m = (all_closed, refl)
    where
      all_closed : AllClosed (shutdown_application outside a p).1
      all_closed r =
          rw (open-close a.logs (shutdown_provider logs) (telemetry logs) _ _ r refl refl) (
            rw (open-close a.tracing (shutdown_provider traces) (telemetry traces) _ _ r refl refl)
              (rw
                (open-close a.metrics (shutdown_provider metrics) (telemetry metrics) _ _ r refl
                  refl)
                (rw
                  (open-close (is_closer a.resource_publisher) close_writer writer _ _ r refl refl)
                  (rw (open-close a.redis_client close_redis redis _ _ r refl refl)
                    (rw (m r) (each_closed a r))))))

  -- A process whose application is there to close what is open.
  ran-AllClosed :
      (a : Application) (q : Result Text Unit × Process S)
      → Matches a q.1
      → AllClosed (ran outside a q).1 × ((ran outside a q).0 ≡ (if is_done q.0 then 0 else 1))
  unfolding shutdown_application
  ran-AllClosed a (ok u, p) m = ((shutdown_application-AllClosed a p m).0, refl)
  ran-AllClosed a (err e, p) m = (
    (shutdown_application-AllClosed a
        (log error "Application error" (field "error" (text e) ∷ []) p) m).0,
    refl,
  )

  stop_server-Same : (p : Process S) → Same p (stop_server outside p).1
  unfolding stop_server
  stop_server-Same p =
      go (perform outside shutdown_server (log info "Initiating graceful shutdown" [] p))
        (λ r. refl)
    where
      go : (q : Result Text Unit × Process S) → Same p q.1 → Same p (server_stopped outside q).1
      go (ok u, q) h = h
      go (err e, q) h = h

  run-Same :
      (a : Application) (s : Server) (wake : Wake) (p : Process S)
      → Same p (run outside a s wake p).1
  unfolding run start_server
  run-Same a s (server_error e) p = λ r. refl
  run-Same a s (interrupted signal) p = stop_server-Same _
  run-Same a s cancelled p = stop_server-Same _

  AllClosed-Ended :
      (panics started : Bool) (q : ℕ × Process S)
      → AllClosed q.1
      → (q.0 ≡ 0) ⊎ (q.0 ≡ 1)
      → Ended panics started q
  AllClosed-Ended panics started q h code = inl ((h redis, h writer), code, inl h)

  serve-Ended :
      (panics : Bool) (a : Application) (s : Option Server) (wake : Wake) (p : Process S)
      → Matches a p
      → is_some s ≡ true
      → Ended panics true (serve outside a s wake p)
  serve-Ended panics a none wake p m h = absurd (ground arith)
  serve-Ended panics a (some s) wake p m h =
      let (closed, code) =
        ran-AllClosed a (run outside a s wake p) (λ r. run-Same a s wake p r ∙ m r) in
      AllClosed-Ended panics true (ran outside a (run outside a s wake p)) closed
        (elim (Bool-cases (is_done (run outside a s wake p).0)) [
          | inl e ↦ inl (rw code (rw e refl))
          | inr e ↦ inr (rw code (rw e refl))
        ])

  initialized-Ended :
      (cfg : Config) (wake : Wake) (q : Result Text (Option Application) × Process S)
      → Ends (Ready outside.handles cfg) Calm q
      → Ended (mux_panics outside.handles cfg) (is_done q.0) (initialized outside wake q)
  unfolding Ends
  initialized-Ended cfg wake (err e, p) calm = inl (calm, inr refl, inr (refl, refl))
  initialized-Ended cfg wake (ok none, p) panicked = inr (refl, panicked)
  initialized-Ended cfg wake (ok (some a), p) (m, there) =
      serve-Ended (mux_panics outside.handles cfg) a a.server wake p m there

  validated-Ended :
      (cfg : Config) (wake : Wake) (v : Result String Unit) (p : Process S)
      → AllClosed p
      → let started = is_done (new_application outside (codes "./docs/swagger.yaml") cfg p).0 in
        Ended (mux_panics outside.handles cfg) started (validated outside cfg wake v p)
  validated-Ended cfg wake (err e) p closed =
      AllClosed-Ended (mux_panics outside.handles cfg) _ (1, p) closed (inr refl)
  validated-Ended cfg wake (ok u) p closed =
      initialized-Ended cfg wake _
        (new_application-Ready outside (codes "./docs/swagger.yaml") cfg p closed)

  -- The API process, begun with nothing open, whatever the environment is, the libraries answer and
  -- wakes the server. Either its exit status is 0 or 1, and Redis and the Kafka writer are closed
  -- when it ends; the telemetry is closed too, and so everything that was opened, unless New fails,
  -- where the status is 1. Or the status is 2, and only where requests are traced outside local
  -- mode and the ServeMux does not take the name of the environment as a pattern, so that it panics.
  pub main_releases :
      (environment : Environment) (wake : Wake) (p : Process S)
      → AllClosed p
      → let cfg = new_config environment [] in
        let started = is_done (new_application outside (codes "./docs/swagger.yaml") cfg p).0 in
        Ended (mux_panics outside.handles cfg) started (main outside environment wake p)
  unfolding main
  main_releases environment wake p closed =
      let cfg = new_config environment [] in validated-Ended cfg wake (validate cfg) p closed
