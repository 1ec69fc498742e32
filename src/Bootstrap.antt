-- ===== src/Bootstrap.antt =====
-- The start and the end of the API process: services/api/internal/bootstrap, server, telemetry and
-- infrastructure, and services/api/cmd/server/main.go. The libraries behind them are the argument
-- `outside`, over a state of its own. A process keeps what it asked of them, the newest first.
pub mod Infrastructure
pub mod Telemetry
pub mod Wiring
pub mod Start
pub mod Server
pub mod Release
pub mod Local
mod Tests
use cloud_ops_manager.Common.{
  String, Bool, true, false, Option, some, none, List, [], ◌∷◌, ◌++◌, Result, ok, err,
  if◌then◌else◌,
}
use cloud_ops_manager.Text.{Text, codes}
use cloud_ops_manager.Logging.{Level, Field, Entry, entry}

-- The three kinds of telemetry.
pub data Signal : Type 0 where
  logs traces metrics : Signal

-- What the process asks of the libraries. `parameter` has WithDecryption as its second argument.
pub data Call : Type 0 where
  load_default_config : Call
  parameter : Text → Bool → Call
  parameters : List Text → Call
  new_redis_client : Text → Call
  ping close_redis : Call
  new_exporter : Signal → Call
  merge_resource : List (String × Text) → Call
  set_provider shutdown_provider : Signal → Call
  set_propagator : Call
  new_writer : List Text → Text → Call
  close_writer : Call
  listen shutdown_server : Call

-- A call, and whether it gave what it was asked for.
pub record Event : Type 0 where
  pub call : Call
  pub done : Bool

-- The libraries: what a call answers. A parameter, its name and its value may be missing. `handles`
-- says whether http.ServeMux.Handle takes these patterns one after the other: it panics at one that
-- is not a pattern, or that is in conflict with an earlier one.
pub record Outside (S : Type 0) : Type 0 where
  pub ask : Call → S → Result Text Unit × S
  pub get_parameter : Text → Bool → S → Result Text (Option Text) × S
  pub get_parameters : List Text → S → Result Text (List (Option Text × Option Text)) × S
  pub handles : List Text → Bool

pub record Process (S : Type 0) : Type 0 where
  pub env : S
  pub events : List Event
  pub entries : List Entry

-- A step that may fail, as a Go function with an error result.
abbrev pub Step : Type 0 → Type 0 → Type 0
Step S A = Process S → Result Text A × Process S

unfoldable pub and_then :
    {S A B : Type 0} → Result Text A × Process S → (A → Step S B) → Result Text B × Process S
and_then (err e, p) f = (err e, p)
and_then (ok a, p) f = f a p

-- fmt.Errorf("<what>: %w", err)
unfoldable pub wrap :
    {S A : Type 0} → String → Result Text A × Process S → Result Text A × Process S
wrap what (err e, p) = (err (codes what ++ (codes ": " ++ e)), p)
wrap what (ok a, p) = (ok a, p)

abbrev pub is_done : {E A : Type 0} → Result E A → Bool
is_done (ok a) = true
is_done (err e) = false

abbrev pub is_some : {A : Type 0} → Option A → Bool
is_some none = false
is_some (some a) = true

-- Whether a parameter was found.
abbrev pub is_found : Result Text (Option Text) → Bool
is_found (err e) = false
is_found (ok v) = is_some v

module _ {S : Type 0} where
  abbrev pub remember : Call → Bool → Process S → Process S
  remember c b p = record p { events = record { call = c; done = b } ∷ p.events }

  -- A call that cannot fail.
  abbrev pub note : Call → Process S → Process S
  note c p = remember c true p

  abbrev pub log : Level → String → List Field → Process S → Process S
  log level message fields p = record p { entries = p.entries ++ entry level message fields ∷ [] }

  abbrev pub perform : Outside S → Call → Step S Unit
  perform outside c p =
      let (answer, env) = outside.ask c p.env in
      (answer, remember c (is_done answer) (record p { env = env }))
