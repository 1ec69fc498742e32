-- ===== src/Bootstrap/Tests.antt =====
-- A process whose Redis does not answer, and a local one.
use cloud_ops_manager.Common.{ℕ, ◌≡◌, refl, true, some, none, [], Result, ok, err, all}
use cloud_ops_manager.Text.{Text, codes}
use cloud_ops_manager.Config.{Config, Environment, new_config, get_env_or_default}
use cloud_ops_manager.Bootstrap.{false, Call, ping, Outside, Process, is_done}
use cloud_ops_manager.Bootstrap.Wiring.{mux_panics}
use cloud_ops_manager.Bootstrap.Release.Held.{redis, is_open}
use cloud_ops_manager.Bootstrap.Start.{new_application}
use cloud_ops_manager.Bootstrap.Server.{interrupted, main}
use cloud_ops_manager.Bootstrap.Release.Closing.{Ended, main_releases}
use cloud_ops_manager.Bootstrap.Local.{is_offline, local_mode-Offline}

abbrev answer : Call → ℕ → Result Text Unit × ℕ
answer ping s = (err (codes "connection refused"), s)
answer _ s = (ok tt, s)

abbrev outside : Outside ℕ
outside = record {
  ask = answer;
  get_parameter = λ key decrypt s. (ok (some (codes "redis:6379")), s);
  get_parameters = λ keys s. (ok [], s);
  handles = λ patterns. true;
}

-- An environment without variables.
abbrev environment : Environment
environment = record {
  getenv = λ key. [];
  parse_duration = λ s. none;
  atoi = λ s. none;
  parse_bool = λ s. none;
}

abbrev begun : Process ℕ
begun = record { env = 0; events = []; entries = [] }

-- Libraries that answer, and a run that ends with a signal.
abbrev answering : Outside ℕ
answering = record outside { ask = λ c s. (ok tt, s) }

main_releases_example :
    Ended
      (mux_panics (λ patterns. true) (new_config environment []))
      (is_done
        (new_application answering
          (codes "./docs/swagger.yaml")
          (new_config environment [])
          begun).0)
      (main answering environment (interrupted (codes "terminated")) begun)
main_releases_example =
    main_releases answering environment (interrupted (codes "terminated")) begun (λ r. refl)

abbrev local_config : Config
local_config = record (new_config environment []) {
  app = record (new_config environment []).app { environment = codes "local" };
}

local_mode-Offline_example :
    all
      (λ e. is_offline e.call)
      (new_application outside (codes "./docs/swagger.yaml") local_config begun).1.events
    ≡ true
unfolding new_config cloud_ops_manager.Bootstrap.Wiring.is_local_mode cloud_ops_manager.Text.text_eq
local_mode-Offline_example =
    local_mode-Offline outside (codes "./docs/swagger.yaml") local_config begun refl refl

-- A ServeMux that does not take the patterns.
abbrev refusing : Outside ℕ
refusing = record answering { handles = λ patterns. false }

statuses :
    ((main outside environment (interrupted (codes "terminated")) begun).0 ≡ 1)
    × ((main answering environment (interrupted (codes "terminated")) begun).0 ≡ 0)
    × ((main refusing environment (interrupted (codes "terminated")) begun).0 ≡ 2)
    × (is_open redis (main refusing environment (interrupted (codes "terminated")) begun).1.events
        ≡ true)
unfolding main get_env_or_default cloud_ops_manager.Bootstrap.and_then
    cloud_ops_manager.Config.get_bool_env cloud_ops_manager.Text.text_eq
    cloud_ops_manager.Bootstrap.wrap cloud_ops_manager.Bootstrap.Telemetry.new_logs
    cloud_ops_manager.Bootstrap.Telemetry.new_tracing
    cloud_ops_manager.Bootstrap.Infrastructure.get_parameter
    cloud_ops_manager.Bootstrap.Infrastructure.new_redis
statuses = (refl, refl, refl, refl)
