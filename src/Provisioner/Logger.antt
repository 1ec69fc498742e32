-- ===== src/Provisioner/Logger.antt =====
-- services/provisioner/internal/logger/logger.go, whose text below the package comment is that of
-- services/api/internal/logger/logger.go; so its names stand for the definitions of Logging/Logger.
use cloud_ops_manager.Common.{String, Option, List}
use cloud_ops_manager.Text.{Text}
use cloud_ops_manager.Logging.{Level, Field, FieldValue}
use cloud_ops_manager.Logging.Logger

abbrev pub Fields : Type 0
Fields = Logger.Fields

-- Logger and logrusLogger.
abbrev pub LogrusLogger : Type 0 → Type 0
LogrusLogger = Logger.LogrusLogger

abbrev pub AnyLogger : Type 0 → Type 0
AnyLogger = Logger.Logger

abbrev pub Config : Type 0 → Type 0
Config = Logger.Config

abbrev pub default_config : {H : Type 0} → Config H
default_config = Logger.default_config

abbrev pub nop_logger : {H : Type 0} → AnyLogger H
nop_logger = Logger.nop_logger

abbrev pub new : {H : Type 0} → (Text → Option Level) → Config H → AnyLogger H
new = Logger.new

abbrev pub collect : List Field → Fields → Fields
collect = Logger.collect

module _ {H : Type 0} (merge : Fields → Fields → Fields) where
  abbrev pub with_fields : Fields → AnyLogger H → AnyLogger H
  with_fields = Logger.with_fields merge

  abbrev pub with_field : String → FieldValue → AnyLogger H → AnyLogger H
  with_field = Logger.with_field merge

  abbrev pub with_error : Text → AnyLogger H → AnyLogger H
  with_error = Logger.with_error merge

  abbrev pub entry_fields : List Field → LogrusLogger H → Fields
  entry_fields = Logger.entry_fields merge

  -- Debug, Info, Warn, Error and Fatal, by their level.
  abbrev pub log : Level → String → List Field → AnyLogger H → Option Logger.Written
  log = Logger.log merge
