-- ===== src/Logging/Logger.antt =====
-- services/api/internal/logger/logger.go, which services/provisioner/internal/logger/logger.go
-- repeats. logrus is an argument: how it parses a level and merges the fields of an entry. The
-- output and the context of an entry are not modelled.
use cloud_ops_manager.Common.{
  String, ◌≡◌, refl, ◌∙◌, Option, some, none, List, [], ◌∷◌, insert, lookup, null, str_eq,
  if◌then◌else◌, lookup-insert,
}
use cloud_ops_manager.Text.{Text, codes, text_eq}
use cloud_ops_manager.Logging.{Level, info, Field, FieldValue, text}

-- A map of fields.
abbrev pub Fields : Type 0
Fields = List (String × FieldValue)

pub data Formatter : Type 0 where
  text_formatter json_formatter : Text → Formatter

-- Config, over the hooks of logrus.
pub record Config (H : Type 0) : Type 0 where
  pub level : Text
  pub format : Text
  pub time_format : Text
  pub hooks : List H

abbrev pub default_config : {H : Type 0} → Config H
default_config = record {
  level = codes "info";
  format = codes "json";
  time_format = codes "2006-01-02T15:04:05.000Z07:00";
  hooks = [];
}

-- logrusLogger: the settings of its logger, and the fields of its entry.
pub record LogrusLogger (H : Type 0) : Type 0 where
  pub level : Level
  pub formatter : Formatter
  pub hooks : List H
  pub fields : Fields

-- Logger: one of the two implementations.
pub data Logger (H : Type 0) : Type 0 where
  logrus : LogrusLogger H → Logger H
  nop : Logger H

-- NopLogger: its methods are the clauses at `nop` below.
abbrev pub nop_logger : {H : Type 0} → Logger H
nop_logger = nop

-- What logrus is handed.
pub record Written : Type 0 where
  pub level : Level
  pub message : String
  pub fields : Fields

abbrev pub or_info : Option Level → Level
or_info none = info
or_info (some l) = l

abbrev pub formatter_of : Text → Text → Formatter
formatter_of format time_format =
    if text_eq format (codes "text") then text_formatter time_format else json_formatter time_format

-- The map of withFields: a later field of a key takes the place of an earlier one.
unfoldable pub collect : List Field → Fields → Fields
collect [] m = m
collect (f ∷ fs) m = collect fs (insert f.key f.value m)

module _ {H : Type 0} (parse_level : Text → Option Level) where
  -- New
  unfoldable pub new : Config H → Logger H
  new cfg = logrus (record {
    level = or_info (parse_level cfg.level);
    formatter = formatter_of cfg.format cfg.time_format;
    hooks = cfg.hooks;
    fields = [];
  })

module _ {H : Type 0} (merge : Fields → Fields → Fields) where
  -- WithFields
  unfoldable pub with_fields : Fields → Logger H → Logger H
  with_fields m (logrus l) = logrus (record l { fields = merge l.fields m })
  with_fields m nop = nop

  unfoldable pub with_field : String → FieldValue → Logger H → Logger H
  unfolding with_fields
  with_field k v l = with_fields ((k, v) ∷ []) l

  -- logrus keeps an error under the key "error".
  unfoldable pub with_error : Text → Logger H → Logger H
  unfolding with_field
  with_error e l = with_field "error" (text e) l

  -- withFields
  abbrev pub entry_fields : List Field → LogrusLogger H → Fields
  entry_fields fs l = if null fs then l.fields else merge l.fields (collect fs [])

  -- Debug, Info, Warn, Error and Fatal, by their level.
  unfoldable pub log : Level → String → List Field → Logger H → Option Written
  unfolding collect
  log level message fs (logrus l) =
      some (record { level = level; message = message; fields = entry_fields fs l })
  log level message fs nop = none

-- The last field of a key.
abbrev pub last_field : String → List Field → Option FieldValue → Option FieldValue
last_field k [] found = found
last_field k (f ∷ fs) found = last_field k fs (if str_eq f.key k then some f.value else found)

-- The value that withFields hands to logrus for a key is that of the last field with it.
lookup-collect :
    (k : String) (fs : List Field) (m : Fields)
    → lookup k (collect fs m) ≡ last_field k fs (lookup k m)
unfolding collect
lookup-collect k [] m = refl
lookup-collect k (f ∷ fs) m =
    lookup-collect k fs (insert f.key f.value m) ∙ rw (lookup-insert f.key k f.value m) refl
