-- ===== src/Logging.antt =====
-- What the services log through services/api/internal/logger and services/provisioner/internal/logger:
-- an entry has a level, a message and fields. How the packages hand it to logrus is in Logging/Logger.
pub mod Logger
use cloud_ops_manager.Common.{ℕ, String, List}
use cloud_ops_manager.Text.{Text}

pub data Level : Type 0 where
  debug info warn error fatal : Level

-- The values that the services put into fields.
pub data FieldValue : Type 0 where
  text : Text → FieldValue
  name : String → FieldValue
  number : ℕ → FieldValue
  texts : List Text → FieldValue

-- Field of logger.go; `F` makes one.
pub record Field : Type 0 where
  pub key : String
  pub value : FieldValue

abbrev pub field : String → FieldValue → Field
field k v = record { key = k; value = v }

pub record Entry : Type 0 where
  pub level : Level
  pub message : String
  pub fields : List Field

abbrev pub entry : Level → String → List Field → Entry
entry l m fs = record { level = l; message = m; fields = fs }
