-- ===== src/Config/Tests.antt =====
-- Lists and configurations at work.
use cloud_ops_manager.Common.{◌≡◌, ◌↔◌, true, List, map, refl, none, [], ◌∷◌, ok}
use cloud_ops_manager.Text.{codes}
use cloud_ops_manager.Text.Trim.{trim, trim_left}
use cloud_ops_manager.Config.Split.{split_string, pieces}
use cloud_ops_manager.Config.{trim_space, Environment, new_config, validate, split_and_trim}
use cloud_ops_manager.Config.Validity.{
  Setting, port, log_level, environment, option, new_config_valid,
}

abbrev bare : Environment
bare = record {
  getenv = λ key. [];
  parse_duration = λ s. none;
  atoi = λ s. none;
  parse_bool = λ s. none;
}

blanks : split_and_trim (codes " a ,, b") (codes ",") ≡ codes "a" ∷ codes "b" ∷ []
unfolding split_and_trim split_string pieces trim_space trim trim_left
blanks = refl

-- A port that is set to nothing, and then again.
abbrev settings : List Setting
settings = port [] ∷ log_level (codes "warn") ∷ port (codes "80") ∷ environment (codes "prod") ∷ []

new_config_valid_example :
    (validate (new_config bare (map option settings)) ≡ ok tt) ↔ (true ≡ true)
new_config_valid_example = new_config_valid bare settings
