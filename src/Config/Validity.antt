-- ===== src/Config/Validity.antt =====
-- Which configurations are valid.
use cloud_ops_manager.Common.{
  ◌≡◌, refl, ap, ◌↔◌, String, Bool, true, false, not, List, map, [], ◌∷◌, ok, arith, null,
  Bool-cases, inl, inr,
}
use cloud_ops_manager.Text.{Text, codes}
use cloud_ops_manager.Config.{
  Config, Environment, apply, defaults, new_config, validate, get_env_or_default, with_port,
  with_environment, with_log_level,
}

-- A configuration is valid exactly if its port and the two parameter keys are not empty.
pub validate_iff :
    (c : Config)
    → (validate c ≡ ok tt) ↔ (
        (null c.server.port ≡ false)
        × (null c.aws.provisioner_queue_param_key ≡ false)
        × (null c.aws.cognito_client_id_param_key ≡ false))
unfolding validate
validate_iff c = ground arith

env_not_empty :
    (env : Environment) (key default : String)
    → null (codes default) ≡ false
    → null (get_env_or_default env key default) ≡ false
unfolding get_env_or_default
env_not_empty env key default h = elim (Bool-cases (null (env.getenv key))) [
  | inl e ↦ rw e h
  | inr e ↦ rw e e
]

-- The options that the package offers.
pub data Setting : Type 0 where
  port environment log_level : Text → Setting

abbrev pub option : Setting → Config → Config
option (port p) = with_port p
option (environment name) = with_environment name
option (log_level level) = with_log_level level

-- Whether a port stands after these settings, where `there` says that one stood before them: the
-- last port that they set is not empty.
abbrev pub has_port : Bool → List Setting → Bool
has_port there [] = there
has_port there (port p ∷ os) = has_port (not (null p)) os
has_port there (environment name ∷ os) = has_port there os
has_port there (log_level level ∷ os) = has_port there os

-- The values that Validate asks for, apart from the port, are there.
abbrev HasKeys : Config → Type 0
HasKeys c =
    (null c.aws.provisioner_queue_param_key ≡ false)
    × (null c.aws.cognito_client_id_param_key ≡ false)

apply_iff :
    (env : Environment) (os : List Setting) (there : Bool) (c : Config)
    → not (null c.server.port) ≡ there
    → HasKeys c
    → (validate (apply env (map option os) c) ≡ ok tt) ↔ (has_port there os ≡ true)
unfolding with_port with_environment with_log_level
apply_iff env [] there c same (queue, cognito) = (
  λ h. let full = ((validate_iff c).0 h).0 in ground arith,
  λ h. (validate_iff c).1 (ground arith, queue, cognito),
)
apply_iff env (port p ∷ os) there c same keys =
    apply_iff env os (not (null p)) (with_port p c) refl keys
apply_iff env (environment name ∷ os) there c same keys =
    apply_iff env os there (with_environment name c) same keys
apply_iff env (log_level level ∷ os) there c same keys =
    apply_iff env os there (with_log_level level c) same keys

-- Whatever the environment holds, NewConfig with any list of the package's options is valid exactly
-- if no option sets a port, or the last one that does sets a port that is not empty.
pub new_config_valid :
    (env : Environment) (os : List Setting)
    → (validate (new_config env (map option os)) ≡ ok tt) ↔ (has_port true os ≡ true)
unfolding new_config
new_config_valid env os =
    apply_iff env os true (defaults env) (ap not (env_not_empty env "PORT" "8080" refl)) (
      env_not_empty env "PROVISIONER_QUEUE_PARAM_KEY"
          "/INTERNAL_DEVELOPER_PLATFORM/PROVISIONER_QUEUE_URL" refl,
      env_not_empty env "COGNITO_CLIENT_ID_PARAM_KEY"
          "/INTERNAL_DEVELOPER_PLATFORM/COGNITO_CLIENT_ID" refl,
    )
