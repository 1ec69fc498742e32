-- ===== src/Bootstrap/Infrastructure.antt =====
-- services/api/internal/infrastructure: aws.go and redis.go.
use cloud_ops_manager.Common.{
  String, Bool, true, false, Option, some, none, List, [], ◌∷◌, ◌++◌, Result, ok, err, null,
  if◌then◌else◌,
}
use cloud_ops_manager.Text.{Text, codes, text_eq}
use cloud_ops_manager.Bootstrap.{
  load_default_config, parameter, parameters, new_redis_client, ping, close_redis, Outside, Process,
  Step, wrap, is_done, is_found, remember, note, perform,
}

module _ {S : Type 0} (outside : Outside S) where
  -- NewAWSClients. The clients hold nothing but the configuration.
  unfoldable pub new_aws_clients : Step S Unit
  new_aws_clients p = wrap "failed to load AWS config" (perform outside load_default_config p)

  -- What GetParameter and GetSecureParameter make of the answer.
  abbrev pub parameter_value :
      String → Text → Result Text (Option Text) × Process S → Result Text Text × Process S
  parameter_value what key (err e, p) = (err (codes what ++ (key ++ (codes ": " ++ e))), p)
  parameter_value what key (ok none, p) =
      (err (codes "parameter " ++ (key ++ codes " not found or empty")), p)
  parameter_value what key (ok (some v), p) = (ok v, p)

  abbrev pub ask_parameter : Text → Bool → Step S (Option Text)
  ask_parameter key decrypt p =
      let (answer, env) = outside.get_parameter key decrypt p.env in
      (answer, remember (parameter key decrypt) (is_found answer) (record p { env = env }))

  unfoldable pub get_parameter : Text → Step S Text
  get_parameter key p = parameter_value "failed to get parameter " key (ask_parameter key false p)

  unfoldable pub get_secure_parameter : Text → Step S Text
  get_secure_parameter key p =
      parameter_value "failed to get secure parameter " key (ask_parameter key true p)

  -- A Go map by its assignments: the last one to a key counts.
  abbrev pub assign : Text → Text → List (Text × Text) → List (Text × Text)
  assign k v [] = (k, v) ∷ []
  assign k v ((j, u) ∷ m) =
      let rest = assign k v m in if text_eq k j then (k, v) ∷ m else (j, u) ∷ rest

  abbrev pub named : List (Option Text × Option Text) → List (Text × Text) → List (Text × Text)
  named [] m = m
  named ((some k, some v) ∷ ps) m = named ps (assign k v m)
  named ((some k, none) ∷ ps) m = named ps m
  named ((none, v) ∷ ps) m = named ps m

  abbrev pub parameter_map :
      Result Text (List (Option Text × Option Text)) × Process S
      → Result Text (List (Text × Text)) × Process S
  parameter_map (err e, p) = (err (codes "failed to get parameters: " ++ e), p)
  parameter_map (ok ps, p) = (ok (named ps []), p)

  unfoldable pub get_parameters : List Text → Step S (List (Text × Text))
  get_parameters [] p = (ok [], p)
  get_parameters (n ∷ ns) p =
      let (answer, env) = outside.get_parameters (n ∷ ns) p.env in
      parameter_map
        (answer, remember (parameters (n ∷ ns)) (is_done answer) (record p { env = env }))

  -- What NewRedisClient does after the ping: a client that does not answer is closed, and the error
  -- of that is dropped.
  abbrev pub pinged : Result Text Unit × Process S → Result Text Unit × Process S
  pinged (ok _, p) = (ok tt, p)
  pinged (err e, p) =
      let (ignored, p') = perform outside close_redis p in
      (err (codes "redis ping failed: " ++ e), p')

  -- NewRedisClient, on the address of its configuration.
  unfoldable pub new_redis : Text → Step S Unit
  new_redis addr p =
      if null addr
      then (err (codes "redis address is required"), p)
      else pinged (perform outside ping (note (new_redis_client addr) p))
