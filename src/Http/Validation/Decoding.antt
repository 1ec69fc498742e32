-- ===== src/Http/Validation/Decoding.antt =====
-- What decoding and validating a request answers.
use cloud_ops_manager.Common.{ℕ, String, ◌≡◌, refl, Option, some, none, List, [], ◌∷◌, Result, map}
use cloud_ops_manager.Text.{Text, codes}
use cloud_ops_manager.Http.Writer.{World, ErrorResponse, ValidationError, error_json}
use cloud_ops_manager.Http.Writer.Laws.{IsFresh, Received}
use cloud_ops_manager.Http.Response.{
  error_response, err_code_validation, err_code_invalid_json, respond_with_validation_error,
}
use cloud_ops_manager.Http.Response.Laws.{json_headers, respond_with_error-Received}
use cloud_ops_manager.Http.Validation.{
  FieldError, validated, decoded, validation_error, decode_and_validate,
}

-- The error that failed validations deserve.
abbrev pub complaint : String → List ValidationError → Option ErrorResponse
complaint id [] = none
complaint id (e ∷ es) = some (record {
  code = err_code_validation;
  message = codes "Request validation failed";
  request_id = id;
  details = e ∷ es;
})

-- The error that a decoded body deserves: it is not JSON, or the validator has something to say.
abbrev pub rejection :
    {T : Type 0} → (ℕ → ℕ) → (T → List FieldError) → String → Option T → Option ErrorResponse
rejection beyond check id none =
    some (error_response err_code_invalid_json "Invalid JSON in request body" id)
rejection beyond check id (some t) = complaint id (map (validation_error beyond) (check t))

null_of_map :
    (beyond : ℕ → ℕ) (es : List FieldError) → [] ≡ map (validation_error beyond) es → es ≡ []
null_of_map beyond [] h = refl
null_of_map beyond (e ∷ es) h = cc

module _ {S T : Type 0} (beyond : ℕ → ℕ) (decode : Result String Text → Option T)
    (check : T → List FieldError) where
  -- A rejected body.
  abbrev pub Rejected : ErrorResponse → World S → Option T × World S → Type 0
  Rejected e w (result, w') =
      (result ≡ none)
      × (w'.env ≡ w.env)
      × (w'.logs ≡ w.logs)
      × Received 400 (json_headers w.writer) (error_json e ∷ []) w'.writer

  -- An accepted body.
  abbrev pub Accepted : World S → Option T × World S → Type 0
  Accepted w (none, w') = ⊥
  Accepted w (some t, w') = (decode w.request.body ≡ some t) × (check t ≡ []) × (w' ≡ w)

  abbrev pub Answered : Option ErrorResponse → World S → Option T × World S → Type 0
  Answered none w r = Accepted w r
  Answered (some e) w r = Rejected e w r

  validated-answers :
      (id : String) (t : T) (es : List ValidationError) (w : World S)
      → IsFresh w.writer
      → decode w.request.body ≡ some t
      → es ≡ map (validation_error beyond) (check t)
      → Answered (complaint id es) w (validated beyond decode check id t es w)
  unfolding respond_with_validation_error
  validated-answers id t [] w f h k = (h, null_of_map beyond (check t) k, refl)
  validated-answers id t (e ∷ es) w f h k =
      (refl, refl, refl, respond_with_error-Received 400 _ w.writer f)

  decoded-answers :
      (id : String) (o : Option T) (w : World S)
      → IsFresh w.writer
      → decode w.request.body ≡ o
      → Answered (rejection beyond check id o) w (decoded beyond decode check id o w)
  decoded-answers id none w f h = (refl, refl, refl, respond_with_error-Received 400 _ w.writer f)
  decoded-answers id (some t) w f h =
      validated-answers id t (map (validation_error beyond) (check t)) w f h refl

  -- Through a fresh writer, a body is decoded if it is JSON and the validator has no objection,
  -- and then the world is as it was. Otherwise the client has received status 400 and one error,
  -- and neither the environment nor the log has changed.
  pub decode_and_validate_answers :
      (id : String) (w : World S)
      → IsFresh w.writer
      → Answered
          (rejection beyond check id (decode w.request.body))
          w
          (decode_and_validate beyond decode check id w)
  unfolding decode_and_validate respond_with_validation_error
  decode_and_validate_answers id w f = decoded-answers id (decode w.request.body) w f refl

  -- A body that passes leaves the world alone.
  pub decode_and_validate_valid :
      (id : String) (t : T) (w : World S)
      → decode w.request.body ≡ some t
      → check t ≡ []
      → decode_and_validate beyond decode check id w ≡ (some t, w)
  unfolding decode_and_validate
  decode_and_validate_valid id t w h k = rw (h, k) refl
