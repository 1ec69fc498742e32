-- ===== src/Contract/Understood.antt =====
-- Which accepted requests the provisioner understands.
use cloud_ops_manager.Common.{
  ℕ, String, ◌≡◌, refl, ◌↔◌, Bool, true, false, not, List, [], ◌∷◌, ◌++◌, Option, some, Result, ok,
  arith, all, all-append, null, Bool-cases, inl, inr,
}
use cloud_ops_manager.Text.{Text, is_space, is_lower_letter}
use cloud_ops_manager.Text.Trim.{trim, trim-parts}
use cloud_ops_manager.Domain.Errors.{GoError}
use cloud_ops_manager.Domain.Model.{ProvisionRequest}
use cloud_ops_manager.Provisioner.Request.{Request, ParseError, is_blank, missing_fields, parse}
use cloud_ops_manager.Provisioner.Dispatch.{Sink, dispatch, dispatch_parsed}
use cloud_ops_manager.Http.Validation.{FieldError, validate_application_name}
use cloud_ops_manager.Http.Validation.Names.{validate_application_name_iff, starts_lower}
use cloud_ops_manager.Http.Writer.{World}
use cloud_ops_manager.Http.Writer.Laws.{IsFresh, Received}
use cloud_ops_manager.Http.Response.Laws.{json_headers}
use cloud_ops_manager.Http.Handlers.{provision, get_request_id}
use cloud_ops_manager.Http.Handlers.Provision.{provision_accepts, document_of, published}
use cloud_ops_manager.Publish.{KafkaMessage, publish_kafka}
use cloud_ops_manager.Publish.Carriers.{Carrier}
use cloud_ops_manager.Contract.{Tag, Validator, request_valid, field_valid, carried}

null-trim : (s : Text) → null (trim is_space s) ≡ true → all is_space s ≡ true
null-trim s h =
    let (before, behind, parts, left, right) = trim-parts is_space s in
    let gone : trim is_space s ≡ [] = empty_of_null (trim is_space s) h in
    rw (parts) (rw gone (all-append is_space before behind left right))
  where
    empty_of_null : (t : Text) → null t ≡ true → t ≡ []
    empty_of_null [] h = refl
    empty_of_null (c ∷ t) h = cc

letter_not_space : (c : ℕ) → is_lower_letter c ≡ true → is_space c ≡ false
unfolding is_space
letter_not_space c h = ground arith

starts_lower_not_blank : (s : Text) → starts_lower s ≡ true → is_blank s ≡ false
unfolding is_blank
starts_lower_not_blank [] h = cc
starts_lower_not_blank (c ∷ s) h = elim (Bool-cases (null (trim is_space (c ∷ s)))) [
  | inl e ↦ ground (arith, null-trim (c ∷ s) e, letter_not_space c h)
  | inr e ↦ e
]

module _ (check : ProvisionRequest → List FieldError) (passes : Tag → Text → Bool)
    (validator : Validator check passes) where
  -- An accepted request has a valid name.
  pub valid_name :
      (r : ProvisionRequest) → check r ≡ [] → validate_application_name r.application.name ≡ true
  unfolding request_valid field_valid
  valid_name r h =
      ground (arith, (validator.checks r).0 h, validator.appname_lem r.application.name)

  pub name_not_blank : (r : ProvisionRequest) → check r ≡ [] → is_blank r.application.name ≡ false
  name_not_blank r h =
      starts_lower_not_blank r.application.name
        ((validate_application_name_iff r.application.name).0 (valid_name r h)).2

-- What the provisioner makes of a message is what its template allows.
pub dispatch_lem :
    {E : Type 0} (explain : ParseError E → Text) (unmarshal : Text → Result E Request) (body : Text)
    (r : Request) (s : Sink)
    → unmarshal body ≡ ok r
    → is_blank r.request_id ≡ false
    → is_blank r.application.name ≡ false
    → ((dispatch explain unmarshal body s).0 ≡ not (is_blank r.application.template))
      × ((parse unmarshal body ≡ ok r) ↔ (is_blank r.application.template ≡ false))
unfolding dispatch dispatch_parsed parse missing_fields
dispatch_lem explain unmarshal body r s h id name =
    (ground arith, (λ k. ground arith, λ k. ground arith))

-- The topic takes every message, at its end.
abbrev pub append_message :
    KafkaMessage → List KafkaMessage → Result GoError Unit × List KafkaMessage
append_message m topic = (ok tt, topic ++ m ∷ [])

module _ {E : Type 0} (check : ProvisionRequest → List FieldError) (passes : Tag → Text → Bool)
    (validator : Validator check passes) (marshal : ProvisionRequest → Result GoError Text)
    (unmarshal : Text → Result E Request)
    (json : (r : ProvisionRequest) (body : Text)
      → marshal r ≡ ok body
      → unmarshal body ≡ ok (carried r))
    (inject : List KafkaMessage → Carrier → Carrier)
    (new_uuid : List KafkaMessage → Text × List KafkaMessage) (beyond : ℕ → ℕ)
    (decode : Result String Text → Option ProvisionRequest) (explain : ParseError E → Text) where
  -- The request as the server publishes it.
  abbrev pub outgoing : ProvisionRequest → World (List KafkaMessage) → ProvisionRequest
  outgoing r w = record r { request_id = (new_uuid w.env).0 }

  published_lem :
      (r : ProvisionRequest) (w : World (List KafkaMessage)) (body : Text)
      → marshal (outgoing r w) ≡ ok body
      → published marshal (publish_kafka marshal inject append_message) new_uuid r w ≡ (
        ok tt,
        (new_uuid w.env).1
            ++ record {
              key = r.application.name;
              value = body;
              headers = inject (new_uuid w.env).1 [];
            }
              ∷ [],
      )
  unfolding publish_kafka
  published_lem r w body sent = rw sent refl

  -- Let the validator read its tags as documented, the two JSON codecs agree on the names, the
  -- topic take every message, and the server's new id not be blank. A request that passes
  -- validation and can be serialized is answered 202 through a fresh writer under the server's
  -- id, and one message for it stands at the end of the topic. The provisioner understands that
  -- message exactly if the request's template holds more than white space, and then parses it as
  -- the same request.
  pub accepted_is_understood :
      (r : ProvisionRequest) (w : World (List KafkaMessage)) (body : Text) (s : Sink)
      → IsFresh w.writer
      → decode w.request.body ≡ some r
      → check r ≡ []
      → is_blank (new_uuid w.env).0 ≡ false
      → marshal (outgoing r w) ≡ ok body
      → let publish = publish_kafka marshal inject append_message in
        let done = (provision marshal publish new_uuid beyond decode check w).1 in
        let message : KafkaMessage = record {
          key = r.application.name;
          value = body;
          headers = inject (new_uuid w.env).1 [];
        } in
        (done.env ≡ (new_uuid w.env).1 ++ message ∷ [])
        × Received 202
            (json_headers w.writer)
            (document_of w.now (get_request_id w.request) (new_uuid w.env).0 (ok tt) ∷ [])
            done.writer
        × ((dispatch explain unmarshal message.value s).0 ≡ not (is_blank r.application.template))
        × ((parse unmarshal message.value ≡ ok (carried (outgoing r w)))
            ↔ (is_blank r.application.template ≡ false))
  unfolding publish_kafka
  accepted_is_understood r w body s fresh decodes valid id sent =
      let publish = publish_kafka marshal inject append_message in
      let (env, received) =
        provision_accepts marshal publish new_uuid beyond decode check r w fresh decodes valid in
      let (understood, parsed) =
        dispatch_lem explain unmarshal body (carried (outgoing r w)) s
          (json (outgoing r w) body sent) id (name_not_blank check passes validator r valid) in
      let sent_lem = published_lem r w body sent in
      (rw sent_lem at env, rw sent_lem at received, understood, parsed)
