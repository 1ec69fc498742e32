-- ===== src/Http/Handlers/Provision.antt =====
-- What POST /v1/provision publishes and answers.
use cloud_ops_manager.Common.{refl, some, ◌≡◌, List, Option, ℕ, String, [], ◌∷◌, Result, ok, err}
use cloud_ops_manager.Text.{Text}
use cloud_ops_manager.Domain.Errors.{GoError}
use cloud_ops_manager.Domain.Model.{ProvisionRequest}
use cloud_ops_manager.Publish.{Publisher, send_provisioning_request}
use cloud_ops_manager.Http.Writer.{World, Chunk, error_json, api_json, accepted}
use cloud_ops_manager.Http.Writer.Laws.{IsFresh, Received}
use cloud_ops_manager.Http.Response.{error_response, new_api_response, err_code_internal_error}
use cloud_ops_manager.Http.Response.Laws.{
  json_headers, respond_with_error-Received, respond_with_json-Received,
}
use cloud_ops_manager.Http.Validation.Decoding.{decode_and_validate_valid}
use cloud_ops_manager.Http.Validation.{FieldError}
use cloud_ops_manager.Http.Handlers.{get_request_id, provision, provision_decoded, provision_answer}

-- The answer to what the publisher returned.
abbrev pub status_of : Result GoError Unit → ℕ
status_of (ok _) = 202
status_of (err e) = 500

abbrev pub document_of : String → String → Text → Result GoError Unit → Chunk
document_of now id provision_id (ok _) = api_json (
    new_api_response now
      (accepted (record {
        message = "Request accepted for processing";
        request_id = id;
        provision_id = provision_id;
        status = "ACCEPTED";
      }))
      id)
document_of now id provision_id (err e) =
    error_json (error_response err_code_internal_error "Failed to process provisioning request" id)

module _ {S : Type 0} (marshal : ProvisionRequest → Result GoError Text) (publish : Publisher S)
    (new_uuid : S → Text × S) where
  -- The server's own id, and what the publisher makes of the request under that id.
  abbrev pub own_id : World S → Text
  own_id w = (new_uuid w.env).0

  abbrev pub published : ProvisionRequest → World S → Result GoError Unit × S
  published r w = publish (record r { request_id = own_id w }) (new_uuid w.env).1

  provision_answer-Received :
      (id : String) (u : Text) (result : Result GoError Unit) (w : World S)
      → IsFresh w.writer
      → let done = (provision_answer marshal publish new_uuid id u result w).1 in
        (done.env ≡ w.env)
        × Received
            (status_of result)
            (json_headers w.writer)
            (document_of w.now id u result ∷ [])
            done.writer
  provision_answer-Received id u (ok _) w f = (refl, respond_with_json-Received 202 _ w.writer f)
  provision_answer-Received id u (err e) w f = (refl, respond_with_error-Received 500 _ w.writer f)

  module _ (beyond : ℕ → ℕ) (decode : Result String Text → Option ProvisionRequest)
      (check : ProvisionRequest → List FieldError) where
    pub provision_of_valid :
        (r : ProvisionRequest) (w : World S)
        → decode w.request.body ≡ some r
        → check r ≡ []
        → provision marshal publish new_uuid beyond decode check w
          ≡ provision_decoded marshal publish new_uuid (get_request_id w.request) r w
    unfolding provision
    provision_of_valid r w h k =
        rw (decode_and_validate_valid beyond decode check (get_request_id w.request) r w h k) refl

    -- A request that passes validation, through a fresh writer: it is published once, under the
    -- id that the server makes for it. The client has received status 202 with that id if the
    -- publisher took the request, and else status 500 with one error.
    pub provision_accepts :
        (r : ProvisionRequest) (w : World S)
        → IsFresh w.writer
        → decode w.request.body ≡ some r
        → check r ≡ []
        → let done = (provision marshal publish new_uuid beyond decode check w).1 in
          (done.env ≡ (published r w).1)
          × Received
              (status_of (published r w).0)
              (json_headers w.writer)
              (document_of w.now (get_request_id w.request) (own_id w) (published r w).0 ∷ [])
              done.writer
    unfolding provision_decoded send_provisioning_request
    provision_accepts r w f h k =
        rw (provision_of_valid r w h k)
          (provision_answer-Received (get_request_id w.request) (own_id w) (published r w).0 _ f)

  -- The world whose request has another body.
  abbrev pub with_body : Result String Text → World S → World S
  with_body b w = record w { request = record w.request { body = b } }

  provision_answer-body :
      (id : String) (u : Text) (result : Result GoError Unit) (b : Result String Text) (w : World S)
      → provision_answer marshal publish new_uuid id u result (with_body b w) ≡ (
        (provision_answer marshal publish new_uuid id u result w).0,
        with_body b (provision_answer marshal publish new_uuid id u result w).1,
      )
  provision_answer-body id u (ok _) b w = refl
  provision_answer-body id u (err e) b w = refl

  provision_decoded-body :
      (id : String) (r : ProvisionRequest) (b : Result String Text) (w : World S)
      → provision_decoded marshal publish new_uuid id r (with_body b w) ≡ (
        (provision_decoded marshal publish new_uuid id r w).0,
        with_body b (provision_decoded marshal publish new_uuid id r w).1,
      )
  unfolding provision_decoded
  provision_decoded-body id r b w =
      let (result, env, logs) =
        send_provisioning_request marshal publish (record r { request_id = own_id w })
          (new_uuid w.env).1 w.logs in
      provision_answer-body id (own_id w) result b (record w { env = env; logs = logs })

  -- The id that a client writes into its request is without effect: where two bodies decode to
  -- requests that differ only in their ids, and both pass validation, a request with the one body
  -- ends as the same request with the other: in the same way, with the same writer, the same state
  -- behind the ports and the same log, and only the body of its request is the other one.
  pub provision_ignores_id :
      (beyond : ℕ → ℕ) (decode : Result String Text → Option ProvisionRequest)
      (check : ProvisionRequest → List FieldError) (r : ProvisionRequest) (u : Text)
      (b : Result String Text) (w : World S)
      → decode w.request.body ≡ some r
      → decode b ≡ some (record r { request_id = u })
      → check r ≡ []
      → check (record r { request_id = u }) ≡ []
      → let (exit, done) = provision marshal publish new_uuid beyond decode check w in
        provision marshal publish new_uuid beyond decode check (with_body b w)
        ≡ (exit, with_body b done)
  unfolding provision_decoded get_request_id
  provision_ignores_id beyond decode check r u b w h h' k k' =
      rw
        (
          provision_of_valid beyond decode check r w h k,
          provision_of_valid beyond decode check (record r { request_id = u }) (with_body b w) h'
              k',
        )
        (provision_decoded-body (get_request_id w.request) r b w)
