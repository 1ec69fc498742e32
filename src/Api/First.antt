-- ===== src/Api/First.antt =====
-- What the first request of a key does at POST /v1/provision.
use cloud_ops_manager.Common.{
  ℕ, String, ◌≡◌, ◌∙◌, refl, ap, true, Bool, Option, some, [], ◌∷◌, Result, ok,
}
use cloud_ops_manager.Text.{Text}
use cloud_ops_manager.Domain.Model.{ProvisionRequest}
use cloud_ops_manager.Publish.{send_provisioning_request}
use cloud_ops_manager.Http.Writer.{World, Exit, returned, on_writer, Chunk}
use cloud_ops_manager.Http.Writer.Laws.{IsFresh, Received}
use cloud_ops_manager.Http.Response.Laws.{json_headers}
use cloud_ops_manager.Http.Handlers.{get_request_id}
use cloud_ops_manager.Http.Handlers.Provision.{document_of, own_id, published, provision_of_valid}
use cloud_ops_manager.Http.Idempotency.{
  finish, should_cache_response, push_recorder, top_status, top_body, pop_recorder,
  captured_headers,
}
use cloud_ops_manager.Http.Idempotency.Laws.Slots.{key_of, IsKeyed, middleware_created}
use cloud_ops_manager.Http.Idempotency.Laws.Recorded.{Recorded, respond_with_json-Recorded}
use cloud_ops_manager.Http.Router.{ttl_or_day}
use cloud_ops_manager.Idempotency.Store.{IdempotencyRecord}
use cloud_ops_manager.Idempotency.RedisStore.Server.{RedisLaws}
use cloud_ops_manager.Idempotency.RedisStore.{redis_store, peek, reserve, complete}
use cloud_ops_manager.Idempotency.RedisStore.Laws.{redis_store-IsLawful}
use cloud_ops_manager.Api.{Parts, endpoints}
use cloud_ops_manager.Api.Route.{guarded}

module _ {S D : Type 0} (parts : Parts S D) where
  -- The request that passes decoding and validation, and is published without an error.
  pub record Publishes (r : ProvisionRequest) (w : World S) : Type 0 where
    pub decodes : parts.decode w.request.body ≡ some r
    pub valid : parts.check r ≡ []
    pub taken : (published parts.marshal parts.publish parts.provision_uuid r w).0 ≡ ok tt

  abbrev pub accepted_document : World S → Chunk
  accepted_document w =
      document_of w.now (get_request_id w.request)
        (own_id parts.marshal parts.publish parts.provision_uuid w) (ok tt)

  -- The provision handler under the recorder of the idempotency middleware.
  pub record Provisions (r : ProvisionRequest) (w v : World S) : Type 0 where
    pub env : v.env ≡ (published parts.marshal parts.publish parts.provision_uuid r w).1
    pub recorded : Recorded 202 (accepted_document w ∷ []) w.writer v.writer

  provision-Provisions :
      (r : ProvisionRequest) (w : World S)
      → IsFresh w.writer
      → Publishes r w
      → let (exit, v) = (endpoints parts).provision (on_writer push_recorder w) in
        (exit ≡ returned) × Provisions r w v
  unfolding cloud_ops_manager.Http.Handlers.provision_decoded send_provisioning_request
  provision-Provisions r w f p =
      rw
        (provision_of_valid parts.marshal parts.publish parts.provision_uuid parts.beyond
          parts.decode parts.check r (on_writer push_recorder w) p.decodes p.valid)
        (rw p.taken
          (refl, record { env = refl; recorded = respond_with_json-Recorded 202 _ w.writer f }))

  -- The world in which the handler of the first request runs, but for the recorder.
  abbrev pub ttl : ℕ
  ttl = ttl_or_day parts.around (endpoints parts) parts.ttl

  abbrev pub reserves : World S → Text → Result String (Option IdempotencyRecord × Bool) × S
  reserves a body = reserve parts.redis (key_of a) (parts.around.hash body) ttl a.env

  abbrev pub held : World S → Text → World S
  held a body = record a { env = (reserves a body).1 }

  -- What the first request of a key asks of the parts: its slot is reserved, its handler publishes,
  -- and the completion of its slot succeeds.
  abbrev pub completes : ProvisionRequest → World S → Text → Result String Unit × S
  completes r a body =
      complete parts.redis (key_of a) 202 (captured_headers (json_headers a.writer))
        (accepted_document (held a body) ∷ []) ttl
        (published parts.marshal parts.publish parts.provision_uuid r (held a body)).1

  pub record IsFirst (r : ProvisionRequest) (a : World S) (body : Text) : Type 0 where
    pub slot : Option IdempotencyRecord
    pub created : (reserves a body).0 ≡ ok (slot, true)
    pub publishes : Publishes r (held a body)
    pub completed : (completes r a body).0 ≡ ok tt

  module _ (r : ProvisionRequest) (a : World S) (body : Text) (first : IsFirst r a body)
      (keyed : IsKeyed parts.around.valid_uuid a body) (fresh : IsFresh a.writer)
      (laws : RedisLaws parts.redis) where
    abbrev pub handled : Exit × World S
    handled = (endpoints parts).provision (on_writer push_recorder (held a body))

    pub handled-Provisions : (handled.0 ≡ returned) × Provisions r (held a body) handled.1
    handled-Provisions = provision-Provisions r (held a body) fresh first.publishes

    -- Its middleware returns, with the response sent and the slot completed.
    pub record Answered (u : World S) : Type 0 where
      pub env : u.env ≡ (completes r a body).1
      pub received :
          Received 202 (json_headers a.writer) (accepted_document (held a body) ∷ []) u.writer

    -- What the middleware leaves: the world of the handler, with the slot completed.
    abbrev pub settled : World S
    settled = record handled.1 {
      writer = pop_recorder handled.1.writer;
      env =
          (complete parts.redis (key_of a) (top_status handled.1.writer.layers)
            (captured_headers handled.1.writer.base.headers) (top_body handled.1.writer.layers) ttl
            handled.1.env).1;
    }

    pub completed_lem :
        complete parts.redis
          (key_of a)
          (top_status handled.1.writer.layers)
          (captured_headers handled.1.writer.base.headers)
          (top_body handled.1.writer.layers)
          ttl
          handled.1.env
        ≡ completes r a body
    completed_lem =
        let (exits, p) = handled-Provisions in
        rw (p.recorded.status_lem, p.recorded.body_lem, p.recorded.headers_lem, p.env) refl

    caches : should_cache_response 202 ≡ true
    unfolding should_cache_response
    caches = refl

    finished :
        finish
          (redis_store parts.redis)
          ttl
          parts.around.valid_uuid
          parts.around.hash
          (endpoints parts).provision
          (key_of a)
          handled.0
          handled.1
        ≡ (returned, settled)
    unfolding finish cloud_ops_manager.Http.Idempotency.complete
    finished =
        let (exits, p) = handled-Provisions in
        rw
          (
            exits,
            ap should_cache_response p.recorded.status_lem ∙ caches,
            ap (λ x. x.0) completed_lem ∙ first.completed,
          )
          refl

    pub guarded-Answered : (guarded parts a ≡ (returned, settled)) × Answered settled
    guarded-Answered =
        let (exits, p) = handled-Provisions in
        let made =
          middleware_created (redis_store parts.redis) (peek parts.redis)
            (redis_store-IsLawful parts.redis laws) ttl parts.around.valid_uuid parts.around.hash
            (endpoints parts).provision a body first.slot keyed first.created in
        (
          made ∙ finished,
          record { env = ap (λ x. x.1) completed_lem; received = p.recorded.received },
        )
