-- ===== src/Api/Retry.antt =====
-- A retry of POST /v1/provision, through the whole API.
use cloud_ops_manager.Common.{
  String, ℕ, ◌≡◌, ◌∙◌, refl, sym, ap, Bool, Option, some, List, [], ◌∷◌, ok, arith,
}
use cloud_ops_manager.Text.{Text}
use cloud_ops_manager.Domain.Model.{ProvisionRequest}
use cloud_ops_manager.Http.Writer.{
  set_header, World, returned, header_get, Headers, Writer, Chunk, Layer, status_recorder,
  response_recorder,
}
use cloud_ops_manager.Http.Writer.Laws.{Received, Plain, IsFresh}
use cloud_ops_manager.Http.Middleware.{rest_of, pop_status}
use cloud_ops_manager.Http.Response.Laws.{json_headers}
use cloud_ops_manager.Http.Metrics.{Gauge, Histogram}
use cloud_ops_manager.Http.Handlers.Provision.{published}
use cloud_ops_manager.Http.Idempotency.Laws.Slots.{key_of, IsKeyed}
use cloud_ops_manager.Http.Writer.Maps.{IsMap, set_header-IsMap}
use cloud_ops_manager.Http.Idempotency.Laws.Captured.{replayed_value}
use cloud_ops_manager.Http.Idempotency.Laws.Replay.{retry_replays}
use cloud_ops_manager.Idempotency.Store.{IdempotencyRecord}
use cloud_ops_manager.Idempotency.RedisStore.Server.{RedisLaws}
use cloud_ops_manager.Idempotency.RedisStore.{redis_store, peek}
use cloud_ops_manager.Idempotency.RedisStore.Reading.{peek_of_view}
use cloud_ops_manager.Idempotency.RedisStore.Laws.{redis_store-IsLawful}
use cloud_ops_manager.Api.{Parts, api, endpoints, ServesProvision}
use cloud_ops_manager.Api.Route.{
  IsProvision, arrived, guarded, api_is, arrived-key, arrived-IsKeyed, arrived-IsFresh,
  arrived-IsMap,
}
use cloud_ops_manager.Api.Apart.{
  IsApart, reserve-topic, complete-topic, arrived-Quiet, concluded-Quiet,
}
use cloud_ops_manager.Api.First.{
  IsFirst, accepted_document, held, reserves, guarded-Answered, settled, ttl, handled,
  handled-Provisions, completed_lem,
}

Plain-rest : (ls : List Layer) → Plain ls → Plain (rest_of ls)
Plain-rest [] h = h
Plain-rest (status_recorder s ∷ ls) h = h
Plain-rest (response_recorder s wrote b ∷ ls) h = absurd h

-- The recorders of the chain hide nothing.
popped-Received :
    (status : ℕ) (hs : Headers) (body : List Chunk) (w : Writer)
    → Received status hs body w
    → Received status hs body (pop_status (pop_status w))
popped-Received status hs body w (plain, sent, same) =
    (Plain-rest (rest_of w.layers) (Plain-rest w.layers plain), sent, same)

-- How the parts stand together: both instruments are there, ServeMux serves the route, Redis does
-- what it documents, and each call acts on its own part of the world.
pub record IsDeployed {S D T : Type 0} (parts : Parts S D) (topic : S → T) (gauge : Gauge S)
    (histogram : Histogram S) : Type 0 where
  pub gauged : parts.around.gauge ≡ some gauge
  pub timed : parts.around.histogram ≡ some histogram
  pub serves : ServesProvision parts.serve_mux
  pub redis : RedisLaws parts.redis
  pub apart : IsApart parts topic gauge histogram

module _ {S D T : Type 0} (parts : Parts S D) (topic : S → T) (gauge : Gauge S)
    (histogram : Histogram S) (deployed : IsDeployed parts topic gauge histogram) where
  -- What a request of the route that its middleware answers leaves behind.
  passed :
      (w u : World S)
      → IsProvision w
      → guarded parts (arrived parts gauge w) ≡ (returned, u)
      → ((api parts w).0 ≡ returned)
        × ((api parts w).1.writer ≡ pop_status (pop_status u.writer))
        × (topic (api parts w).1.env ≡ topic u.env)
        × (parts.redis.view (api parts w).1.env ≡ parts.redis.view u.env)
  passed w u p answers =
      let same =
        api_is parts gauge histogram w u deployed.gauged deployed.timed deployed.serves p answers in
      let (quiet, still) =
        concluded-Quiet parts topic gauge histogram deployed.apart parts.around.took
          parts.around.logged_took w.request.method u in
      rw same (refl, refl, quiet, still)

  -- Publishing leaves the slots alone.
  published-view :
      (r : ProvisionRequest) (w : World S)
      → parts.redis.view (published parts.marshal parts.publish parts.provision_uuid r w).1
        ≡ parts.redis.view w.env
  published-view r w =
      deployed.apart.publishing _ (parts.provision_uuid w.env).1
      ∙ (deployed.apart.provision_ids w.env).1

  module _ (r : ProvisionRequest) (a a' : World S) (body : Text)
      (b : Option IdempotencyRecord × Bool) (first : IsFirst parts r a body)
      (keyed : IsKeyed parts.around.valid_uuid a body) (fresh : IsFresh a.writer)
      (keyed' : IsKeyed parts.around.valid_uuid a' body) (fresh' : IsFresh a'.writer)
      (map : IsMap a.writer.base.headers) where
    abbrev done : World S
    done = (handled parts r a body first keyed fresh deployed.redis).1

    -- The middleware on a retry of a first request.
    replayed :
        key_of a' ≡ key_of a
        → peek parts.redis a'.env (key_of a) ≡ peek parts.redis (guarded parts a).1.env (key_of a)
        → (reserves parts a' body).0 ≡ ok b
        → (hs : Headers) × ((guarded parts a').0 ≡ returned)
          × ((guarded parts a').1.env ≡ (reserves parts a' body).1)
          × Received 202 hs
              (accepted_document parts (held parts a body) ∷ [])
              (guarded parts a').1.writer
          × ((k : String)
              → header_get k hs ≡ replayed_value (json_headers a.writer) a'.writer.base.headers k)
    replayed same_key same_slot answered =
        let json_map : IsMap (json_headers a.writer) =
          unfold set_header in set_header-IsMap "Content-Type" "application/json" a.writer map in
        let (exits, p) = handled-Provisions parts r a body first keyed fresh deployed.redis in
        let replays =
          retry_replays (redis_store parts.redis) (peek parts.redis)
            (redis_store-IsLawful parts.redis deployed.redis) (ttl parts) parts.around.valid_uuid
            parts.around.hash (endpoints parts).provision (endpoints parts).provision a a' body
            first.slot b keyed first.created
            (peek_of_view parts.redis deployed.redis done.env (held parts a body).env (key_of a)
              (ap parts.redis.view p.env ∙ published-view r (held parts a body)))
            exits (rw p.recorded.status_lem (omega arith))
            (ap (λ x. x.0) (completed_lem parts r a body first keyed fresh deployed.redis)
              ∙ first.completed)
            keyed' same_key same_slot answered fresh' (rw p.recorded.headers_lem json_map) in
        rw (p.recorded.status_lem, p.recorded.body_lem, p.recorded.headers_lem) at replays

  -- A provision request that is retried, through the whole API as it is deployed. Let the first
  -- request have a valid key that is free, pass decoding and validation, be published without an
  -- error, and be completed without one; let a second request have the same key and body, find the
  -- slot as the first left it, and read it without an error; both come through fresh writers with
  -- a map of headers. Then both return. The first client receives status 202 and the document with
  -- the server's own id, and its publication is all that reached the topic. The second client
  -- receives status 202 and the same document, and nothing reaches the topic. Under each name it
  -- gets the replay mark; for a name that is not kept, what the chain set for the second request;
  -- and else what the first client got, if it got anything, or what the chain set.
  pub retry_publishes_once :
      (r : ProvisionRequest) (w w' : World S) (body : Text) (b : Option IdempotencyRecord × Bool)
      → IsProvision w
      → IsKeyed parts.around.valid_uuid w body
      → IsFirst parts r (arrived parts gauge w) body
      → IsProvision w'
      → IsKeyed parts.around.valid_uuid w' body
      → key_of w' ≡ key_of w
      → peek parts.redis w'.env (key_of w) ≡ peek parts.redis (api parts w).1.env (key_of w)
      → (reserves parts (arrived parts gauge w') body).0 ≡ ok b
      → let a = arrived parts gauge w in
        let document = accepted_document parts (held parts a body) ∷ [] in
        (hs : Headers) × ((api parts w).0 ≡ returned)
        × Received 202 (json_headers a.writer) document (api parts w).1.writer
        × (topic (api parts w).1.env
            ≡ topic
                (published parts.marshal parts.publish parts.provision_uuid r
                  (held parts a body)).1)
        × ((api parts w').0 ≡ returned)
        × Received 202 hs document (api parts w').1.writer
        × ((k : String)
            → header_get k hs
              ≡ replayed_value
                  (json_headers a.writer)
                  (arrived parts gauge w').writer.base.headers
                  k)
        × (topic (api parts w').1.env ≡ topic w'.env)
  retry_publishes_once r w w' body b p k first p' k' same_key same_slot answered =
      let a = arrived parts gauge w in
      let a' = arrived parts gauge w' in
      let keyed = arrived-IsKeyed parts gauge w body k in
      let keyed' = arrived-IsKeyed parts gauge w' body k' in
      let fresh = arrived-IsFresh parts gauge w p.fresh in
      let fresh' = arrived-IsFresh parts gauge w' p'.fresh in
      let (first_lem, left) = guarded-Answered parts r a body first keyed fresh deployed.redis in
      let u = settled parts r a body first keyed fresh deployed.redis in
      let (returns, wrote, put, still) = passed w u p first_lem in
      let (put₀, still₀) = arrived-Quiet parts topic gauge histogram deployed.apart w' in
      let slots : peek parts.redis a'.env (key_of w)
          ≡ peek parts.redis (guarded parts a).1.env (key_of w) =
        peek_of_view parts.redis deployed.redis a'.env w'.env (key_of w) still₀
        ∙ (same_slot
            ∙ (peek_of_view parts.redis deployed.redis (api parts w).1.env u.env (key_of w) still
                ∙ sym (ap (λ q. peek parts.redis q.1.env (key_of w)) first_lem))) in
      let (hs, exits, env, received, marked) =
        replayed r a a' body b first keyed fresh keyed' fresh' (arrived-IsMap parts gauge w p.map)
          (arrived-key parts gauge w' ∙ (same_key ∙ sym (arrived-key parts gauge w)))
          (rw (arrived-key parts gauge w) slots) answered in
      let (returns', wrote', put', still') =
        passed w' (guarded parts a').1 p' (ap (λ e. (e, (guarded parts a').1)) exits) in
      (
        hs,
        returns,
        rw wrote (popped-Received _ _ _ u.writer left.received),
        put
            ∙ (ap topic left.env
                ∙ complete-topic parts topic gauge histogram deployed.apart _ _ _ _ _ _),
        returns',
        rw wrote' (popped-Received _ _ _ (guarded parts a').1.writer received),
        marked,
        put'
            ∙ (ap topic env
                ∙ (reserve-topic parts topic gauge histogram deployed.apart _ _ _ _ ∙ put₀)),
      )
