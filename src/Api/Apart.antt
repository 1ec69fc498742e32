-- ===== src/Api/Apart.antt =====
-- Which part of the world each of the API's calls acts on.
use cloud_ops_manager.Common.{
  ℕ, String, ◌≡◌, ◌∙◌, refl, str_eq, Bool-cases, inl, inr, Bool, true, false, List, Result, ok, err,
}
use cloud_ops_manager.Domain.Model.{ProvisionRequest}
use cloud_ops_manager.Http.Writer.{Chunk, World}
use cloud_ops_manager.Http.Metrics.{Gauge, Histogram, Attribute}
use cloud_ops_manager.Idempotency.RedisStore.Server.{Envelope}
use cloud_ops_manager.Idempotency.RedisStore.{
  reserve, complete, get, complete_existing, after_set_nx, GetError, not_found, redis_get,
  unreadable,
}
use cloud_ops_manager.Idempotency.Store.{IdempotencyRecord}
use cloud_ops_manager.Http.Middleware.{set_request_header}
use cloud_ops_manager.Http.Middleware.Laws.{own_id}
use cloud_ops_manager.Http.Router.Laws.Panic.{entered}
use cloud_ops_manager.Http.Router.Laws.Passing.{concluded}
use cloud_ops_manager.Api.{Parts}
use cloud_ops_manager.Api.Route.{arrived, arrived-env, given}

module _ {S D T : Type 0} (parts : Parts S D) (topic : S → T) where
  -- A call that leaves the topic and Redis alone.
  abbrev pub Quiet : (S → S) → Type 0
  Quiet f = (s : S) → (topic (f s) ≡ topic s) × (parts.redis.view (f s) ≡ parts.redis.view s)

  -- The publisher alone acts on the topic, and the Redis client alone on the server's data.
  pub record IsApart (gauge : Gauge S) (histogram : Histogram S) : Type 0 where
    pub up : (m : String) → Quiet (gauge.add_one m)
    pub down : (m : String) → Quiet (gauge.add_minus_one m)
    pub recorded : (took : ℕ) (attributes : List Attribute) → Quiet (histogram took attributes)
    pub request_ids : Quiet (λ s. (parts.around.new_uuid s).1)
    pub provision_ids : Quiet (λ s. (parts.provision_uuid s).1)
    pub publishing :
        (r : ProvisionRequest) (s : S) → parts.redis.view (parts.publish r s).1 ≡ parts.redis.view s
    pub setting :
        (k : String) (v : Envelope) (ttl : ℕ) (s : S)
        → topic (parts.redis.set_nx k v ttl s).1 ≡ topic s
    pub getting : (k : String) (s : S) → topic (parts.redis.get k s).1 ≡ topic s
    pub evaluating : (f : D → ℕ × D) (s : S) → topic (parts.redis.eval f s).1 ≡ topic s

  module _ (gauge : Gauge S) (histogram : Histogram S) (apart : IsApart gauge histogram) where
    get-topic : (k : String) (s : S) → topic (get parts.redis k s).1 ≡ topic s
    unfolding get
    get-topic k s = apart.getting _ s

    after_set_nx-topic :
        (k : String) (e : Envelope) (a : Result String Bool) (t : S)
        → topic (after_set_nx parts.redis k e a t).1 ≡ topic t
    unfolding after_set_nx
    after_set_nx-topic k e (err m) t = refl
    after_set_nx-topic k e (ok true) t = refl
    after_set_nx-topic k e (ok false) t = get-topic k t

    -- Neither a reservation nor a completion publishes.
    pub reserve-topic :
        (k h : String) (ttl : ℕ) (s : S) → topic (reserve parts.redis k h ttl s).1 ≡ topic s
    unfolding reserve
    reserve-topic k h ttl s = after_set_nx-topic k _ _ _ ∙ apart.setting _ _ ttl s

    complete_existing-topic :
        (k : String) (status : ℕ) (headers : List (String × String)) (body : List Chunk)
        (ttl now : ℕ) (a : Result GetError IdempotencyRecord) (s : S)
        → topic (complete_existing parts.redis k status headers body ttl now a s).1 ≡ topic s
    unfolding complete_existing
    complete_existing-topic k status headers body ttl now (err not_found) s = refl
    complete_existing-topic k status headers body ttl now (err (redis_get e)) s = refl
    complete_existing-topic k status headers body ttl now (err (unreadable e)) s = refl
    complete_existing-topic k status headers body ttl now (ok r) s = apart.evaluating _ s

    pub complete-topic :
        (k : String) (status : ℕ) (headers : List (String × String)) (body : List Chunk) (ttl : ℕ)
        (s : S)
        → topic (complete parts.redis k status headers body ttl s).1 ≡ topic s
    unfolding complete
    complete-topic k status headers body ttl s =
        complete_existing-topic k status headers body ttl (parts.redis.time s)
          (get parts.redis k s).0 (get parts.redis k s).1
        ∙ get-topic k s

    given-Quiet :
        (w : World S)
        → (topic (given parts.around.new_uuid w).1 ≡ topic w.env)
          × (parts.redis.view (given parts.around.new_uuid w).1 ≡ parts.redis.view w.env)
    given-Quiet w = elim (Bool-cases (str_eq (own_id w) "")) [
      | inl e ↦ rw e (apart.request_ids w.env)
      | inr e ↦ rw e (refl, refl)
    ]

    -- What the middleware of the router does around a route.
    pub arrived-Quiet :
        (w : World S)
        → (topic (arrived parts gauge w).env ≡ topic w.env)
          × (parts.redis.view (arrived parts gauge w).env ≡ parts.redis.view w.env)
    arrived-Quiet w =
        let v = set_request_header "X-Request-Start" w.now (entered gauge w) in
        let (t, d) = given-Quiet v in
        let (t', d') = apart.up _ w.env in rw (arrived-env parts gauge w) (t ∙ t', d ∙ d')

    pub concluded-Quiet :
        (took logged_took : ℕ) (method : String) (w : World S)
        → let done = concluded gauge histogram took logged_took method w in
          (topic done.env ≡ topic w.env) × (parts.redis.view done.env ≡ parts.redis.view w.env)
    concluded-Quiet took logged_took method w =
        let (t, v) = apart.down _ _ in
        let (t', v') = apart.recorded took _ w.env in (t ∙ t', v ∙ v')
