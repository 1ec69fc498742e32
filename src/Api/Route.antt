-- ===== src/Api/Route.antt =====
-- What POST /v1/provision is when it reaches the idempotency middleware.
use cloud_ops_manager.Common.{
  List, ◌&&◌, not, String, ◌≡◌, ◌∙◌, refl, false, some, str_eq, if◌then◌else◌, Bool-cases, inl, inr,
  lookup,
}
use cloud_ops_manager.Text.{Text}
use cloud_ops_manager.Http.Writer.{World, Writer, Handler, returned, on_writer, set_header}
use cloud_ops_manager.Http.Writer.Laws.{IsFresh, header_get-header_set}
use cloud_ops_manager.Http.Writer.Maps.{IsMap, set_header-IsMap}
use cloud_ops_manager.Http.Middleware.{allow_origin, allows, set_request_header, standard_headers}
use cloud_ops_manager.Http.Middleware.Laws.{own_id, allow_origin-IsFresh}
use cloud_ops_manager.Http.Metrics.{Gauge, Histogram}
use cloud_ops_manager.Http.Idempotency.{idempotency_middleware}
use cloud_ops_manager.Http.Idempotency.Laws.Slots.{key_of, IsKeyed}
use cloud_ops_manager.Http.Router.{routes, ttl_or_day}
use cloud_ops_manager.Http.Router.Laws.Panic.{entered}
use cloud_ops_manager.Http.Router.Laws.Passing.{
  identified, shared, at_mux, concluded, router_passes, identified-request,
}
use cloud_ops_manager.Idempotency.RedisStore.{redis_store}
use cloud_ops_manager.Api.{Parts, endpoints, router_config, api, matched, ServesProvision}

-- A request of the route through a writer that nothing was sent through.
pub record IsProvision {S : Type 0} (w : World S) : Type 0 where
  pub method : w.request.method ≡ "POST"
  pub path : w.request.path ≡ "/v1/provision"
  pub fresh : IsFresh w.writer
  pub map : IsMap w.writer.base.headers

-- A world under an id that is known.
abbrev labelled : {S : Type 0} → String → World S → World S
labelled id w =
    on_writer (λ v. set_header "X-Response-Time" w.now (standard_headers id v))
      (set_request_header "X-Request-Id" id w)

key-set_request_header :
    {S : Type 0} (k v : String) (w : World S)
    → str_eq k "X-Idempotency-Key" ≡ false
    → key_of (set_request_header k v w) ≡ key_of w
key-set_request_header k v w h = rw header_get-header_set (rw h refl)

module _ {S : Type 0} (new_uuid : S → String × S) where
  -- The id of a request, and the world behind the ports once it has one.
  abbrev pub given : World S → String × S
  given w = if str_eq (own_id w) "" then new_uuid w.env else (own_id w, w.env)

  pub identified-labelled :
      (w : World S) → identified new_uuid w ≡ labelled (given w).0 (record w { env = (given w).1 })
  unfolding identified
  identified-labelled w = elim (Bool-cases (str_eq (own_id w) "")) [
    | inl e ↦ rw e refl
    | inr e ↦ rw e refl
  ]

  identified-key : (w : World S) → key_of (identified new_uuid w) ≡ key_of w
  identified-key w =
      rw (identified-labelled w)
        (key-set_request_header "X-Request-Id" (given w).0 (record w { env = (given w).1 }) refl)

  labelled-IsFresh : (id : String) (w : World S) → IsFresh w.writer → IsFresh (labelled id w).writer
  unfolding standard_headers set_header
  labelled-IsFresh id w f = record { plain = f.plain; unsent = f.unsent; blank = f.blank }

  identified-IsFresh : (w : World S) → IsFresh w.writer → IsFresh (identified new_uuid w).writer
  identified-IsFresh w f =
      rw (identified-labelled w) (labelled-IsFresh (given w).0 (record w { env = (given w).1 }) f)

-- The headers that the chain sets leave a map a map.
labelled-IsMap :
    {S : Type 0} (id : String) (w : World S)
    → IsMap w.writer.base.headers
    → IsMap (labelled id w).writer.base.headers
unfolding standard_headers
labelled-IsMap id w m = set_header-IsMap _ _ _ (
    set_header-IsMap _ _ _ (
      set_header-IsMap _ _ _ (
        set_header-IsMap _ _ _ (
          set_header-IsMap _ _ _
            (set_header-IsMap _ _ _ (set_header-IsMap _ _ _ (set_header-IsMap _ _ w.writer m)))))))

allow_origin-IsMap :
    (origins : List String) (origin : String) (w : Writer)
    → IsMap w.base.headers
    → IsMap (allow_origin origins origin w).base.headers
allow_origin-IsMap origins origin w m =
    elim (Bool-cases (allows origins origin && not (str_eq origin ""))) [
      | inl h ↦ rw h (set_header-IsMap _ _ _ (set_header-IsMap _ _ _ (set_header-IsMap _ _ w m)))
      | inr h ↦ rw h m
    ]

module _ {S D : Type 0} (parts : Parts S D) where
  -- The provision handler of the route, and the middleware around it.
  abbrev pub handler : Handler S
  handler = (endpoints parts).provision

  abbrev pub guarded : Handler S
  guarded =
      idempotency_middleware (redis_store parts.redis)
        (ttl_or_day parts.around (endpoints parts) parts.ttl) parts.around.valid_uuid
        parts.around.hash handler

  registered :
      lookup "POST /v1/provision" (routes parts.around (endpoints parts) (router_config parts))
      ≡ some guarded
  unfolding routes lookup
  registered = refl

module _ {S D : Type 0} (parts : Parts S D) (gauge : Gauge S) where
  -- The world in which the idempotency middleware starts.
  unfoldable pub arrived : World S → World S
  arrived w =
      matched "POST /v1/provision" (at_mux parts.around.new_uuid parts.allowed_origins gauge w)

  -- The chain leaves the key and the body of a request as they are, sends nothing, and changes the
  -- world behind the ports by the gauge and a new id alone.
  pub arrived-key : (w : World S) → key_of (arrived w) ≡ key_of w
  unfolding arrived shared
  arrived-key w =
      identified-key parts.around.new_uuid
        (set_request_header "X-Request-Start" w.now (entered gauge w))
      ∙ key-set_request_header "X-Request-Start" w.now (entered gauge w) refl

  pub arrived-body : (w : World S) → (arrived w).request.body ≡ w.request.body
  unfolding arrived shared
  arrived-body w =
      (identified-request parts.around.new_uuid
        (set_request_header "X-Request-Start" w.now (entered gauge w))).2

  pub arrived-IsFresh : (w : World S) → IsFresh w.writer → IsFresh (arrived w).writer
  unfolding arrived shared
  arrived-IsFresh w f =
      let w₁ = set_request_header "X-Request-Start" w.now (entered gauge w) in
      allow_origin-IsFresh parts.allowed_origins _ _ (
        identified-IsFresh parts.around.new_uuid w₁
          (record { plain = f.plain; unsent = f.unsent; blank = f.blank }))

  pub arrived-IsMap :
      (w : World S) → IsMap w.writer.base.headers → IsMap (arrived w).writer.base.headers
  unfolding arrived shared
  arrived-IsMap w m =
      let w₁ = set_request_header "X-Request-Start" w.now (entered gauge w) in
      allow_origin-IsMap parts.allowed_origins _ _ (
        rw (identified-labelled parts.around.new_uuid w₁) (
          labelled-IsMap (given parts.around.new_uuid w₁).0
            (record w₁ { env = (given parts.around.new_uuid w₁).1 }) m))

  pub arrived-env :
      (w : World S)
      → (arrived w).env
        ≡ (given parts.around.new_uuid
            (set_request_header "X-Request-Start" w.now (entered gauge w))).1
  unfolding arrived shared
  arrived-env w =
      rw
        (identified-labelled parts.around.new_uuid
          (set_request_header "X-Request-Start" w.now (entered gauge w)))
        refl

  pub arrived-IsKeyed :
      (w : World S) (body : Text)
      → IsKeyed parts.around.valid_uuid w body
      → IsKeyed parts.around.valid_uuid (arrived w) body
  arrived-IsKeyed w body k = record {
    keyed = rw (arrived-key w) k.keyed;
    valid = rw (arrived-key w) k.valid;
    read = arrived-body w ∙ k.read;
  }

  -- The API answers what the middleware around the handler answers, under the chain.
  pub api_is :
      (histogram : Histogram S) (w w' : World S)
      → parts.around.gauge ≡ some gauge
      → parts.around.histogram ≡ some histogram
      → ServesProvision parts.serve_mux
      → IsProvision w
      → guarded parts (arrived w) ≡ (returned, w')
      → api parts w ≡ (
        returned,
        concluded gauge histogram parts.around.took parts.around.logged_took w.request.method w',
      )
  unfolding api arrived shared
  api_is histogram w w' g h serves p answers =
      let same =
        identified-request parts.around.new_uuid
          (set_request_header "X-Request-Start" w.now (entered gauge w)) in
      router_passes parts.around (endpoints parts) parts.serve_mux (router_config parts) gauge
        histogram w w' g h (rw p.path refl) (rw p.method refl)
        (serves _ (guarded parts) _ (registered parts) (same.0 ∙ p.method) (same.1 ∙ p.path)
          ∙ answers)
