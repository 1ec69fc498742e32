-- ===== src/Http/Router/Laws/Passing.antt =====
-- A request that a route answers, under the whole chain.
use cloud_ops_manager.Common.{
  ℕ, String, ◌≡◌, ◌∙◌, refl, ap, false, Option, some, List, [], ◌∷◌, ◌++◌, str_eq, arith,
  Bool-cases, inl, inr,
}
use cloud_ops_manager.Http.Writer.{World, Handler, returned, on_writer, header_get, set_header}
use cloud_ops_manager.Http.Middleware.{
  pop_status, request_entry, request_logging_middleware, is_unlogged, recorded_status, rest_of,
  recovery_middleware, request_context_middleware, standard_headers_middleware, cors_middleware,
  set_request_header, request_id_of, standard_headers, allow_origin,
}
use cloud_ops_manager.Http.Middleware.Laws.{own_id}
use cloud_ops_manager.Http.Metrics.{
  Gauge, Histogram, metrics_path, active_requests_middleware, request_duration_middleware,
}
use cloud_ops_manager.Http.Router.{
  RouterConfig, Endpoints, Surroundings, Routes, routes, new_router_with_config,
}
use cloud_ops_manager.Http.Router.Laws.Panic.{below_recovery, entered, measured}

-- The world behind the standard headers: the request has its id, and so has the answer.
unfoldable pub identified : {S : Type 0} → (S → String × S) → World S → World S
identified new_uuid w =
    let (id, w₁) = request_id_of new_uuid w in
    let w₂ = set_request_header "X-Request-Id" id w₁ in
    on_writer (λ v. set_header "X-Response-Time" w₂.now (standard_headers id v)) w₂

-- The world behind the CORS headers of a request that is no preflight.
unfoldable pub shared : {S : Type 0} → List String → World S → World S
shared origins w = on_writer (allow_origin origins (header_get "Origin" w.request.headers)) w

-- The world that the chain hands to the mux, where both instruments are there and the request is
-- no preflight.
abbrev pub at_mux : {S : Type 0} → (S → String × S) → List String → Gauge S → World S → World S
at_mux new_uuid origins gauge w =
    shared origins
      (identified new_uuid (set_request_header "X-Request-Start" w.now (entered gauge w)))

-- What the chain makes of the world that a route leaves: it drops its two recorders, logs the
-- request, measures it, and lets the gauge go down.
abbrev pub concluded : {S : Type 0} → Gauge S → Histogram S → ℕ → ℕ → String → World S → World S
concluded gauge histogram took logged_took method w = record w {
  writer = pop_status (pop_status w.writer);
  logs = w.logs ++ request_entry logged_took w.request (recorded_status w.writer.layers) ∷ [];
  env = measured gauge histogram method took (recorded_status (rest_of w.writer.layers)) w;
}

module _ {S : Type 0} (new_uuid : S → String × S) where
  -- The chain changes nothing of a request but its headers, and of the world behind the ports
  -- only what a new id takes.
  pub identified-request :
      (w : World S)
      → let done = identified new_uuid w in
        (done.request.method ≡ w.request.method)
        × (done.request.path ≡ w.request.path)
        × (done.request.body ≡ w.request.body)
        × (done.now ≡ w.now)
  unfolding identified
  identified-request w = elim (Bool-cases (str_eq (own_id w) "")) [
    | inl e ↦ rw e (refl, refl, refl, refl)
    | inr e ↦ rw e (refl, refl, refl, refl)
  ]

  cors-pass :
      (origins : List String) (mux : Handler S) (v : World S)
      → str_eq v.request.method "OPTIONS" ≡ false
      → cors_middleware origins mux v ≡ mux (shared origins v)
  unfolding cors_middleware shared
  cors-pass origins mux v h = rw h refl

  standard-pass :
      (next : Handler S) (v : World S)
      → standard_headers_middleware new_uuid next v ≡ next (identified new_uuid v)
  unfolding standard_headers_middleware identified
  standard-pass next v = refl

  inside_mux :
      (origins : List String) (gauge : Gauge S) (mux : Handler S) (w : World S)
      → str_eq w.request.method "OPTIONS" ≡ false
      → request_context_middleware
          (standard_headers_middleware new_uuid (cors_middleware origins mux))
          (entered gauge w)
        ≡ mux (at_mux new_uuid origins gauge w)
  unfolding request_context_middleware
  inside_mux origins gauge mux w h =
      let w₁ = set_request_header "X-Request-Start" w.now (entered gauge w) in
      standard-pass (cors_middleware origins mux) w₁
      ∙ cors-pass origins mux (identified new_uuid w₁)
          (ap (λ m. str_eq m "OPTIONS") (identified-request w₁).0 ∙ h)

module _ {S : Type 0} (gauge : Gauge S) (histogram : Histogram S) (took logged_took : ℕ)
    (stack : String) (inner : Handler S) where
  observing-returned :
      (g : Option (Gauge S)) (h : Option (Histogram S)) (w w' : World S)
      → g ≡ some gauge
      → h ≡ some histogram
      → str_eq w.request.path metrics_path ≡ false
      → str_eq w.request.path "/v1/health" ≡ false
      → inner (entered gauge w) ≡ (returned, w')
      → active_requests_middleware g
          (request_duration_middleware h took
            (request_logging_middleware logged_took (recovery_middleware stack inner)))
          w
        ≡ (returned, concluded gauge histogram took logged_took w.request.method w')
  unfolding active_requests_middleware request_duration_middleware request_logging_middleware
      recovery_middleware
  observing-returned g h w w' eg eh metrics health returns =
      rw eg (rw eh (rw metrics (rw health (rw returns refl))))

module _ {S : Type 0} (around : Surroundings S) (ends : Endpoints S)
    (serve_mux : Routes S → Handler S) (config : RouterConfig S) where
  -- The request that a route answers without a panic, where both instruments could be created, the
  -- path is neither that of the scrape nor that of the health check, and the method is not
  -- OPTIONS: the router returns what the chain makes of the world that the route leaves.
  pub router_passes :
      (gauge : Gauge S) (histogram : Histogram S) (w w' : World S)
      → around.gauge ≡ some gauge
      → around.histogram ≡ some histogram
      → is_unlogged w.request.path ≡ false
      → str_eq w.request.method "OPTIONS" ≡ false
      → serve_mux
          (routes around ends config)
          (at_mux around.new_uuid config.allowed_origins gauge w)
        ≡ (returned, w')
      → new_router_with_config around ends serve_mux config w
        ≡ (returned, concluded gauge histogram around.took around.logged_took w.request.method w')
  unfolding new_router_with_config
  router_passes gauge histogram w w' g h unlogged method answers =
      observing-returned gauge histogram around.took around.logged_took around.stack
        (below_recovery around config.allowed_origins (serve_mux (routes around ends config)))
        around.gauge around.histogram w w' g h (ground arith) (ground arith)
        (inside_mux around.new_uuid config.allowed_origins gauge
            (serve_mux (routes around ends config)) w method
          ∙ answers)
