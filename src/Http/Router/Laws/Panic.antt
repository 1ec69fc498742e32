-- ===== src/Http/Router/Laws/Panic.antt =====
-- A route that panics, under the whole chain.
use cloud_ops_manager.Common.{
  ℕ, String, ◌≡◌, refl, false, Option, some, List, [], ◌∷◌, ◌++◌, str_eq, arith, append_assoc,
}
use cloud_ops_manager.Text.{codes}
use cloud_ops_manager.Http.Writer.{
  World, Handler, returned, panicked, on_writer, status_recorder, Layer, Writer, ErrorResponse,
  error_json, header_get, Chunk, Headers, write, write_header, set_header, write_header_layers,
  write_layers,
}
use cloud_ops_manager.Http.Writer.Laws.{IsFresh, Received}
use cloud_ops_manager.Http.Response.{error_response, err_code_internal_error, respond_with_error}
use cloud_ops_manager.Http.Response.Laws.{json_headers, respond_with_error-Received}
use cloud_ops_manager.Http.Middleware.{
  push_status, pop_status, request_entry, request_logging_middleware, is_unlogged,
  recovery_middleware, request_context_middleware, standard_headers_middleware, cors_middleware,
  chain_middleware, panic_entry, pattern_path,
}
use cloud_ops_manager.Http.Metrics.{
  Gauge, Histogram, metrics_path, normalize_method, active_requests_middleware,
  request_duration_middleware, duration_attributes,
}
use cloud_ops_manager.Http.Metrics.Laws.{counted}
use cloud_ops_manager.Http.Router.{
  RouterConfig, Endpoints, Surroundings, Routes, routes, new_router_with_config,
}

-- What stands below the recovery layer.
abbrev pub below_recovery : {S : Type 0} → Surroundings S → List String → Handler S → Handler S
below_recovery around origins mux = chain_middleware mux (
    request_context_middleware
    ∷ standard_headers_middleware around.new_uuid
    ∷ cors_middleware origins
    ∷ [])

-- The world in which it starts, where both instruments are there.
abbrev pub entered : {S : Type 0} → Gauge S → World S → World S
entered gauge w = on_writer push_status (on_writer push_status (counted gauge w))

-- The error that the recovery layer writes, and the world behind it.
abbrev pub internal_error : {S : Type 0} → World S → ErrorResponse
internal_error w =
    error_response err_code_internal_error "An unexpected error occurred"
      (header_get "X-Request-Id" w.request.headers)

-- The recorders take over the status of an answer.
layers-respond_with_error :
    (status a b : ℕ) (ls : List Layer) (e : ErrorResponse) (w : Writer)
    → w.layers ≡ status_recorder a ∷ status_recorder b ∷ ls
    → let w' = respond_with_error status e w in
      (rest : List Layer) × (w'.layers ≡ status_recorder status ∷ status_recorder status ∷ rest)
unfolding respond_with_error write write_header set_header write_header_layers write_layers
layers-respond_with_error status a b ls e w h = rw h (_, refl)

pop-Received :
    (status a b : ℕ) (hs : Headers) (body : List Chunk) (rest : List Layer) (w : Writer)
    → w.layers ≡ status_recorder a ∷ status_recorder b ∷ rest
    → Received status hs body w
    → Received status hs body (pop_status (pop_status w))
pop-Received status a b hs body rest w h (plain, sent, same) = (rw h (rw h at plain), sent, same)

-- What the request leaves behind: the log and the measurements of a status.
abbrev pub measured : {S : Type 0} → Gauge S → Histogram S → String → ℕ → ℕ → World S → S
measured gauge histogram method took status w = gauge.add_minus_one (normalize_method method) (
    histogram took
      (duration_attributes w.request.method status (pattern_path (codes w.request.pattern))) w.env)

module _ {S : Type 0} (gauge : Gauge S) (histogram : Histogram S) (took logged_took : ℕ)
    (stack : String) (inner : Handler S) where
  -- The three layers above the recovery layer, and it.
  abbrev observing : Option (Gauge S) → Option (Histogram S) → Handler S
  observing g h = active_requests_middleware g (
      request_duration_middleware h took
        (request_logging_middleware logged_took (recovery_middleware stack inner)))

  observing-panicked :
      (g : Option (Gauge S)) (h : Option (Histogram S)) (reason : String) (ls : List Layer)
      (w w' : World S)
      → g ≡ some gauge
      → h ≡ some histogram
      → str_eq w.request.path metrics_path ≡ false
      → str_eq w.request.path "/v1/health" ≡ false
      → inner (entered gauge w) ≡ (panicked reason, w')
      → IsFresh w'.writer
      → w'.writer.layers ≡ status_recorder 200 ∷ status_recorder 200 ∷ ls
      → let (exit, done) = observing g h w in
        (exit ≡ returned)
        × Received 500 (json_headers w'.writer) (error_json (internal_error w') ∷ []) done.writer
        × (done.logs
            ≡ w'.logs
              ++ panic_entry stack reason w'.request
                ∷ request_entry logged_took w'.request 500
                ∷ [])
        × (done.env ≡ measured gauge histogram w.request.method took 500 w')
  unfolding active_requests_middleware request_duration_middleware request_logging_middleware
      recovery_middleware
  observing-panicked g h reason ls w w' eg eh metrics health panics fresh top =
      let (rest, over) =
        layers-respond_with_error 500 200 200 ls (internal_error w') w'.writer top in
      let received =
        pop-Received 500 500 500 (json_headers w'.writer) (error_json (internal_error w') ∷ []) rest
          (respond_with_error 500 (internal_error w') w'.writer) over
          (respond_with_error-Received 500 (internal_error w') w'.writer fresh) in
      rw eg (
        rw eh (
          rw metrics (
            rw health
              (rw panics (refl, received, rw over (append_assoc w'.logs _ _), rw over refl)))))

module _ {S : Type 0} (around : Surroundings S) (ends : Endpoints S)
    (serve_mux : Routes S → Handler S) (config : RouterConfig S) where
  -- The request of a route that panics, where both instruments could be created, the path is neither
  -- that of the scrape nor that of the health check, and at the panic nothing was sent and the
  -- writer has the two statusRecorders of the chain, untouched, over other statusRecorders. The
  -- client receives status 500 and one error with the request's id. The log gets the panic and then
  -- the line of the request, with status 500. The histogram gets one measurement, with status 500,
  -- and after it the gauge goes down.
  pub router_recovers :
      (gauge : Gauge S) (histogram : Histogram S) (reason : String) (ls : List Layer)
      (w w' : World S)
      → around.gauge ≡ some gauge
      → around.histogram ≡ some histogram
      → is_unlogged w.request.path ≡ false
      → below_recovery around config.allowed_origins
          (serve_mux (routes around ends config))
          (entered gauge w)
        ≡ (panicked reason, w')
      → IsFresh w'.writer
      → w'.writer.layers ≡ status_recorder 200 ∷ status_recorder 200 ∷ ls
      → let (exit, done) = new_router_with_config around ends serve_mux config w in
        (exit ≡ returned)
        × Received 500 (json_headers w'.writer) (error_json (internal_error w') ∷ []) done.writer
        × (done.logs
            ≡ w'.logs
              ++ panic_entry around.stack reason w'.request
                ∷ request_entry around.logged_took w'.request 500
                ∷ [])
        × (done.env ≡ measured gauge histogram w.request.method around.took 500 w')
  unfolding new_router_with_config
  router_recovers gauge histogram reason ls w w' g h unlogged =
      observing-panicked gauge histogram around.took around.logged_took around.stack
        (below_recovery around config.allowed_origins (serve_mux (routes around ends config)))
        around.gauge around.histogram reason ls w w' g h (ground arith) (ground arith)
