-- ===== src/Http/Router/Laws.antt =====
-- What the chain of the router guarantees around any routes.
pub mod Panic
pub mod Passing
use cloud_ops_manager.Common.{
  ℕ, suc, String, ◌≡◌, refl, ◌∙◌, Bool, true, false, Option, some, none, List, [], ◌∷◌, str_eq,
  if◌then◌else◌, Bool-cases, inl, inr, arith, not, ◌&&◌,
}
use cloud_ops_manager.Http.Writer.{World, Handler, Exit, returned, panicked, on_writer}
use cloud_ops_manager.Http.Middleware.{
  Middleware, push_status, request_logging_middleware, logged, is_unlogged, recovery_middleware,
  recovered, request_context_middleware, standard_headers_middleware, request_id_of,
  cors_middleware, chain_middleware, set_request_header,
}
use cloud_ops_manager.Http.Middleware.Laws.{own_id}
use cloud_ops_manager.Http.Metrics.{
  Attribute, Gauge, Histogram, metrics_path, normalize_method, on_env, timed,
  active_requests_middleware, request_duration_middleware,
}
use cloud_ops_manager.Http.Metrics.Laws.{GaugeLaws, active_requests_balanced, counted}
use cloud_ops_manager.Http.Router.{
  RouterConfig, Endpoints, Surroundings, Routes, routes, layers, new_router_with_config,
}

-- A handler that is finished leaves the reading as it was.
abbrev pub Leaves : {S : Type 0} → (String → S → ℕ) → Handler S → Type 0
Leaves active next = (w : World _) (k : String) → active k (next w).1.env ≡ active k w.env

-- A handler that does not panic.
abbrev pub Returns : {S : Type 0} → Handler S → Type 0
Returns next = (w : World _) → (next w).0 ≡ returned

module _ {S : Type 0} where
  recovery-Returns : (stack : String) (next : Handler S) → Returns (recovery_middleware stack next)
  unfolding recovery_middleware
  recovery-Returns stack next w = go (next w)
    where
      go : (p : Exit × World S) → (recovered stack p).0 ≡ returned
      go (returned, w) = refl
      go (panicked reason, w) = refl

  logging-Returns :
      (took : ℕ) (next : Handler S) → Returns next → Returns (request_logging_middleware took next)
  unfolding request_logging_middleware
  logging-Returns took next h w = elim (Bool-cases (is_unlogged w.request.path)) [
    | inl e ↦ rw e (h w)
    | inr e ↦ rw e (go (next (on_writer push_status w)) (h (on_writer push_status w)))
  ]
    where
      go : (p : Exit × World S) → p.0 ≡ returned → (logged took p).0 ≡ returned
      go (returned, w) h = refl
      go (panicked reason, w) h = h

  duration-Returns :
      (histogram : Option (Histogram S)) (took : ℕ) (next : Handler S)
      → Returns next
      → Returns (request_duration_middleware histogram took next)
  unfolding request_duration_middleware
  duration-Returns none took next h w = h w
  duration-Returns (some histogram) took next h w =
      elim (Bool-cases (str_eq w.request.path metrics_path)) [
        | inl e ↦ rw e (h w)
        | inr e ↦ rw e (go (next (on_writer push_status w)) (h (on_writer push_status w)))
      ]
    where
      go : (p : Exit × World S) → p.0 ≡ returned → (timed histogram took p).0 ≡ returned
      go (returned, w) h = refl
      go (panicked reason, w) h = h

  active-Returns :
      (gauge : Option (Gauge S)) (next : Handler S)
      → Returns next
      → Returns (active_requests_middleware gauge next)
  unfolding active_requests_middleware
  active-Returns none next h w = h w
  active-Returns (some gauge) next h w = elim (Bool-cases (str_eq w.request.path metrics_path)) [
    | inl e ↦ rw e (h w)
    | inr e ↦ rw e (h (counted gauge w))
  ]

  module _ (active : String → S → ℕ) where
    cors-Leaves :
        (origins : List String) (next : Handler S)
        → Leaves active next
        → Leaves active (cors_middleware origins next)
    unfolding cors_middleware
    cors-Leaves origins next h w k = elim (Bool-cases (str_eq w.request.method "OPTIONS")) [
      | inl e ↦ rw e refl
      | inr e ↦ rw e (h _ k)
    ]

    standard-Leaves :
        (new_uuid : S → String × S) (next : Handler S)
        → ((s : S) (k : String) → active k (new_uuid s).1 ≡ active k s)
        → Leaves active next
        → Leaves active (standard_headers_middleware new_uuid next)
    unfolding standard_headers_middleware
    standard-Leaves new_uuid next u h w k = h _ k ∙ ids w
      where
        ids : (w : World S) → active k (request_id_of new_uuid w).1.env ≡ active k w.env
        ids w = elim (Bool-cases (str_eq (own_id w) "")) [
          | inl e ↦ rw e (u w.env k)
          | inr e ↦ rw e refl
        ]

    context-Leaves :
        (next : Handler S) → Leaves active next → Leaves active (request_context_middleware next)
    unfolding request_context_middleware
    context-Leaves next h w k = h _ k

    recovery-Leaves :
        (stack : String) (next : Handler S)
        → Leaves active next
        → Leaves active (recovery_middleware stack next)
    unfolding recovery_middleware
    recovery-Leaves stack next h w k = go (next w) ∙ h w k
      where
        go : (p : Exit × World S) → active k (recovered stack p).1.env ≡ active k p.1.env
        go (returned, w) = refl
        go (panicked reason, w) = refl

    logging-Leaves :
        (took : ℕ) (next : Handler S)
        → Leaves active next
        → Leaves active (request_logging_middleware took next)
    unfolding request_logging_middleware
    logging-Leaves took next h w k = elim (Bool-cases (is_unlogged w.request.path)) [
      | inl e ↦ rw e (h w k)
      | inr e ↦ rw e (go (next (on_writer push_status w)) ∙ h (on_writer push_status w) k)
    ]
      where
        go : (p : Exit × World S) → active k (logged took p).1.env ≡ active k p.1.env
        go (returned, w) = refl
        go (panicked reason, w) = refl

    duration-Leaves :
        (histogram : Histogram S) (took : ℕ) (next : Handler S)
        → ((attributes : List Attribute) (s : S) (k : String)
            → active k (histogram took attributes s) ≡ active k s)
        → Leaves active next
        → Leaves active (request_duration_middleware (some histogram) took next)
    unfolding request_duration_middleware
    duration-Leaves histogram took next r h w k =
        elim (Bool-cases (str_eq w.request.path metrics_path)) [
          | inl e ↦ rw e (h w k)
          | inr e ↦ rw e (go (next (on_writer push_status w)) ∙ h (on_writer push_status w) k)
        ]
      where
        go : (p : Exit × World S) → active k (timed histogram took p).1.env ≡ active k p.1.env
        go (returned, w) = r _ w.env k
        go (panicked reason, w) = refl

    active-Leaves :
        (gauge : Gauge S) (next : Handler S)
        → GaugeLaws gauge active
        → Leaves active next
        → Leaves active (active_requests_middleware (some gauge) next)
    unfolding active_requests_middleware
    active-Leaves gauge next laws h w k = elim (Bool-cases (str_eq w.request.path metrics_path)) [
      | inl e ↦ rw e (h w k)
      | inr e ↦ (active_requests_balanced gauge active laws next w (h (counted gauge w)) e).1 k
    ]

  module _ (around : Surroundings S) (ends : Endpoints S) (serve_mux : Routes S → Handler S)
      (config : RouterConfig S) where
    -- No panic leaves the router, whatever the routes do, and whether or not the instruments could
    -- be created.
    router_returns :
        (w : World S) → (new_router_with_config around ends serve_mux config w).0 ≡ returned
    unfolding new_router_with_config
    router_returns = active-Returns around.gauge _ (
        duration-Returns around.histogram around.took _
          (logging-Returns around.logged_took _ (recovery-Returns around.stack _)))

    -- No panic leaves the router, whatever the routes do. Let Add move the gauge of its own
    -- method alone. If the routes, uuid.New and the histogram leave the gauge of the requests in
    -- flight as it is, and both instruments could be created, then the router as a whole leaves
    -- the gauge as it found it, at every request, also where the route panics, and for every
    -- method.
    pub router_balanced :
        (gauge : Gauge S) (histogram : Histogram S) (active : String → S → ℕ)
        → around.gauge ≡ some gauge
        → around.histogram ≡ some histogram
        → GaugeLaws gauge active
        → ((attributes : List Attribute) (s : S) (k : String)
            → active k (histogram around.took attributes s) ≡ active k s)
        → ((s : S) (k : String) → active k (around.new_uuid s).1 ≡ active k s)
        → Leaves active (serve_mux (routes around ends config))
        → Returns (new_router_with_config around ends serve_mux config)
          × Leaves active (new_router_with_config around ends serve_mux config)
    unfolding new_router_with_config
    router_balanced gauge histogram active g h laws recorded fresh inner = (
      router_returns,
      rw g (
          rw h (
            active-Leaves active gauge _ laws (
              duration-Leaves active histogram around.took _ recorded (
                logging-Leaves active around.logged_took _ (
                  recovery-Leaves active around.stack _ (
                    context-Leaves active _ (
                      standard-Leaves active around.new_uuid _ fresh
                        (cors-Leaves active config.allowed_origins _ inner)))))))),
    )
