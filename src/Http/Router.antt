-- ===== src/Http/Router.antt =====
-- services/api/internal/adapters/inbound/http/router.go
-- http.ServeMux is an argument: what it makes of the registered patterns and their handlers.
pub mod Laws
mod Tests
use cloud_ops_manager.Common.{
  ℕ, ◌*◌, String, Bool, Option, some, none, List, [], ◌∷◌, ◌++◌, ◌==◌, if◌then◌else◌,
}
use cloud_ops_manager.Text.{Text}
use cloud_ops_manager.Http.Writer.{Handler}
use cloud_ops_manager.Http.Middleware.{
  Middleware, chain_middleware, request_logging_middleware, recovery_middleware,
  request_context_middleware, standard_headers_middleware, cors_middleware,
}
use cloud_ops_manager.Http.Metrics.{
  Gauge, Histogram, active_requests_middleware, request_duration_middleware,
}
use cloud_ops_manager.Http.Idempotency.{idempotency_middleware}
use cloud_ops_manager.Idempotency.Store.{IdempotencyStore}

-- The fields of RouterConfig but for the logger, which every handler has; none stands for nil, and
-- the time to live is in nanoseconds.
pub record RouterConfig (S : Type 0) : Type 0 where
  pub allowed_origins : List String
  pub idempotency_store : Option (IdempotencyStore S)
  pub idempotency_ttl : ℕ
  pub metrics_handler : Option (Handler S)

abbrev pub day : ℕ
day = 24 * 3600 * 1000000000

abbrev pub default_router_config : {S : Type 0} → RouterConfig S
default_router_config = record {
  allowed_origins = "*" ∷ [];
  idempotency_store = none;
  idempotency_ttl = day;
  metrics_handler = none;
}

-- The methods of the four handler objects that the routes name.
pub record Endpoints (S : Type 0) : Type 0 where
  pub provision : Handler S
  pub health_check : Handler S
  pub sign_up : Handler S
  pub sign_in : Handler S
  pub confirm_sign_up : Handler S
  pub swagger_ui : Handler S

-- What the middleware takes from outside: the two instruments, the duration that each of the two
-- recorders measures, debug.Stack, uuid.New, uuid.Parse, and the hash.
pub record Surroundings (S : Type 0) : Type 0 where
  pub gauge : Option (Gauge S)
  pub histogram : Option (Histogram S)
  pub took : ℕ
  pub logged_took : ℕ
  pub stack : String
  pub new_uuid : S → String × S
  pub valid_uuid : String → Bool
  pub hash : Text → String

-- What is registered, in the order of registration.
abbrev pub Routes : Type 0 → Type 0
Routes S = List (String × Handler S)

module _ {S : Type 0} (around : Surroundings S) (ends : Endpoints S) where
  abbrev pub ttl_or_day : ℕ → ℕ
  ttl_or_day ttl = if ttl == 0 then day else ttl

  -- POST /v1/provision, in the idempotency middleware if there is a store.
  abbrev pub provision_route : Option (IdempotencyStore S) → ℕ → Handler S
  provision_route none ttl = ends.provision
  provision_route (some store) ttl =
      idempotency_middleware store (ttl_or_day ttl) around.valid_uuid around.hash ends.provision

  abbrev pub metrics_route : Option (Handler S) → Routes S
  metrics_route none = []
  metrics_route (some h) = ("GET /metrics", h) ∷ []

  unfoldable pub routes : RouterConfig S → Routes S
  routes config =
      ("POST /v1/provision", provision_route config.idempotency_store config.idempotency_ttl)
      ∷ ("GET /v1/health", ends.health_check)
      ∷ (metrics_route config.metrics_handler
          ++ ("POST /v1/auth/signup", ends.sign_up)
            ∷ ("POST /v1/auth/signin", ends.sign_in)
            ∷ ("POST /v1/auth/confirm", ends.confirm_sign_up)
            ∷ ("GET /v1/swagger", ends.swagger_ui)
            ∷ ("GET /v1/swagger/", ends.swagger_ui)
            ∷ [])

  -- The middleware of the chain, outermost first.
  abbrev pub layers : List String → List (Middleware S)
  layers origins =
      active_requests_middleware around.gauge
      ∷ request_duration_middleware around.histogram around.took
      ∷ request_logging_middleware around.logged_took
      ∷ recovery_middleware around.stack
      ∷ request_context_middleware
      ∷ standard_headers_middleware around.new_uuid
      ∷ cors_middleware origins
      ∷ []

  unfoldable pub new_router_with_config : (Routes S → Handler S) → RouterConfig S → Handler S
  unfolding routes
  new_router_with_config serve_mux config =
      chain_middleware (serve_mux (routes config)) (layers config.allowed_origins)

  abbrev pub new_router : (Routes S → Handler S) → Handler S
  new_router serve_mux = new_router_with_config serve_mux default_router_config
