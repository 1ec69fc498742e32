-- ===== src/Api.antt =====
-- The whole API as initializeHandlers and initializeServer of
-- services/api/internal/bootstrap/application.go put it together: the resource handler behind the
-- idempotency middleware over the Redis store, behind the router and its middleware.
pub mod Route
pub mod First
pub mod Apart
pub mod Retry
mod Tests
use cloud_ops_manager.Common.{ℕ, String, ◌≡◌, Option, some, List, Result, lookup}
use cloud_ops_manager.Text.{Text}
use cloud_ops_manager.Domain.Errors.{GoError}
use cloud_ops_manager.Domain.Model.{ProvisionRequest}
use cloud_ops_manager.Publish.{Publisher}
use cloud_ops_manager.Http.Writer.{World, Handler}
use cloud_ops_manager.Http.Validation.{FieldError}
use cloud_ops_manager.Http.Handlers.{provision}
use cloud_ops_manager.Http.Router.{
  RouterConfig, Endpoints, Surroundings, Routes, new_router_with_config,
}
use cloud_ops_manager.Idempotency.RedisStore.Server.{Redis}
use cloud_ops_manager.Idempotency.RedisStore.{redis_store}

-- What the application is put together from: the Redis client, the surroundings of the middleware,
-- the handlers of the other routes, the decoder and the validator, the publisher with its codec,
-- uuid.NewString, http.ServeMux, and the configuration.
pub record Parts (S D : Type 0) : Type 0 where
  pub redis : Redis S D
  pub around : Surroundings S
  pub others : Endpoints S
  pub beyond : ℕ → ℕ
  pub decode : Result String Text → Option ProvisionRequest
  pub check : ProvisionRequest → List FieldError
  pub marshal : ProvisionRequest → Result GoError Text
  pub publish : Publisher S
  pub provision_uuid : S → Text × S
  pub serve_mux : Routes S → Handler S
  pub allowed_origins : List String
  pub ttl : ℕ
  pub metrics_handler : Option (Handler S)

module _ {S D : Type 0} (parts : Parts S D) where
  -- initializeHandlers
  abbrev pub endpoints : Endpoints S
  endpoints = record parts.others {
    provision =
        provision parts.marshal parts.publish parts.provision_uuid parts.beyond parts.decode
          parts.check;
  }

  abbrev pub router_config : RouterConfig S
  router_config = record {
    allowed_origins = parts.allowed_origins;
    idempotency_store = some (redis_store parts.redis);
    idempotency_ttl = parts.ttl;
    metrics_handler = parts.metrics_handler;
  }

  -- The router of initializeServer.
  unfoldable pub api : Handler S
  api = new_router_with_config parts.around endpoints parts.serve_mux router_config

-- What http.ServeMux documents: a request of POST /v1/provision goes to the handler that is
-- registered for it, with the pattern in the request.
abbrev pub matched : {S : Type 0} → String → World S → World S
matched pattern w = record w { request = record w.request { pattern = pattern } }

abbrev pub ServesProvision : {S : Type 0} → (Routes S → Handler S) → Type 0
ServesProvision {S} serve_mux =
    (rs : Routes S) (h : Handler S) (w : World S)
    → lookup "POST /v1/provision" rs ≡ some h
    → w.request.method ≡ "POST"
    → w.request.path ≡ "/v1/provision"
    → serve_mux rs w ≡ h (matched "POST /v1/provision" w)
