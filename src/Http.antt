-- ===== src/Http.antt =====
-- services/api/internal/adapters/inbound/http: the HTTP side of the API.
pub mod Writer
pub mod Response
pub mod Idempotency
pub mod Validation
pub mod Handlers
pub mod Middleware
pub mod Metrics
pub mod Router
pub mod Pages
