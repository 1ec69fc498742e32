-- ===== src/Http/Metrics.antt =====
-- services/api/internal/adapters/inbound/http/metrics_middleware.go
-- The instruments of OpenTelemetry are arguments: what Add and Record do to the world, or that an
-- instrument could not be created.
pub mod Laws
use cloud_ops_manager.Common.{
  ℕ, String, Bool, true, false, Option, some, none, List, [], ◌∷◌, ◌++◌, any, str_eq, null,
  if◌then◌else◌,
}
use cloud_ops_manager.Text.{Text, codes}
use cloud_ops_manager.Http.Writer.{World, Exit, returned, panicked, on_writer}
use cloud_ops_manager.Http.Middleware.{
  Middleware, push_status, pop_status, recorded_status, pattern_path,
}

abbrev pub metrics_path : String
metrics_path = "/metrics"

abbrev pub known_methods : List String
known_methods =
    "GET" ∷ "HEAD" ∷ "POST" ∷ "PUT" ∷ "PATCH" ∷ "DELETE" ∷ "CONNECT" ∷ "OPTIONS" ∷ "TRACE" ∷ []

unfoldable pub normalize_method : String → String
normalize_method method = if any (str_eq method) known_methods then method else "_OTHER"

-- The labels of one measurement.
pub data Attribute : Type 0 where
  request_method : String → Attribute
  response_status_code : ℕ → Attribute
  route : Text → Attribute

-- The gauge http.server.active_requests: Add with 1 and with -1.
pub record Gauge (S : Type 0) : Type 0 where
  pub add_one : String → S → S
  pub add_minus_one : String → S → S

-- Record of the histogram http.server.request.duration.
abbrev pub Histogram : Type 0 → Type 0
Histogram S = ℕ → List Attribute → S → S

abbrev pub on_env : {S : Type 0} → (S → S) → World S → World S
on_env f w = record w { env = f w.env }

-- No route matched where the pattern is empty.
abbrev pub route_attribute : Text → List Attribute
route_attribute path = if null path then [] else route path ∷ []

abbrev pub duration_attributes : String → ℕ → Text → List Attribute
duration_attributes method status path =
    request_method (normalize_method method) ∷ response_status_code status ∷ route_attribute path

module _ {S : Type 0} where
  -- The deferred Add runs however the handler ends.
  abbrev pub left : Gauge S → String → Exit × World S → Exit × World S
  left gauge method (exit, w) = (exit, on_env (gauge.add_minus_one method) w)

  unfoldable pub active_requests_middleware : Option (Gauge S) → Middleware S
  active_requests_middleware none next w = next w
  active_requests_middleware (some gauge) next w =
      if str_eq w.request.path metrics_path
      then next w
      else (let method = normalize_method w.request.method in
          left gauge method (next (on_env (gauge.add_one method) w)))

  -- `took` is the time that the handler took.
  abbrev pub timed : Histogram S → ℕ → Exit × World S → Exit × World S
  timed histogram took (panicked reason, w) = (panicked reason, on_writer pop_status w)
  timed histogram took (returned, w) = (
    returned,
    on_writer pop_status (
        on_env
          (histogram took (
            duration_attributes w.request.method (recorded_status w.writer.layers)
              (pattern_path (codes w.request.pattern))))
          w),
  )

  unfoldable pub request_duration_middleware : Option (Histogram S) → ℕ → Middleware S
  request_duration_middleware none took next w = next w
  request_duration_middleware (some histogram) took next w =
      if str_eq w.request.path metrics_path
      then next w
      else timed histogram took (next (on_writer push_status w))
