-- ===== src/Http/Middleware.antt =====
-- services/api/internal/adapters/inbound/http/middleware.go and the chain of router.go, with
-- patternPath of metrics_middleware.go. The clock, uuid.New, the debug stack
-- and the time that a handler took are arguments.
pub mod Laws
mod Tests
use cloud_ops_manager.Common.{
  ℕ, String, Bool, true, false, not, ◌&&◌, ◌||◌, List, [], ◌∷◌, ◌++◌, str_eq, any, if◌then◌else◌,
  null, ◌==◌,
}
use cloud_ops_manager.Text.{Text, codes}
use cloud_ops_manager.Logging.{Entry, entry, field, number, text, name, info, error}
use cloud_ops_manager.Http.Writer.{
  Request, World, Handler, Exit, returned, panicked, Writer, Layer, status_recorder, on_writer,
  header_get, header_set, set_header, write_header,
}
use cloud_ops_manager.Http.Response.{
  respond_with_error, error_response, err_code_internal_error, api_version,
}

-- func(http.Handler) http.Handler
abbrev pub Middleware : Type 0 → Type 0
Middleware S = Handler S → Handler S

-- r.Header.Set
abbrev pub set_request_header : {S : Type 0} → String → String → World S → World S
set_request_header k v w = record w {
  request = record w.request { headers = header_set k v w.request.headers };
}

-- The id of a request: its own, the load balancer's, or a new one.
abbrev pub or_else : String → String → String
or_else a b = if str_eq a "" then b else a

unfoldable pub standard_headers : String → Writer → Writer
standard_headers id w = set_header "X-Api-Version" api_version (
    set_header "Pragma" "no-cache" (
      set_header "Cache-Control" "no-store, no-cache, must-revalidate" (
        set_header "X-Xss-Protection" "1; mode=block" (
          set_header "X-Frame-Options" "DENY"
            (set_header "X-Content-Type-Options" "nosniff" (set_header "X-Request-Id" id w))))))

abbrev pub allows : List String → String → Bool
allows origins origin = any (λ o. str_eq o "*" || str_eq o origin) origins

abbrev pub allow_origin : List String → String → Writer → Writer
allow_origin origins origin w =
    if allows origins origin && not (str_eq origin "")
    then set_header "Access-Control-Expose-Headers"
        "X-Request-Id, X-API-Version, X-RateLimit-Limit, X-RateLimit-Remaining, X-RateLimit-Reset"
        (set_header "Access-Control-Allow-Credentials" "true"
          (set_header "Access-Control-Allow-Origin" origin w))
    else w

abbrev pub preflight_headers : Writer → Writer
preflight_headers w = set_header "Access-Control-Max-Age" "86400" (
    set_header "Access-Control-Allow-Headers"
      "Authorization, Content-Type, X-Request-Id, X-Idempotency-Key"
      (set_header "Access-Control-Allow-Methods" "GET, POST, PUT, PATCH, DELETE, OPTIONS" w))

abbrev pub preflight : Writer → Writer
preflight w = write_header 204 (preflight_headers w)

-- The recovery layer: `stack` is what debug.Stack() shows.
abbrev pub panic_entry : String → String → Request → Entry
panic_entry stack reason r = entry error "http request panic recovered" (
    field "error" (name reason)
    ∷ field "method" (name r.method)
    ∷ field "path" (name r.path)
    ∷ field "request_id" (name (header_get "X-Request-Id" r.headers))
    ∷ field "stack" (name stack)
    ∷ [])

-- The status recorder around a handler.
abbrev pub recorded_status : List Layer → ℕ
recorded_status (status_recorder s ∷ ls) = s
recorded_status _ = 200

abbrev pub rest_of : List Layer → List Layer
rest_of [] = []
rest_of (l ∷ ls) = ls

abbrev pub push_status : Writer → Writer
push_status w = record w { layers = status_recorder 200 ∷ w.layers }

abbrev pub pop_status : Writer → Writer
pop_status w = record w { layers = rest_of w.layers }

-- metricsPath and healthPath are not logged.
abbrev pub is_unlogged : String → Bool
is_unlogged path = str_eq path "/metrics" || str_eq path "/v1/health"

-- patternPath, on the matched route: what stands behind the first space.
abbrev pub behind_space : Text → Text → Text
behind_space whole [] = whole
behind_space whole (c ∷ s) = if c == 32 then s else behind_space whole s

unfoldable pub pattern_path : Text → Text
pattern_path pattern = behind_space pattern pattern

-- The line of one request; `took` stands for its duration, which the clock decides.
abbrev pub route_of : Request → Text
route_of r =
    let route = pattern_path (codes r.pattern) in if null route then codes r.path else route

abbrev pub request_entry : ℕ → Request → ℕ → Entry
request_entry took r status = entry info "http request" (
    field "method" (name r.method)
    ∷ field "route" (text (route_of r))
    ∷ field "status" (number status)
    ∷ field "duration_ms" (number took)
    ∷ field "request_id" (name (header_get "X-Request-Id" r.headers))
    ∷ [])

module _ {S : Type 0} where
  -- `new_uuid` is uuid.New().String(), asked only where the request brings no id.
  abbrev pub request_id_of : (S → String × S) → World S → String × World S
  request_id_of new_uuid w =
      let own =
        or_else (header_get "X-Request-Id" w.request.headers)
          (header_get "X-Amzn-Trace-Id" w.request.headers) in
      if str_eq own ""
      then (let (id, env) = new_uuid w.env in (id, record w { env = env }))
      else (own, w)

  unfoldable pub standard_headers_middleware : (S → String × S) → Middleware S
  standard_headers_middleware new_uuid next w =
      let (id, w₁) = request_id_of new_uuid w in
      let w₂ = set_request_header "X-Request-Id" id w₁ in
      next (on_writer (λ v. set_header "X-Response-Time" w₂.now (standard_headers id v)) w₂)

  unfoldable pub cors_middleware : List String → Middleware S
  cors_middleware origins next w =
      let w₁ = on_writer (allow_origin origins (header_get "Origin" w.request.headers)) w in
      if str_eq w.request.method "OPTIONS" then (returned, on_writer preflight w₁) else next w₁

  unfoldable pub request_context_middleware : Middleware S
  request_context_middleware next w = next (set_request_header "X-Request-Start" w.now w)

  abbrev pub recovered : String → Exit × World S → Exit × World S
  recovered stack (returned, w) = (returned, w)
  recovered stack (panicked reason, w) = (
    returned,
    on_writer
        (respond_with_error 500 (
          error_response err_code_internal_error "An unexpected error occurred"
            (header_get "X-Request-Id" w.request.headers)))
        (record w { logs = w.logs ++ panic_entry stack reason w.request ∷ [] }),
  )

  unfoldable pub recovery_middleware : String → Middleware S
  recovery_middleware stack next w = recovered stack (next w)

  abbrev pub logged : ℕ → Exit × World S → Exit × World S
  logged took (panicked reason, w) = (panicked reason, on_writer pop_status w)
  logged took (returned, w) = (
    returned,
    on_writer pop_status (record w {
      logs = w.logs ++ request_entry took w.request (recorded_status w.writer.layers) ∷ [];
    }),
  )

  unfoldable pub request_logging_middleware : ℕ → Middleware S
  request_logging_middleware took next w =
      if is_unlogged w.request.path then next w else logged took (next (on_writer push_status w))

  -- ChainMiddleware: the first middleware is outermost.
  abbrev pub chain_middleware : Handler S → List (Middleware S) → Handler S
  chain_middleware handler [] = handler
  chain_middleware handler (m ∷ ms) = m (chain_middleware handler ms)
