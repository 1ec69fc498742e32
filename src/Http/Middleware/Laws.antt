-- ===== src/Http/Middleware/Laws.antt =====
-- What the middleware guarantees around any handler.
use cloud_ops_manager.Common.{
  inr, inl, Bool-cases, String, ◌≡◌, refl, true, false, not, ◌&&◌, List, [], ◌∷◌, ◌++◌, arith,
  str_eq, if◌then◌else◌,
}
use cloud_ops_manager.Http.Writer.{
  World, Handler, returned, panicked, Writer, on_writer, header_get, set_header, error_json,
}
use cloud_ops_manager.Http.Writer.Laws.{
  IsFresh, Received, set_header-IsFresh, write_header-Received, header_get-header_set,
}
use cloud_ops_manager.Http.Response.{error_response, err_code_internal_error}
use cloud_ops_manager.Http.Response.Laws.{json_headers, respond_with_error-Received}
use cloud_ops_manager.Http.Handlers.{get_request_id}
use cloud_ops_manager.Http.Middleware.{
  preflight_headers, recovery_middleware, panic_entry, standard_headers_middleware,
  standard_headers, request_id_of, cors_middleware, allows, allow_origin, set_request_header,
  or_else,
}

pub allow_origin-IsFresh :
    (origins : List String) (origin : String) (w : Writer)
    → IsFresh w
    → IsFresh (allow_origin origins origin w)
allow_origin-IsFresh origins origin w f =
    elim (Bool-cases (allows origins origin && not (str_eq origin ""))) [
      | inl h ↦
          rw h (set_header-IsFresh _ _ _ (set_header-IsFresh _ _ _ (set_header-IsFresh _ _ w f)))
      | inr h ↦ rw h f
    ]

allowed_origin :
    (origins : List String) (origin : String) (w : Writer)
    → header_get "Access-Control-Allow-Origin"
        (preflight_headers (allow_origin origins origin w)).base.headers
      ≡ (if allows origins origin && not (str_eq origin "")
          then origin
          else header_get "Access-Control-Allow-Origin" w.base.headers)
unfolding set_header
allowed_origin origins origin w =
    elim (Bool-cases (allows origins origin && not (str_eq origin ""))) [
      | inl h ↦ rw h (simp (header_get-header_set))
      | inr h ↦ rw h (simp (header_get-header_set))
    ]

-- The id that a request brings.
abbrev pub own_id : {S : Type 0} → World S → String
own_id w =
    or_else (header_get "X-Request-Id" w.request.headers)
      (header_get "X-Amzn-Trace-Id" w.request.headers)

-- What StandardHeadersMiddleware hands to the next handler, under an id.
abbrev handed : {S : Type 0} → String → World S → World S
handed id w =
    on_writer (λ v. set_header "X-Response-Time" w.now (standard_headers id v))
      (set_request_header "X-Request-Id" id w)

module _ {S : Type 0} where
  -- A panic that nothing was sent before: the recovery layer returns, the client has received
  -- status 500 and one error with the request's id, and the log has one more entry.
  recovery_answers :
      (stack reason : String) (next : Handler S) (w w' : World S)
      → next w ≡ (panicked reason, w')
      → IsFresh w'.writer
      → let (exit, done) = recovery_middleware stack next w in
        (exit ≡ returned)
        × (done.env ≡ w'.env)
        × (done.logs ≡ w'.logs ++ panic_entry stack reason w'.request ∷ [])
        × Received 500
            (json_headers w'.writer)
            (error_json (
                error_response err_code_internal_error "An unexpected error occurred"
                  (header_get "X-Request-Id" w'.request.headers))
              ∷ [])
            done.writer
  unfolding recovery_middleware
  recovery_answers stack reason next w w' h f =
      rw h (refl, refl, refl, respond_with_error-Received 500 _ w'.writer f)

  request_id_same :
      (id : String) (w : World S)
      → let w' =
          on_writer
            (λ v. set_header "X-Response-Time" w.now (standard_headers id v))
            (set_request_header "X-Request-Id" id w) in
        (header_get "X-Request-Id" w'.request.headers ≡ id)
        × (header_get "X-Request-Id" w'.writer.base.headers ≡ id)
        × (header_get "Cache-Control" w'.writer.base.headers
            ≡ "no-store, no-cache, must-revalidate")
  unfolding set_header standard_headers
  request_id_same id w = simp (header_get-header_set) (refl, refl, refl)

  request_id_ne :
      (new_uuid : S → String × S) (w : World S)
      → str_eq (new_uuid w.env).0 "" ≡ false
      → str_eq (request_id_of new_uuid w).0 "" ≡ false
  request_id_ne new_uuid w h = elim (Bool-cases (str_eq (own_id w) "")) [
    | inl e ↦ rw e h
    | inr e ↦ rw e e
  ]

  -- Where a new id would not be empty, the handler gets a request with the client's own id, or
  -- else the load balancer's, or else the new one. getRequestID finds it, and the response carries
  -- the same id and is not to be cached.
  standard_headers_share_id :
      (new_uuid : S → String × S) (next : Handler S) (w : World S)
      → str_eq (new_uuid w.env).0 "" ≡ false
      → let (id, w₁) = request_id_of new_uuid w in
        let w' = handed id w₁ in
        (standard_headers_middleware new_uuid next w ≡ next w')
        × (id ≡ (if str_eq (own_id w) "" then (new_uuid w.env).0 else own_id w))
        × (get_request_id w'.request ≡ id)
        × (header_get "X-Request-Id" w'.writer.base.headers ≡ id)
        × (header_get "Cache-Control" w'.writer.base.headers
            ≡ "no-store, no-cache, must-revalidate")
  unfolding standard_headers_middleware get_request_id
  standard_headers_share_id new_uuid next w h =
      let (id, w₁) = request_id_of new_uuid w in
      let (seen, sent, cache) = request_id_same id w₁ in
      (refl, ground arith, rw seen (rw (request_id_ne new_uuid w h) refl), sent, cache)

  -- A preflight request never reaches the handler: through a fresh writer the client has received
  -- status 204 and no body. The answer names the request's origin where the list allows it, and
  -- otherwise no origin that was not there before.
  cors_preflight :
      (origins : List String) (next : Handler S) (w : World S)
      → IsFresh w.writer
      → str_eq w.request.method "OPTIONS" ≡ true
      → let origin = header_get "Origin" w.request.headers in
        let headers = (preflight_headers (allow_origin origins origin w.writer)).base.headers in
        let (exit, done) = cors_middleware origins next w in
        (exit ≡ returned)
        × (done.env ≡ w.env)
        × Received 204 headers [] done.writer
        × (header_get "Access-Control-Allow-Origin" headers ≡ (
            if allows origins origin && not (str_eq origin "")
            then origin
            else header_get "Access-Control-Allow-Origin" w.writer.base.headers))
  unfolding cors_middleware
  cors_preflight origins next w f h =
      let origin = header_get "Origin" w.request.headers in
      let set_up = preflight_headers (allow_origin origins origin w.writer) in
      rw h (
        refl,
        refl,
        write_header-Received 204 set_up (
            set_header-IsFresh _ _ _ (
              set_header-IsFresh _ _ _
                (set_header-IsFresh _ _ _ (allow_origin-IsFresh origins origin w.writer f)))),
        allowed_origin origins origin w.writer,
      )
