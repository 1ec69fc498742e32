-- ===== src/Http/Idempotency/Laws/Conflicts.antt =====
-- What a client is told when its key is taken.
use cloud_ops_manager.Common.{
  str_eq-false, ℕ, String, ◌≡◌, ◌≢◌, refl, Bool, Option, some, [], ◌∷◌, ok, str_eq_refl,
}
use cloud_ops_manager.Text.{Text}
use cloud_ops_manager.Http.Writer.{
  Handler, World, Writer, header_get, set_header, write_header, Headers, error_json, ErrorResponse,
}
use cloud_ops_manager.Http.Writer.Laws.{
  IsFresh, Received, set_header-IsFresh, header_get-header_set,
}
use cloud_ops_manager.Http.Response.Laws.{respond_with_error-Received}
use cloud_ops_manager.Http.Response.{
  error_response, err_code_idempotency_key_mismatch, err_code_idempotency_in_progress,
}
use cloud_ops_manager.Http.Idempotency.{idempotency_middleware, replay_cached_response}
use cloud_ops_manager.Http.Idempotency.Laws.Slots.{key_of, IsKeyed}
use cloud_ops_manager.Http.Idempotency.Laws.Replay.{middleware_existing}
use cloud_ops_manager.Idempotency.Store.{IdempotencyStore, IdempotencyRecord, IsLawful, in_flight}

module _ {S : Type 0} (store : IdempotencyStore S) (peek : S → String → Option IdempotencyRecord)
    (lawful : IsLawful store peek) (ttl : ℕ) (valid_uuid : String → Bool)
    (hash : Text → String) where
  -- A request whose valid key has a record made for another body receives 422; one whose key is
  -- still in flight for the same body receives 409 with Retry-After 1. In both cases the handler
  -- does not run: behind the ports only the reservation was attempted.
  pub conflict_answers :
      (next : Handler S) (w : World S) (body : Text) (r : IdempotencyRecord)
      (a : Option IdempotencyRecord × Bool)
      → IsKeyed valid_uuid w body
      → peek w.env (key_of w) ≡ some r
      → (store.reserve (key_of w) (hash body) ttl w.env).0 ≡ ok a
      → IsFresh w.writer
      → let result = idempotency_middleware store ttl valid_uuid hash next w in
        (result.1.env ≡ (store.reserve (key_of w) (hash body) ttl w.env).1)
        × (r.request_hash ≢ hash body
            → (hs : Headers) × (e : ErrorResponse) × Received 422 hs
                (error_json e ∷ [])
                result.1.writer
              × (e.code ≡ err_code_idempotency_key_mismatch))
        × (r.request_hash ≡ hash body
            → r.state ≡ in_flight
            → (hs : Headers) × (e : ErrorResponse) × Received 409 hs
                (error_json e ∷ [])
                result.1.writer
              × (e.code ≡ err_code_idempotency_in_progress)
              × (header_get "Retry-After" hs ≡ "1"))
  unfolding replay_cached_response error_response set_header
      cloud_ops_manager.Http.Writer.header_set
  conflict_answers next w body r a k there answered fresh =
      let id = header_get "X-Request-Id" w.request.headers in
      let other =
        error_response err_code_idempotency_key_mismatch
          "Idempotency key was reused with a different request body" id in
      let busy =
        error_response err_code_idempotency_in_progress
          "A request with this idempotency key is still being processed" id in
      let later = set_header "Retry-After" "1" w.writer in
      rw
        (middleware_existing store peek lawful ttl valid_uuid hash next w body r a k there answered)
        (
          refl,
          λ differs. (
            (set_header "Content-Type" "application/json" w.writer).base.headers,
            other,
            rw (str_eq-false r.request_hash (hash body) differs)
                (respond_with_error-Received 422 other w.writer fresh),
            refl,
          ),
          λ same waits. (
            (set_header "Content-Type" "application/json" later).base.headers,
            busy,
            rw (same, str_eq_refl, waits)
                (respond_with_error-Received 409 busy later
                  (set_header-IsFresh "Retry-After" "1" w.writer fresh)),
            refl,
            unfold set_header in rw (header_get-header_set, header_get-header_set),
          ),
        )
