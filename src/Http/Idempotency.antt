-- ===== src/Http/Idempotency.antt =====
-- services/api/internal/adapters/inbound/http/idempotency_middleware.go
-- The store, uuid.Parse and the hash (hex of SHA-256) are arguments.
pub mod Laws
pub mod Interleaving
mod Tests
use cloud_ops_manager.Common.{
  ℕ, String, Bool, true, false, not, Option, some, none, List, [], ◌∷◌, Result, ok, err, str_eq,
  ltb, ◌==◌, if◌then◌else◌, any, ◌++◌,
}
use cloud_ops_manager.Text.{Text}
use cloud_ops_manager.Http.Writer.{
  Headers, Handler, World, Writer, Layer, response_recorder, status_recorder, Exit, returned,
  panicked, Chunk, on_writer, header_get, set_header, write_header, write, is_empty, Base,
}
use cloud_ops_manager.Http.Response.{
  respond_with_error, error_response, err_code_idempotency_key_invalid, err_code_invalid_json,
  err_code_internal_error, err_code_idempotency_key_mismatch, err_code_idempotency_in_progress,
}
use cloud_ops_manager.Idempotency.Store.{
  IdempotencyStore, IdempotencyRecord, IdempotencyState, in_flight, completed,
}

abbrev pub header_idempotency_key : String
header_idempotency_key = "X-Idempotency-Key"

abbrev pub idempotency_replay_header : String
idempotency_replay_header = "X-Idempotent-Replay"

-- A status of 0 counts as 200.
abbrev pub or_ok : ℕ → ℕ
or_ok status = if status == 0 then 200 else status

unfoldable pub should_cache_response : ℕ → Bool
should_cache_response status = ltb (or_ok status) 500

abbrev pub skipped : List String
skipped =
    "Date" ∷ "X-Request-Id" ∷ "X-Response-Time" ∷ "Content-Length" ∷ "Transfer-Encoding"
    ∷ "Connection" ∷ []

unfoldable pub is_skipped : String → Bool
is_skipped k = any (str_eq k) skipped

abbrev pub captured : String → List String → List (String × String) → List (String × String)
captured k [] out = out
captured k (v ∷ vs) out = if is_skipped k then out else (k, v) ∷ out

-- The first value of each header that is not skipped.
unfoldable pub captured_headers : Headers → List (String × String)
unfolding is_skipped
captured_headers [] = []
captured_headers ((k, vs) ∷ hs) = captured k vs (captured_headers hs)

-- The recorder on top of the writer, and the writer below it.
abbrev pub top_status : List Layer → ℕ
top_status (response_recorder status wrote body ∷ ls) = status
top_status _ = 200

abbrev pub top_body : List Layer → List Chunk
top_body (response_recorder status wrote body ∷ ls) = body
top_body _ = []

abbrev pub pop : List Layer → List Layer
pop [] = []
pop (l ∷ ls) = ls

-- newResponseRecorder(w)
abbrev pub push_recorder : Writer → Writer
push_recorder w = record w { layers = response_recorder 200 false [] ∷ w.layers }

abbrev pub pop_recorder : Writer → Writer
pop_recorder w = record w { layers = pop w.layers }

abbrev pub set_headers : List (String × String) → Writer → Writer
set_headers [] w = w
set_headers ((k, v) ∷ hs) w = set_headers hs (set_header k v w)

abbrev pub write_body : List Chunk → Writer → Writer
write_body [] w = w
write_body (c ∷ cs) w = write_body cs (write c w)

abbrev pub is_in_flight : IdempotencyState → Bool
is_in_flight in_flight = true
is_in_flight completed = false

-- The stored headers, the replay mark, the stored status (200 if it is 0), the stored body.
unfoldable pub replay : IdempotencyRecord → Writer → Writer
replay r w =
    let w' =
      write_header (or_ok r.status_code)
        (set_header idempotency_replay_header "true" (set_headers r.headers w)) in
    if is_empty r.body then w' else write_body r.body w'

unfoldable pub replay_cached_response : Option IdempotencyRecord → String → String → Writer → Writer
unfolding replay
replay_cached_response none hash id w =
    respond_with_error 500
      (error_response err_code_internal_error
        "Idempotency record missing after reservation conflict" id)
      w
replay_cached_response (some r) hash id w =
    if not (str_eq r.request_hash hash)
    then respond_with_error 422
        (error_response err_code_idempotency_key_mismatch
          "Idempotency key was reused with a different request body" id)
        w
    else if is_in_flight r.state
    then respond_with_error 409
        (error_response err_code_idempotency_in_progress
          "A request with this idempotency key is still being processed" id)
        (set_header "Retry-After" "1" w)
    else replay r w

module _ {S : Type 0} (store : IdempotencyStore S) (ttl : ℕ) (valid_uuid : String → Bool)
    (hash : Text → String) (next : Handler S) where
  -- An answer of the middleware itself.
  abbrev pub answer : (Writer → Writer) → World S → Exit × World S
  answer f w = (returned, on_writer f w)

  -- A failed completion only marks the headers, which may be on the wire already.
  abbrev pub mark : Result String Unit → World S → World S
  mark (ok _) w = w
  mark (err e) w = on_writer (set_header "X-Idempotent-Cache" "store-failed") w

  unfoldable pub release : String → World S → World S
  release key w = record w { env = (store.release key w.env).1 }

  -- Keeps the response, with the recorder still around the writer.
  unfoldable pub complete : String → World S → World S
  complete key w =
      let (result, env) =
        store.complete key (top_status w.writer.layers) (captured_headers w.writer.base.headers)
          (top_body w.writer.layers) ttl w.env in
      mark result (record w { env = env })

  -- What follows the handler: a panic frees the slot and goes on; a response below 500 is kept,
  -- and any other frees the slot.
  unfoldable pub finish : String → Exit → World S → Exit × World S
  unfolding release complete
  finish key (panicked message) w = (panicked message, on_writer pop_recorder (release key w))
  finish key returned w = (
    returned,
    on_writer pop_recorder (
        if should_cache_response (top_status w.writer.layers)
        then complete key w
        else release key w),
  )

  -- What follows the answer of Reserve.
  unfoldable pub reserved :
      String
      → String
      → String
      → Result String (Option IdempotencyRecord × Bool)
      → World S
      → Exit × World S
  unfolding finish
  reserved key request_hash id (err e) w =
      answer
        (respond_with_error 500
          (error_response err_code_internal_error "Idempotency store unavailable" id))
        w
  reserved key request_hash id (ok (existing, false)) w =
      answer (replay_cached_response existing request_hash id) w
  reserved key request_hash id (ok (existing, true)) w =
      let (exit, w') = next (on_writer push_recorder w) in finish key exit w'

  -- What follows the reading of the body.
  unfoldable pub with_body : String → String → Result String Text → World S → Exit × World S
  unfolding reserved
  with_body key id (err e) w =
      answer
        (respond_with_error 400
          (error_response err_code_invalid_json "Failed to read request body" id))
        w
  with_body key id (ok body) w =
      let request_hash = hash body in
      let (result, env) = store.reserve key request_hash ttl w.env in
      reserved key request_hash id result (record w { env = env })

  unfoldable pub idempotency_middleware : Handler S
  idempotency_middleware w =
      let key = header_get header_idempotency_key w.request.headers in
      let id = header_get "X-Request-Id" w.request.headers in
      if str_eq key ""
      then next w
      else if not (valid_uuid key)
      then answer
          (respond_with_error 400 (
            error_response err_code_idempotency_key_invalid "X-Idempotency-Key must be a valid UUID"
              id))
          w
      else with_body key id w.request.body w
