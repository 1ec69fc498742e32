-- ===== src/Http/Writer.antt =====
-- What the handlers see of net/http: requests, header maps, and the response writer under the
-- recorders that the middleware puts around it (statusRecorder of metrics_middleware.go and
-- responseRecorder of idempotency_middleware.go). Header names are written in canonical form.
-- A JSON document in a body is kept as the value that was encoded.
pub mod Laws
pub mod Maps
use cloud_ops_manager.Common.{
  ℕ, String, Bool, true, false, Option, some, none, List, [], ◌∷◌, ◌++◌, Result, ok, err, lookup,
  insert, if◌then◌else◌, all, null,
}
use cloud_ops_manager.Text.{Text}
use cloud_ops_manager.Logging.{Entry}
use cloud_ops_manager.Config.{Signed}

-- http.Header: each name with its values.
abbrev pub Headers : Type 0
Headers = List (String × List String)

abbrev pub first : Option (List String) → String
first none = ""
first (some []) = ""
first (some (v ∷ vs)) = v

unfoldable pub header_get : String → Headers → String
header_get k hs = first (lookup k hs)

unfoldable pub header_set : String → String → Headers → Headers
header_set k v hs = insert k (v ∷ []) hs

-- ValidationError and ErrorResponse of validation.go.
pub record ValidationError : Type 0 where
  pub field : Text
  pub message : Text
  pub value : Option Text

pub record ErrorResponse : Type 0 where
  pub code : String
  pub message : Text
  pub request_id : String
  pub details : List ValidationError

-- The payloads of response.go that the handlers answer with, and AuthResponse of model/auth.go.
pub record AcceptedResponse : Type 0 where
  pub message : String
  pub request_id : String
  pub provision_id : Text
  pub status : String

pub record CreatedResponse : Type 0 where
  pub message : String
  pub status : String

pub record MessageResponse : Type 0 where
  pub message : String
  pub status : String

pub record AuthResponse : Type 0 where
  pub access_token : Text
  pub refresh_token : Text
  pub id_token : Text
  pub expires_in : Signed
  pub token_type : Text

pub data Payload : Type 0 where
  accepted : AcceptedResponse → Payload
  created : CreatedResponse → Payload
  message : MessageResponse → Payload
  auth : AuthResponse → Payload

-- APIResponse with its ResponseMeta.
pub record ApiResponse : Type 0 where
  pub success : Bool
  pub payload : Payload
  pub request_id : String
  pub timestamp : String
  pub api_version : String

-- What one call of Write, or of a JSON encoder, adds to a body.
pub data Chunk : Type 0 where
  raw : Text → Chunk
  error_json : ErrorResponse → Chunk
  api_json : ApiResponse → Chunk

abbrev pub is_empty_chunk : Chunk → Bool
is_empty_chunk (raw s) = null s
is_empty_chunk _ = false

-- len(body) == 0
abbrev pub is_empty : List Chunk → Bool
is_empty = all is_empty_chunk

-- A recorder around the writer: statusRecorder with its status, or responseRecorder with its
-- status, wroteHeader and body.
pub data Layer : Type 0 where
  status_recorder : ℕ → Layer
  response_recorder : ℕ → Bool → List Chunk → Layer

-- The server's own writer: the header map, the status line and headers once they are sent, and
-- the body so far.
pub record Base : Type 0 where
  pub headers : Headers
  pub sent : Option (ℕ × Headers)
  pub body : List Chunk

pub record Writer : Type 0 where
  pub layers : List Layer
  pub base : Base

-- WriteHeader of the server: only the first call counts.
abbrev pub send : ℕ → Option (ℕ × Headers) → Headers → Option (ℕ × Headers)
send status none hs = some (status, hs)
send status (some line) hs = some line

abbrev pub base_write_header : ℕ → Base → Base
base_write_header status b = record b { sent = send status b.sent b.headers }

abbrev pub base_write : Chunk → Base → Base
base_write c b = record b { sent = send 200 b.sent b.headers; body = b.body ++ c ∷ [] }

-- WriteHeader through the recorders.
unfoldable pub write_header_layers : ℕ → List Layer → Base → Writer
write_header_layers status [] b = record { layers = []; base = base_write_header status b }
write_header_layers status (status_recorder s ∷ ls) b =
    let w = write_header_layers status ls b in
    record w { layers = status_recorder status ∷ w.layers }
write_header_layers status (response_recorder s true body ∷ ls) b = record {
  layers = response_recorder s true body ∷ ls;
  base = b;
}
write_header_layers status (response_recorder s false body ∷ ls) b =
    let w = write_header_layers status ls b in
    record w { layers = response_recorder status true body ∷ w.layers }

-- Write through the recorders. statusRecorder passes it on; responseRecorder calls its own
-- WriteHeader(200) if no header was written, and keeps the bytes. `opens` says that such a
-- WriteHeader(200) comes down the layers just before the bytes.
unfoldable pub write_layers : Chunk → Bool → List Layer → Base → Writer
write_layers c opens [] b = record { layers = []; base = base_write c b }
write_layers c opens (status_recorder s ∷ ls) b =
    let w = write_layers c opens ls b in
    record w { layers = status_recorder (if opens then 200 else s) ∷ w.layers }
write_layers c opens (response_recorder s true body ∷ ls) b =
    let w = write_layers c false ls b in
    record w { layers = response_recorder s true (body ++ c ∷ []) ∷ w.layers }
write_layers c opens (response_recorder s false body ∷ ls) b =
    let w = write_layers c true ls b in
    record w { layers = response_recorder 200 true (body ++ c ∷ []) ∷ w.layers }

unfoldable pub write_header : ℕ → Writer → Writer
write_header status w = write_header_layers status w.layers w.base

unfoldable pub write : Chunk → Writer → Writer
write c w = write_layers c false w.layers w.base

-- w.Header().Set
unfoldable pub set_header : String → String → Writer → Writer
set_header k v w = record w { base = record w.base { headers = header_set k v w.base.headers } }

-- http.Request: reading the body gives its bytes or fails. `pattern` is set by the router.
pub record Request : Type 0 where
  pub method : String
  pub path : String
  pub pattern : String
  pub headers : Headers
  pub body : Result String Text

-- How a handler ends.
pub data Exit : Type 0 where
  returned : Exit
  panicked : String → Exit

-- What a handler works on: its request and writer, the world behind the API's ports, the log, and
-- the time that the clock shows.
pub record World (S : Type 0) : Type 0 where
  pub request : Request
  pub writer : Writer
  pub env : S
  pub logs : List Entry
  pub now : String

-- A Go handler: it changes the world, and returns or panics.
abbrev pub Handler : Type 0 → Type 0
Handler S = World S → Exit × World S

abbrev pub on_writer : {S : Type 0} → (Writer → Writer) → World S → World S
on_writer f w = record w { writer = f w.writer }
