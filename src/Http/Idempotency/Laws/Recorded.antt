-- ===== src/Http/Idempotency/Laws/Recorded.antt =====
-- What the recorder of the middleware keeps of one JSON answer, and what goes through it.
use cloud_ops_manager.Common.{ℕ, ◌≡◌, refl, List, [], ◌∷◌, false}
use cloud_ops_manager.Http.Writer.{
  Writer, Chunk, ApiResponse, api_json, set_header, write_header, write, write_header_layers,
  write_layers,
}
use cloud_ops_manager.Http.Writer.Laws.{
  IsFresh, Received, base-write_header_layers, base-write_layers,
}
use cloud_ops_manager.Http.Response.{respond, respond_with_json}
use cloud_ops_manager.Http.Response.Laws.{json_headers, respond-Received}
use cloud_ops_manager.Http.Idempotency.{push_recorder, pop_recorder, top_status, top_body}

-- The recorder has the status and the body, and the client has received them.
pub record Recorded (status : ℕ) (body : List Chunk) (before after : Writer) : Type 0 where
  pub status_lem : top_status after.layers ≡ status
  pub body_lem : top_body after.layers ≡ body
  pub headers_lem : after.base.headers ≡ json_headers before
  pub received : Received status (json_headers before) body (pop_recorder after)

respond-headers :
    (status : ℕ) (c : Chunk) (w : Writer)
    → IsFresh w
    → (respond status c w).base.headers ≡ json_headers w
unfolding set_header write_header write
respond-headers status c w f =
    let w₁ = set_header "Content-Type" "application/json" w in
    let (same, plain) = base-write_header_layers status w.layers w₁.base f.plain in
    let (same', plain') =
      base-write_layers c false (write_header status w₁).layers (write_header status w₁).base
        plain in
    rw same' (rw same refl)

respond-Recorded :
    (status : ℕ) (c : Chunk) (w : Writer)
    → IsFresh w
    → Recorded status (c ∷ []) w (respond status c (push_recorder w))
unfolding set_header write_header write write_header_layers write_layers
respond-Recorded status c w f = record {
  status_lem = refl;
  body_lem = refl;
  headers_lem = respond-headers status c w f;
  received = respond-Received status c w f;
}

pub respond_with_json-Recorded :
    (status : ℕ) (r : ApiResponse) (w : Writer)
    → IsFresh w
    → Recorded status (api_json r ∷ []) w (respond_with_json status r (push_recorder w))
unfolding respond_with_json
respond_with_json-Recorded status r w f = respond-Recorded status (api_json r) w f
