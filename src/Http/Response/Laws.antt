-- ===== src/Http/Response/Laws.antt =====
-- What a client receives of an answer through a writer that nothing was sent through.
use cloud_ops_manager.Common.{ℕ, [], ◌∷◌}
use cloud_ops_manager.Http.Writer.{
  Writer, Headers, Chunk, header_set, set_header, write_header, ErrorResponse, error_json,
  ApiResponse, api_json,
}
use cloud_ops_manager.Http.Writer.Laws.{
  IsFresh, Received, set_header-IsFresh, write_header-Received, write-Received,
}
use cloud_ops_manager.Http.Response.{respond, respond_with_error, respond_with_json}

-- The headers of a JSON answer.
abbrev pub json_headers : Writer → Headers
json_headers w = header_set "Content-Type" "application/json" w.base.headers

pub respond-Received :
    (status : ℕ) (c : Chunk) (w : Writer)
    → IsFresh w
    → Received status
        (set_header "Content-Type" "application/json" w).base.headers
        (c ∷ [])
        (respond status c w)
respond-Received status c w f =
    let w₁ = set_header "Content-Type" "application/json" w in
    write-Received c status w₁.base.headers [] (write_header status w₁)
      (write_header-Received status w₁ (set_header-IsFresh "Content-Type" "application/json" w f))

pub respond_with_error-Received :
    (status : ℕ) (e : ErrorResponse) (w : Writer)
    → IsFresh w
    → Received status (json_headers w) (error_json e ∷ []) (respond_with_error status e w)
unfolding respond_with_error set_header
respond_with_error-Received status e w f = respond-Received status (error_json e) w f

pub respond_with_json-Received :
    (status : ℕ) (r : ApiResponse) (w : Writer)
    → IsFresh w
    → Received status (json_headers w) (api_json r ∷ []) (respond_with_json status r w)
unfolding respond_with_json set_header
respond_with_json-Received status r w f = respond-Received status (api_json r) w f
