-- ===== src/Http/Idempotency/Tests.antt =====
-- The middleware over the Redis store, with a key, a handler that accepts, and a retry.
mod Failures
use cloud_ops_manager.Common.{
  ◌<◌, arith, String, ◌≡◌, ◌≢◌, refl, Bool, true, false, some, none, [], ◌∷◌, ok, arith, str_eq_iff,
  insert, lookup,
}
use cloud_ops_manager.Text.{Text, codes}
use cloud_ops_manager.Http.Writer.{
  Handler, World, returned, panicked, Request, Headers, on_writer, raw, write, write_header,
  write_layers, write_header_layers, header_get, status_recorder, error_json, ErrorResponse,
}
use cloud_ops_manager.Http.Writer.Laws.{IsFresh, Received}
use cloud_ops_manager.Http.Response.{
  err_code_idempotency_key_mismatch, err_code_idempotency_in_progress,
}
use cloud_ops_manager.Http.Idempotency.{
  IdempotencyState, idempotency_middleware, should_cache_response, captured_headers,
  idempotency_replay_header, with_body,
}
use cloud_ops_manager.Http.Idempotency.Laws.Guards.{runs_only_when_created}
use cloud_ops_manager.Http.Idempotency.Laws.Captured.{replayed_value}
use cloud_ops_manager.Http.Idempotency.Laws.Slots.{
  key_of, IsKeyed, middleware-Kept, middleware_frees,
}
use cloud_ops_manager.Http.Idempotency.Laws.Replay.{retry_replays}
use cloud_ops_manager.Http.Idempotency.Laws.Conflicts.{conflict_answers}
use cloud_ops_manager.Http.Idempotency.Laws.Separate.{other_slots_kept}
use cloud_ops_manager.Idempotency.Store.{IdempotencyStore, IsLawful, Kept, in_flight, completed}
use cloud_ops_manager.Idempotency.RedisStore
use cloud_ops_manager.Idempotency.RedisStore.{redis_store, peek, key_prefix, to_record}
use cloud_ops_manager.Idempotency.RedisStore.Laws.{redis_store-IsLawful}
use cloud_ops_manager.Idempotency.RedisStore.Memory.{Db, find, server, server-RedisLaws}

abbrev store : IdempotencyStore Db
store = redis_store server

abbrev lawful : IsLawful store (peek server)
lawful = redis_store-IsLawful server server-RedisLaws

abbrev any_uuid : String → Bool
any_uuid s = true

abbrev no_hash : Text → String
no_hash body = "h"

abbrev plain_request : Request
plain_request = record {
  method = "POST";
  path = "/v1/provision";
  pattern = "";
  headers = ("X-Idempotency-Key", "k" ∷ []) ∷ [];
  body = ok (codes "{}");
}

abbrev first_world : World Db
first_world = record {
  request = plain_request;
  writer = record {
    layers = status_recorder 200 ∷ [];
    base = record { headers = []; sent = none; body = [] };
  };
  env = [];
  logs = [];
  now = "";
}

-- A handler that answers 202 with a body.
abbrev accepts : Handler Db
accepts w = (returned, on_writer (λ v. write (raw (codes "ok")) (write_header 202 v)) w)

-- A handler that fails.
abbrev fails : Handler Db
fails w = (panicked "boom", w)

keyed : IsKeyed any_uuid first_world (codes "{}")
unfolding header_get lookup
keyed = record { keyed = λ e. ground (arith, str_eq_iff "k" ""); valid = refl; read = refl }

runs_only_when_created_example :
    idempotency_middleware store 10 (λ s. false) no_hash accepts first_world
    ≡ idempotency_middleware store 10 (λ s. false) no_hash fails first_world
unfolding header_get lookup
runs_only_when_created_example =
    runs_only_when_created store 10 (λ s. false) no_hash accepts fails first_world
      (λ e. ground (arith, str_eq_iff "k" "")) (λ body o read valid. cc)

abbrev after_first : World Db
after_first = (idempotency_middleware store 10 any_uuid no_hash accepts first_world).1

accepts_below : 202 < 500
accepts_below = omega arith

middleware-Kept_example :
    Kept "k" "h" 202 [] (raw (codes "ok") ∷ []) (peek server after_first.env "k")
unfolding header_get lookup write write_header write_layers write_header_layers captured_headers
    should_cache_response RedisStore.reserve server RedisStore.complete RedisStore.get insert
    key_prefix
middleware-Kept_example =
    middleware-Kept store (peek server) lawful 10 any_uuid no_hash accepts first_world (codes "{}")
      _ keyed refl refl refl accepts_below refl

middleware_frees_example :
    (peek server (idempotency_middleware store 10 any_uuid no_hash fails first_world).1.env "k"
      ≡ none)
    × ((idempotency_middleware store 10 any_uuid no_hash fails first_world).0 ≡ panicked "boom")
unfolding header_get lookup RedisStore.reserve server RedisStore.release
middleware_frees_example =
    middleware_frees store (peek server) lawful 10 any_uuid no_hash fails first_world (codes "{}") _
      keyed refl refl (λ e. cc) refl

-- The same request again, on what the first left behind the ports.
abbrev retry : World Db
retry = record first_world { env = after_first.env }

retry-IsFresh : IsFresh retry.writer
retry-IsFresh = record { plain = tt; unsent = refl; blank = refl }

retry-IsKeyed : IsKeyed any_uuid retry (codes "{}")
unfolding header_get lookup
retry-IsKeyed = record { keyed = λ e. ground (arith, str_eq_iff "k" ""); valid = refl; read = refl }

retry_replays_example :
    let result = idempotency_middleware store 10 any_uuid no_hash fails retry in
    (hs : Headers) × (result.0 ≡ returned)
    × (result.1.env ≡ (store.reserve (key_of retry) "h" 10 retry.env).1)
    × Received 202 hs (raw (codes "ok") ∷ []) result.1.writer
    × ((k : String) → header_get k hs ≡ replayed_value [] [] k)
unfolding header_get lookup write write_header write_layers write_header_layers captured_headers
    should_cache_response RedisStore.reserve server RedisStore.complete RedisStore.get insert
    key_prefix idempotency_middleware with_body RedisStore.complete_script
retry_replays_example =
    retry_replays store (peek server) lawful 10 any_uuid no_hash accepts fails first_world retry
      (codes "{}") _ _ keyed refl refl refl accepts_below refl retry-IsKeyed refl refl refl
      retry-IsFresh (record { distinct = tt; values = tt })

-- Another body under the same key.
abbrev length_hash : Text → String
length_hash body = "other"

conflict_answers_example :
    let result = idempotency_middleware store 10 any_uuid length_hash fails retry in
    (result.1.env ≡ (store.reserve (key_of retry) "other" 10 retry.env).1)
    × (◌≢◌ {A = String} "h" "other"
        → (hs : Headers) × (e : ErrorResponse) × Received 422 hs (error_json e ∷ []) result.1.writer
          × (e.code ≡ err_code_idempotency_key_mismatch))
    × (◌≡◌ {A = String} "h" "other"
        → ◌≡◌ {A = IdempotencyState} completed in_flight
        → (hs : Headers) × (e : ErrorResponse) × Received 409 hs (error_json e ∷ []) result.1.writer
          × (e.code ≡ err_code_idempotency_in_progress)
          × (header_get "Retry-After" hs ≡ "1"))
unfolding header_get lookup write write_header write_layers write_header_layers captured_headers
    should_cache_response peek server idempotency_middleware with_body RedisStore.reserve
    RedisStore.complete RedisStore.get insert key_prefix RedisStore.complete_script to_record
conflict_answers_example =
    conflict_answers store (peek server) lawful 10 any_uuid length_hash fails retry (codes "{}")
      (record {
        key = "k";
        state = completed;
        request_hash = "h";
        status_code = 202;
        headers = [];
        body = raw (codes "ok") ∷ [];
        created_at = 0;
        expires_at = 10;
      })
      _ retry-IsKeyed refl refl retry-IsFresh

-- The slot of another key is reserved before the request.
abbrev crowded : World Db
crowded = record first_world { env = (store.reserve "other" "h" 10 []).1 }

other_slots_kept_example :
    peek server (idempotency_middleware store 10 any_uuid no_hash accepts crowded).1.env "other"
    ≡ peek server crowded.env "other"
unfolding header_get lookup
other_slots_kept_example =
    other_slots_kept store (peek server) lawful 10 any_uuid no_hash accepts "other" (λ w. refl)
      crowded (λ e. ground (arith, str_eq_iff "k" "other"))
