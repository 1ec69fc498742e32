-- ===== src/Http/Idempotency/Laws/Late.antt =====
-- A request whose handler outlives its reservation in Redis: completeScript of
-- services/api/internal/adapters/outbound/idempotency/redis_store.go does not ask whose
-- reservation it completes.
use cloud_ops_manager.Common.{ℕ, String, ◌≡◌, ◌∙◌, refl, sym, Bool, Option, some, List, ok}
use cloud_ops_manager.Text.{Text}
use cloud_ops_manager.Http.Writer.{Handler, World, returned, header_get, Chunk, Headers}
use cloud_ops_manager.Http.Writer.Laws.{IsFresh, Received}
use cloud_ops_manager.Http.Idempotency.{idempotency_middleware, or_ok, idempotency_replay_header}
use cloud_ops_manager.Http.Idempotency.Laws.Slots.{key_of, IsKeyed}
use cloud_ops_manager.Http.Idempotency.Laws.Replay.{
  middleware_existing, replay_completed, replay-Received, replay_mark, replayed_body,
}
use cloud_ops_manager.Http.Idempotency.Laws.Captured.{replayed_headers}
use cloud_ops_manager.Idempotency.Store.{IdempotencyRecord}
use cloud_ops_manager.Idempotency.RedisStore.Server.{Redis, RedisLaws}
use cloud_ops_manager.Idempotency.RedisStore.{redis_store, peek, complete}
use cloud_ops_manager.Idempotency.RedisStore.Laws.{redis_store-IsLawful, complete_keeps_hash}

module _ {S D : Type 0} (redis : Redis S D) (laws : RedisLaws redis) (ttl : ℕ)
    (valid_uuid : String → Bool) (hash : Text → String) where
  -- A completion that comes late. Let a request complete a key under which it finds some record,
  -- which may be the reservation of another request with another body, made after its own had
  -- expired, or even that request's kept response; and let the completion succeed. Then a later
  -- request with the key and with the body of that record, which finds the slot so and reads it
  -- without an error, returns whatever its handler: behind the ports only its reservation happens,
  -- and through a fresh writer its client receives the status and body of the late request, under
  -- the replay mark.
  pub late_completion_replayed :
      (next : Handler S) (status : ℕ) (headers : List (String × String)) (sent : List Chunk) (s : S)
      (r : IdempotencyRecord) (w : World S) (body : Text) (a : Option IdempotencyRecord × Bool)
      → peek redis s (key_of w) ≡ some r
      → (complete redis (key_of w) status headers sent ttl s).0 ≡ ok tt
      → IsKeyed valid_uuid w body
      → hash body ≡ r.request_hash
      → peek redis w.env (key_of w)
        ≡ peek redis (complete redis (key_of w) status headers sent ttl s).1 (key_of w)
      → ((redis_store redis).reserve (key_of w) (hash body) ttl w.env).0 ≡ ok a
      → IsFresh w.writer
      → let result = idempotency_middleware (redis_store redis) ttl valid_uuid hash next w in
        (hs : Headers) × (result.0 ≡ returned)
        × (result.1.env ≡ ((redis_store redis).reserve (key_of w) (hash body) ttl w.env).1)
        × Received (or_ok status) hs (replayed_body sent) result.1.writer
        × (header_get idempotency_replay_header hs ≡ "true")
  late_completion_replayed next status headers sent s r w body a there done k same_hash same_slot
        answered fresh =
      let (q, kept, state, _, h, status_lem, _, sent_lem) =
        complete_keeps_hash redis laws (key_of w) status headers sent ttl s r there done in
      let received = replay-Received q w.writer fresh in
      rw
        (
          middleware_existing (redis_store redis) (peek redis) (redis_store-IsLawful redis laws) ttl
              valid_uuid hash next w body q a k (same_slot ∙ kept) answered,
          replay_completed (redis_store redis) (peek redis) (redis_store-IsLawful redis laws) ttl
              valid_uuid hash q (hash body) (header_get "X-Request-Id" w.request.headers) w.writer
              (h ∙ sym same_hash) state,
        )
        (
          replayed_headers q.headers w.writer,
          refl,
          refl,
          rw (← status_lem, ← sent_lem) received,
          replay_mark q.headers w.writer,
        )
