-- ===== src/Http/Idempotency/Tests/Failures.antt =====
-- Completions that come late, and completions that are lost.
use cloud_ops_manager.Common.{
  ◌≡◌, refl, false, some, [], ◌∷◌, arith, str_eq_iff, insert, lookup, err,
}
use cloud_ops_manager.Text.{codes}
use cloud_ops_manager.Http.Writer.{
  World, returned, Headers, raw, write, write_header, write_layers, write_header_layers, header_get,
  error_json, ErrorResponse,
}
use cloud_ops_manager.Http.Writer.Laws.{IsFresh, Received}
use cloud_ops_manager.Http.Response.{err_code_idempotency_in_progress}
use cloud_ops_manager.Http.Idempotency.{
  idempotency_middleware, should_cache_response, captured_headers, idempotency_replay_header,
  with_body,
}
use cloud_ops_manager.Http.Idempotency.Laws.Late.{late_completion_replayed}
use cloud_ops_manager.Http.Idempotency.Laws.Slots.{IsKeyed}
use cloud_ops_manager.Idempotency.Store.{IdempotencyStore, IsLawful}
use cloud_ops_manager.Idempotency.RedisStore
use cloud_ops_manager.Idempotency.RedisStore.{redis_store, peek, key_prefix, to_record}
use cloud_ops_manager.Idempotency.RedisStore.Memory.{Db, find, server, server-RedisLaws}
use cloud_ops_manager.Http.Idempotency.Laws.Lost.{lost_completion_blocks}
use cloud_ops_manager.Http.Idempotency.Tests.{
  store, lawful, any_uuid, no_hash, first_world, accepts, fails, keyed, accepts_below,
}

-- A reservation for the body of the request, and a completion by another one.
abbrev reserved_again : Db
reserved_again = (store.reserve "k" "h" 10 []).1

abbrev overwritten : World Db
overwritten = record first_world {
  env = (RedisStore.complete server "k" 201 [] (raw (codes "late") ∷ []) 10 reserved_again).1;
}

overwritten-IsFresh : IsFresh overwritten.writer
overwritten-IsFresh = record { plain = tt; unsent = refl; blank = refl }

env-IsKeyed : (s : Db) → IsKeyed any_uuid (record first_world { env = s }) (codes "{}")
unfolding header_get lookup
env-IsKeyed s = record { keyed = λ e. ground (arith, str_eq_iff "k" ""); valid = refl; read = refl }

late_completion_replayed_example :
    let result = idempotency_middleware store 10 any_uuid no_hash fails overwritten in
    (hs : Headers) × (result.0 ≡ returned)
    × (result.1.env ≡ (store.reserve "k" "h" 10 overwritten.env).1)
    × Received 201 hs (raw (codes "late") ∷ []) result.1.writer
    × (header_get idempotency_replay_header hs ≡ "true")
unfolding header_get lookup RedisStore.reserve server RedisStore.complete RedisStore.get insert
    key_prefix RedisStore.complete_script to_record peek find
late_completion_replayed_example =
    late_completion_replayed server server-RedisLaws 10 any_uuid no_hash fails 201 []
      (raw (codes "late") ∷ []) reserved_again
      (to_record "k" (RedisStore.reservation server "h" 0 10)) overwritten (codes "{}")
      (
        some (
            to_record "k" (
              RedisStore.completion server (to_record "k" (RedisStore.reservation server "h" 0 10))
                201 [] (raw (codes "late") ∷ []) 0 10)),
        false,
      )
      refl refl (env-IsKeyed _) refl refl refl overwritten-IsFresh

-- A store whose completions all fail before they reach Redis.
abbrev cancelled_store : IdempotencyStore Db
cancelled_store = record store {
  complete = λ k status headers body ttl s. (err "redis GET: context canceled", s);
}

cancelled_lawful : IsLawful cancelled_store (peek server)
cancelled_lawful = record {
  created = lawful.created;
  taken = lawful.taken;
  completes = λ k h status headers body ttl s r done. cc;
  releases = lawful.releases;
  reserve_elsewhere = lawful.reserve_elsewhere;
  complete_elsewhere = λ k j status headers body ttl s other. refl;
  release_elsewhere = lawful.release_elsewhere;
}

abbrev uncompleted : World Db
uncompleted = record first_world {
  env = (idempotency_middleware cancelled_store 10 any_uuid no_hash accepts first_world).1.env;
}

lost_completion_blocks_example :
    let result = idempotency_middleware cancelled_store 10 any_uuid no_hash fails uncompleted in
    ((idempotency_middleware cancelled_store 10 any_uuid no_hash accepts first_world).0 ≡ returned)
    × (result.1.env ≡ (store.reserve "k" "h" 10 uncompleted.env).1)
    × ((hs : Headers) × (answer : ErrorResponse) × Received 409 hs
          (error_json answer ∷ [])
          result.1.writer
        × (answer.code ≡ err_code_idempotency_in_progress)
        × (header_get "Retry-After" hs ≡ "1"))
unfolding header_get lookup write write_header write_layers write_header_layers captured_headers
    should_cache_response RedisStore.reserve server RedisStore.get insert key_prefix
    idempotency_middleware with_body find to_record
lost_completion_blocks_example =
    lost_completion_blocks cancelled_store (peek server) cancelled_lawful 10 any_uuid no_hash
      accepts first_world (codes "{}") fails uncompleted _
      (some (to_record "k" (RedisStore.reservation server "h" 0 10)), false)
      "redis GET: context canceled" keyed refl refl refl accepts_below refl refl (env-IsKeyed _)
      refl refl refl (record { plain = tt; unsent = refl; blank = refl })
