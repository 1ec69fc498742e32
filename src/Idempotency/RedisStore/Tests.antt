-- ===== src/Idempotency/RedisStore/Tests.antt =====
-- The Redis store on the Redis of Memory.antt.
use cloud_ops_manager.Common.{◌≡◌, refl, true, false, some, none, [], ◌∷◌, ok, insert, lookup}
use cloud_ops_manager.Idempotency.Store.{IsLawful, completed}
use cloud_ops_manager.Idempotency.RedisStore.Server.{Envelope}
use cloud_ops_manager.Idempotency.RedisStore.{
  redis_store, peek, key_prefix, release, release_script, mentions_in_flight, quotes_in_flight,
  to_record,
}
use cloud_ops_manager.Idempotency.RedisStore.Laws.{redis_store-IsLawful}
use cloud_ops_manager.Idempotency.RedisStore.Completed.{release_completed, holds_word}
use cloud_ops_manager.Idempotency.RedisStore.Memory.{Db, server, server-RedisLaws}

redis_store-IsLawful_example : IsLawful (redis_store server) (peek server)
redis_store-IsLawful_example = redis_store-IsLawful server server-RedisLaws

-- A completed record whose header has the value IN_FLIGHT.
abbrev kept : Envelope
kept = record {
  state = completed;
  request_hash = "ab12";
  status_code = 202;
  headers = ("X-State", "IN_FLIGHT") ∷ [];
  body = [];
  created_at = 0;
  expires_at = 5;
}

abbrev holding : Db
holding = ("idempotency:k", some kept) ∷ []

release_completed_example :
    (holds_word (to_record "k" kept) ≡ false
      → peek server (release server "k" holding).1 "k" ≡ some (to_record "k" kept))
    × (holds_word (to_record "k" kept) ≡ true
        → (release server "k" holding).0 ≡ ok tt
        → peek server (release server "k" holding).1 "k" ≡ none)
unfolding peek server key_prefix to_record lookup
release_completed_example =
    release_completed server server-RedisLaws "k" holding (to_record "k" kept) refl refl

words :
    (quotes_in_flight "IN_FLIGHT" ≡ true)
    × (quotes_in_flight "NOT IN_FLIGHT" ≡ false)
    × (quotes_in_flight "a\"IN_FLIGHT" ≡ true)
unfolding quotes_in_flight
words = (refl, refl, refl)

-- Release deletes it.
deletes_completed : peek server (release server "k" holding).1 "k" ≡ none
unfolding peek server key_prefix to_record release release_script mentions_in_flight
    quotes_in_flight lookup insert
deletes_completed = refl
