-- ===== src/Http/Idempotency/Interleaving/Tests.antt =====
-- Two requests with one key: the first reserves it, the second finds it taken.
use cloud_ops_manager.Common.{
  ℕ, ◌≡◌, ◌⊎◌, refl, String, true, false, some, none, [], ◌∷◌, ok, arith, insert, lookup, ◌==◌,
  if◌then◌else◌, str_eq_iff,
}
use cloud_ops_manager.Text.{codes}
use cloud_ops_manager.Http.Writer.{
  Handler, World, returned, raw, status_recorder, write, write_header, on_writer, header_get,
}
use cloud_ops_manager.Http.Idempotency.{idempotency_middleware, should_cache_response}
use cloud_ops_manager.Http.Idempotency.Laws.Slots.{IsKeyed}
use cloud_ops_manager.Idempotency.Store.{IdempotencyRecord, in_flight}
use cloud_ops_manager.Idempotency.RedisStore.{
  redis_store, key_prefix, get, reservation, completion, complete_script, to_record,
}
use cloud_ops_manager.Idempotency.RedisStore.Server.{Envelope}
use cloud_ops_manager.Idempotency.RedisStore.Memory.{Db, server, server-RedisLaws}
use cloud_ops_manager.Http.Idempotency.Interleaving.{
  Answer, Expired, idle, finished, owns, slot, System, pick, Reach, here, later, reserve_created,
  reserve_taken, respond, load, store, read,
}
use cloud_ops_manager.Http.Idempotency.Interleaving.Invariant.{HeldFor}
use cloud_ops_manager.Http.Idempotency.Interleaving.Exclusion.{
  IsStart, one_handler_at_a_time, kept_is_final,
}
use cloud_ops_manager.Http.Idempotency.Interleaving.Alone.{Moves, middleware-Moves}

abbrev hash : ℕ → String
hash i = if i == 0 then "a" else "b"

abbrev before : System server "k" 10
before = record { world = []; pc = λ i. idle; failed = false }

before-IsStart : IsStart server server-RedisLaws "k" 10 before
unfolding server lookup
before-IsStart = record { all_idle = λ i. refl; free = refl }

abbrev w₁ : Db
w₁ = (server.set_nx (key_prefix "k") (reservation server "a" (server.time []) 10) 10 []).1

reserves :
    (server.set_nx (key_prefix "k") (reservation server "a" (server.time []) 10) 10 []).0 ≡ ok true
unfolding server key_prefix lookup
reserves = refl

abbrev w₂ : Db
w₂ = (server.set_nx (key_prefix "k") (reservation server "b" (server.time w₁) 10) 10 w₁).1

refused :
    (server.set_nx (key_prefix "k") (reservation server "b" (server.time w₁) 10) 10 w₁).0 ≡ ok false
unfolding server key_prefix lookup insert
refused = refl

-- The first has reserved, and the second has been refused.
abbrev contended : (y : System server "k" 10) × Reach server "k" 10 hash before y
contended =
    (_, later (later here (pick 0 (reserve_created reserves))) (pick 1 (reserve_taken refused)))

one_handler_at_a_time_example :
    (◌≡◌ {A = ℕ} 0 0) × HeldFor server server-RedisLaws "k" 10 "a" contended.0.world
one_handler_at_a_time_example =
    one_handler_at_a_time server server-RedisLaws "k" 10 before-IsStart contended.1 0 0 refl refl

abbrev held : Envelope
held = reservation server "a" (server.time []) 10

-- The first handler answers 202, and its response is stored.
abbrev answer : Answer
answer = record { status = 202; headers = []; body = raw (codes "ok") ∷ [] }

caches : should_cache_response 202 ≡ true
unfolding should_cache_response
caches = refl

abbrev loaded : IdempotencyRecord
loaded = record {
  key = "k";
  state = in_flight;
  request_hash = "a";
  status_code = 0;
  headers = [];
  body = [];
  created_at = 0;
  expires_at = 10;
}

loads : (get server "k" w₂).0 ≡ ok loaded
unfolding get server key_prefix lookup insert to_record
loads = refl

abbrev stored : (y : System server "k" 10) × Reach server "k" 10 hash before y
stored = (
  _,
  later
      (later (later contended.1 (pick 0 (respond answer w₂ refl caches)))
        (pick 0 (load loaded loads)))
      (pick 0 (store 5)),
)

abbrev response : Envelope
response = completion server loaded 202 [] (raw (codes "ok") ∷ []) 5 10

in_store : slot server "k" 10 stored.0.world ≡ some response
unfolding server key_prefix lookup insert get complete_script
in_store = refl

-- Then the second reads.
abbrev answered : (z : System server "k" 10) × Reach server "k" 10 hash stored.0 z
answered = (_, later here (pick 1 read))

kept_is_final_example :
    ((slot server "k" 10 answered.0.world ≡ some response)
      × ((i : ℕ) → owns (answered.0.pc i) ≡ false))
    ⊎ Expired server "k" 10 answered.1
kept_is_final_example =
    kept_is_final server server-RedisLaws "k" 10 response before-IsStart stored.1 in_store refl
      answered.1

abbrev accepts : Handler Db
accepts w = (returned, on_writer (λ v. write (raw (codes "ok")) (write_header 202 v)) w)

abbrev lone : World Db
lone = record {
  request = record {
    method = "POST";
    path = "/v1/provision";
    pattern = "";
    headers = ("X-Idempotency-Key", "k" ∷ []) ∷ [];
    body = ok (codes "{}");
  };
  writer = record {
    layers = status_recorder 200 ∷ [];
    base = record { headers = []; sent = none; body = [] };
  };
  env = [];
  logs = [];
  now = "";
}

lone-IsKeyed : IsKeyed (λ s. true) lone (codes "{}")
unfolding header_get lookup
lone-IsKeyed = record { keyed = λ e. ground (arith, str_eq_iff "k" ""); valid = refl; read = refl }

middleware-Moves_example :
    Moves server "k" 10 "h" [] idle
      (idempotency_middleware (redis_store server) 10 (λ s. true) (λ b. "h") accepts lone).1.env
      finished
unfolding header_get lookup
middleware-Moves_example =
    middleware-Moves server "k" 10 (λ s. true) (λ b. "h") accepts lone (codes "{}") lone-IsKeyed
      refl refl
