-- ===== src/Idempotency/RedisStore.antt =====
-- services/api/internal/adapters/outbound/idempotency/redis_store.go
-- The Redis client is the argument `redis`; the two Lua scripts are functions on the server's
-- data that EVAL runs at once. A record is kept as the envelope that its JSON text stands for.
pub mod Server
pub mod Reading
pub mod Laws
pub mod Completed
pub mod Memory
mod Tests
use Prim.Native.String.{◌++◌ as append}
use cloud_ops_manager.Common.{
  ℕ, zero, suc, ◌+◌, ◌/◌, String, ◌≡◌, ◌≢◌, ◌⊎◌, Bool, true, false, ◌||◌, Option, some, none, List,
  [], ◌∷◌, Result, ok, err, str_eq, ltb, ◌==◌, if◌then◌else◌,
}
use cloud_ops_manager.Text.{Text, codes, text_eq}
use cloud_ops_manager.Http.Writer.{Chunk}
use cloud_ops_manager.Idempotency.Store.{
  IdempotencyStore, IdempotencyRecord, IdempotencyState, in_flight, completed,
}
use cloud_ops_manager.Idempotency.RedisStore.Server.{Redis, Envelope}

unfoldable pub key_prefix : String → String
key_prefix key = append "idempotency:" key

-- The text of a JSON string holds `"IN_FLIGHT"` exactly when the opening quote or a quote inside
-- the string stands before a last part IN_FLIGHT.
ends_with : Text → Text → Bool
unfolding text_eq
ends_with p [] = text_eq p []
ends_with p (c ∷ s) = text_eq p (c ∷ s) || ends_with p s

unfoldable pub quotes_in_flight : String → Bool
unfolding ends_with
quotes_in_flight t = ends_with (codes "\"IN_FLIGHT") (b'"' ∷ codes t)

abbrev pub any_quotes : List (String × String) → Bool
any_quotes [] = false
any_quotes ((k, v) ∷ hs) = quotes_in_flight k || quotes_in_flight v || any_quotes hs

abbrev pub is_in_flight : IdempotencyState → Bool
is_in_flight in_flight = true
is_in_flight completed = false

-- string.find(raw, '"IN_FLIGHT"', 1, true) on the JSON text of an envelope: its strings are the
-- state, the hash, and the names and values of the headers; the body is in base64.
unfoldable pub mentions_in_flight : Envelope → Bool
mentions_in_flight e =
    is_in_flight e.state || quotes_in_flight e.request_hash || any_quotes e.headers

-- The record that an envelope stands for.
unfoldable pub to_record : String → Envelope → IdempotencyRecord
to_record key e = record {
  key = key;
  state = e.state;
  request_hash = e.request_hash;
  status_code = e.status_code;
  headers = e.headers;
  body = e.body;
  created_at = e.created_at;
  expires_at = e.expires_at;
}

-- A read that finds nothing is ErrIdempotencyNotFound; the others are errors of GET and of
-- json.Unmarshal.
pub data GetError : Type 0 where
  not_found : GetError
  redis_get unreadable : String → GetError

module _ {S D : Type 0} (redis : Redis S D) where
  abbrev pub decoded : String → Result String Envelope → Result GetError IdempotencyRecord
  decoded key (err e) = err (unreadable e)
  decoded key (ok e) = ok (to_record key e)

  abbrev pub got : String → Result String (Option Envelope) → Result GetError IdempotencyRecord
  got key (err e) = err (redis_get e)
  got key (ok none) = err not_found
  got key (ok (some raw)) = decoded key (redis.unmarshal raw)

  unfoldable pub get : String → S → Result GetError IdempotencyRecord × S
  get key s = let (answer, s') = redis.get (key_prefix key) s in (got key answer, s')

  abbrev pub reservation : String → ℕ → ℕ → Envelope
  reservation request_hash now ttl = record {
    state = in_flight;
    request_hash = request_hash;
    status_code = 0;
    headers = [];
    body = [];
    created_at = now;
    expires_at = now + ttl;
  }

  -- The error that Reserve passes on from a read.
  abbrev pub get_message : GetError → String
  get_message not_found = "idempotency record not found"
  get_message (redis_get e) = append "redis GET: " e
  get_message (unreadable e) = append "unmarshal idempotency record: " e

  abbrev pub existing :
      Result GetError IdempotencyRecord → Result String (Option IdempotencyRecord × Bool)
  existing (err e) = err (get_message e)
  existing (ok r) = ok (some r, false)

  -- What follows the answer of SETNX.
  unfoldable pub after_set_nx :
      String
      → Envelope
      → Result String Bool
      → S
      → Result String (Option IdempotencyRecord × Bool) × S
  after_set_nx key env (err e) s = (err (append "redis SETNX: " e), s)
  after_set_nx key env (ok true) s = (ok (some (to_record key env), true), s)
  after_set_nx key env (ok false) s = let (answer, s') = get key s in (existing answer, s')

  unfoldable pub reserve :
      String → String → ℕ → S → Result String (Option IdempotencyRecord × Bool) × S
  unfolding after_set_nx
  reserve key request_hash ttl s =
      let env = reservation request_hash (redis.time s) ttl in
      let (answer, s') = redis.set_nx (key_prefix key) env ttl s in after_set_nx key env answer s'

  -- completeScript: replaces a value that is there; the expiry is in milliseconds.
  unfoldable pub complete_script : String → Envelope → ℕ → D → ℕ × D
  complete_script key payload ms db = elim (redis.find db key) [
    | none ↦ (0, db)
    | some _ ↦ (1, redis.put key payload ms db)
  ]

  -- releaseScript: deletes a value whose text holds "IN_FLIGHT" in quotes.
  unfoldable pub release_script : String → D → ℕ × D
  release_script key db = elim (redis.find db key) [
    | none ↦ (0, db)
    | some raw ↦ if mentions_in_flight raw then (1, redis.del key db) else (0, db)
  ]

  abbrev pub ran : String → Result String ℕ → Result String Unit
  ran message (err e) = err (append message e)
  ran message (ok _) = ok tt

  -- The completed envelope keeps the hash and the creation time of the record that was read.
  abbrev pub completion :
      IdempotencyRecord → ℕ → List (String × String) → List Chunk → ℕ → ℕ → Envelope
  completion r status_code headers body now ttl = record {
    state = completed;
    request_hash = r.request_hash;
    status_code = status_code;
    headers = headers;
    body = body;
    created_at = r.created_at;
    expires_at = now + ttl;
  }

  -- What follows the read of Complete; a record that is gone is no error.
  unfoldable pub complete_existing :
      String
      → ℕ
      → List (String × String)
      → List Chunk
      → ℕ
      → ℕ
      → Result GetError IdempotencyRecord
      → S
      → Result String Unit × S
  complete_existing key status_code headers body ttl now (err not_found) s = (ok tt, s)
  complete_existing key status_code headers body ttl now (err (redis_get e)) s =
      (err (get_message (redis_get e)), s)
  complete_existing key status_code headers body ttl now (err (unreadable e)) s =
      (err (get_message (unreadable e)), s)
  complete_existing key status_code headers body ttl now (ok r) s =
      let payload = completion r status_code headers body now ttl in
      let (answer, s') =
        redis.eval (complete_script (key_prefix key) payload (ttl / 1_000_000)) s in
      (ran "redis complete script: " answer, s')

  unfoldable pub complete :
      String → ℕ → List (String × String) → List Chunk → ℕ → S → Result String Unit × S
  unfolding complete_existing
  complete key status_code headers body ttl s =
      let (answer, s') = get key s in
      complete_existing key status_code headers body ttl (redis.time s) answer s'

  unfoldable pub release : String → S → Result String Unit × S
  release key s =
      let (answer, s') = redis.eval (release_script (key_prefix key)) s in
      (ran "redis release script: " answer, s')

  -- NewRedisStore
  abbrev pub redis_store : IdempotencyStore S
  redis_store = record { reserve = reserve; complete = complete; release = release }

  -- The record that a read of the key would find.
  abbrev pub found : String → Option Envelope → Option IdempotencyRecord
  found key none = none
  found key (some e) = some (to_record key e)

  unfoldable pub peek : S → String → Option IdempotencyRecord
  peek s key = found key (redis.find (redis.view s) (key_prefix key))
