-- ===== src/Idempotency/RedisStore/Server.antt =====
-- The Redis client as redis_store.go uses it, with what Redis documents of its commands. `S` is
-- the world of the client, `D` the data of the server, as they are between two commands; a
-- command is atomic, and between the commands of one operation no key expires.
use cloud_ops_manager.Common.{
  ℕ, String, ◌≡◌, ◌≢◌, ◌⊎◌, Bool, true, false, Option, some, none, List, Result, ok, str_eq,
  if◌then◌else◌,
}
use cloud_ops_manager.Http.Writer.{Chunk}
use cloud_ops_manager.Idempotency.Store.{IdempotencyState}

-- recordEnvelope of redis_store.go: the value under a key.
pub record Envelope : Type 0 where
  pub state : IdempotencyState
  pub request_hash : String
  pub status_code : ℕ
  pub headers : List (String × String)
  pub body : List Chunk
  pub created_at : ℕ
  pub expires_at : ℕ

pub record Redis (S D : Type 0) : Type 0 where
  pub time : S → ℕ
  pub view : S → D
  -- What a script may do to the server's data: GET and EXISTS, SET with PX, DEL.
  pub find : D → String → Option Envelope
  pub put : String → Envelope → ℕ → D → D
  pub del : String → D → D
  -- The client's commands: SETNX with a time to live, GET (`none` is redis.Nil), and EVAL.
  pub set_nx : String → Envelope → ℕ → S → Result String Bool × S
  pub get : String → S → Result String (Option Envelope) × S
  pub eval : (D → ℕ × D) → S → Result String ℕ × S
  -- json.Unmarshal of the text that json.Marshal made of an envelope.
  pub unmarshal : Envelope → Result String Envelope

-- A command that failed may have been executed or not.
pub record RedisLaws {S D : Type 0} (redis : Redis S D) : Type 0 where
  pub find-put :
      (k j : String) (v : Envelope) (ms : ℕ) (d : D)
      → redis.find (redis.put k v ms d) j ≡ (if str_eq k j then some v else redis.find d j)
  pub find-del :
      (k j : String) (d : D)
      → redis.find (redis.del k d) j ≡ (if str_eq k j then none else redis.find d j)
  pub set_nx_new :
      (k : String) (v : Envelope) (ttl : ℕ) (s : S)
      → (redis.set_nx k v ttl s).0 ≡ ok true
      → (redis.find (redis.view s) k ≡ none)
        × (redis.find (redis.view (redis.set_nx k v ttl s).1) k ≡ some v)
  pub set_nx_old :
      (k : String) (v : Envelope) (ttl : ℕ) (s : S)
      → (redis.set_nx k v ttl s).0 ≡ ok false
      → (redis.find (redis.view s) k ≢ none)
        × (redis.view (redis.set_nx k v ttl s).1 ≡ redis.view s)
  pub set_nx_atomic :
      (k : String) (v : Envelope) (ttl : ℕ) (s : S)
      → (redis.view (redis.set_nx k v ttl s).1 ≡ redis.view s)
        ⊎ ((redis.find (redis.view s) k ≡ none)
            × (redis.find (redis.view (redis.set_nx k v ttl s).1) k ≡ some v))
  pub set_nx_elsewhere :
      (k j : String) (v : Envelope) (ttl : ℕ) (s : S)
      → k ≢ j
      → redis.find (redis.view (redis.set_nx k v ttl s).1) j ≡ redis.find (redis.view s) j
  pub get_reads :
      (k : String) (s : S) (o : Option Envelope)
      → (redis.get k s).0 ≡ ok o
      → o ≡ redis.find (redis.view s) k
  -- What can be read at all is read as it was written.
  pub unmarshal_same : (v e : Envelope) → redis.unmarshal v ≡ ok e → e ≡ v
  pub get_keeps : (k : String) (s : S) → redis.view (redis.get k s).1 ≡ redis.view s
  pub eval_runs :
      (f : D → ℕ × D) (s : S) (n : ℕ)
      → (redis.eval f s).0 ≡ ok n
      → redis.view (redis.eval f s).1 ≡ (f (redis.view s)).1
  pub eval_atomic :
      (f : D → ℕ × D) (s : S)
      → (redis.view (redis.eval f s).1 ≡ redis.view s)
        ⊎ (redis.view (redis.eval f s).1 ≡ (f (redis.view s)).1)
