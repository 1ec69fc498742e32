-- ===== src/Idempotency/Store.antt =====
-- services/api/internal/domain/ports/outbound/idempotency_store.go: the record, and the contract
-- that every store implements. `S` is the world that the store acts on.
use cloud_ops_manager.Common.{
  ℕ, String, ◌≡◌, ◌≢◌, Bool, true, false, Option, some, none, List, Result, ok,
}
use cloud_ops_manager.Http.Writer.{Chunk}

pub data IdempotencyState : Type 0 where
  in_flight completed : IdempotencyState

pub record IdempotencyRecord : Type 0 where
  pub key : String
  pub state : IdempotencyState
  pub request_hash : String
  pub status_code : ℕ
  pub headers : List (String × String)
  pub body : List Chunk
  pub created_at : ℕ
  pub expires_at : ℕ

-- The three operations; `reserve` answers the record and whether it was created now.
pub record IdempotencyStore (S : Type 0) : Type 0 where
  pub reserve : String → String → ℕ → S → Result String (Option IdempotencyRecord × Bool) × S
  pub complete : String → ℕ → List (String × String) → List Chunk → ℕ → S → Result String Unit × S
  pub release : String → S → Result String Unit × S

-- A response as a store keeps it.
abbrev pub Kept :
    String → String → ℕ → List (String × String) → List Chunk → Option IdempotencyRecord → Type 0
Kept key hash status headers body o =
    (r : IdempotencyRecord) × (o ≡ some r)
    × (r.state ≡ completed)
    × (r.key ≡ key)
    × (r.request_hash ≡ hash)
    × (r.status_code ≡ status)
    × (r.headers ≡ headers)
    × (r.body ≡ body)

-- A slot reserved for a request with this hash.
abbrev pub Reserved : String → String → Option IdempotencyRecord → Type 0
Reserved key hash o =
    (r : IdempotencyRecord) × (o ≡ some r)
    × (r.state ≡ in_flight)
    × (r.key ≡ key)
    × (r.request_hash ≡ hash)

-- The contract, stated of what a read of a key would find: it says what an operation that
-- succeeds has done, and leaves failures open.
pub record IsLawful {S : Type 0} (store : IdempotencyStore S)
    (peek : S → String → Option IdempotencyRecord) : Type 0 where
  pub created :
      (k h : String) (ttl : ℕ) (s : S) (o : Option IdempotencyRecord)
      → (store.reserve k h ttl s).0 ≡ ok (o, true)
      → (peek s k ≡ none) × Reserved k h (peek (store.reserve k h ttl s).1 k)
  pub taken :
      (k h : String) (ttl : ℕ) (s : S) (o : Option IdempotencyRecord)
      → (store.reserve k h ttl s).0 ≡ ok (o, false)
      → (o ≢ none) × (o ≡ peek s k) × (peek (store.reserve k h ttl s).1 k ≡ peek s k)
  pub completes :
      (k h : String) (status : ℕ) (headers : List (String × String)) (body : List Chunk) (ttl : ℕ)
      (s : S)
      → Reserved k h (peek s k)
      → (store.complete k status headers body ttl s).0 ≡ ok tt
      → Kept k h status headers body (peek (store.complete k status headers body ttl s).1 k)
  pub releases :
      (k h : String) (s : S)
      → Reserved k h (peek s k)
      → (store.release k s).0 ≡ ok tt
      → peek (store.release k s).1 k ≡ none
  pub reserve_elsewhere :
      (k h j : String) (ttl : ℕ) (s : S) → k ≢ j → peek (store.reserve k h ttl s).1 j ≡ peek s j
  pub complete_elsewhere :
      (k j : String) (status : ℕ) (headers : List (String × String)) (body : List Chunk) (ttl : ℕ)
      (s : S)
      → k ≢ j
      → peek (store.complete k status headers body ttl s).1 j ≡ peek s j
  pub release_elsewhere : (k j : String) (s : S) → k ≢ j → peek (store.release k s).1 j ≡ peek s j
