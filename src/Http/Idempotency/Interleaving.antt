-- ===== src/Http/Idempotency/Interleaving.antt =====
-- Requests with one idempotency key that run at the same time: IdempotencyMiddleware of
-- services/api/internal/adapters/inbound/http/idempotency_middleware.go over the store of
-- services/api/internal/adapters/outbound/idempotency/redis_store.go, one command of Redis a step.
pub mod Invariant
pub mod Exclusion
pub mod Alone
mod Tests
use cloud_ops_manager.Common.{
  ℕ, String, ◌≡◌, ◌||◌, Bool, true, false, Option, some, none, List, Result, ok, err, ◌/◌, ◌==◌,
  if◌then◌else◌,
}
use cloud_ops_manager.Http.Writer.{Chunk}
use cloud_ops_manager.Http.Idempotency.{should_cache_response}
use cloud_ops_manager.Idempotency.Store.{IdempotencyRecord}
use cloud_ops_manager.Idempotency.RedisStore.Server.{Redis, Envelope}
use cloud_ops_manager.Idempotency.RedisStore.{
  key_prefix, reservation, get, GetError, completion, complete_script, release_script,
}

-- What a handler answered: status, captured headers and body.
pub record Answer : Type 0 where
  pub status : ℕ
  pub headers : List (String × String)
  pub body : List Chunk

-- Where a request stands.
pub data Pc : Type 0 where
  -- before SETNX of Reserve
  idle : Pc
  -- before GET of Reserve, as the key was taken
  reading : Pc
  -- in the handler
  running : Pc
  -- before GET of Complete
  loading : Answer → Pc
  -- before the script of Complete, with the record that was read
  storing : Answer → IdempotencyRecord → Pc
  -- before the script of Release
  dropping : Pc
  finished : Pc

-- The request holds the slot of the key.
abbrev pub owns : Pc → Bool
owns idle = false
owns reading = false
owns finished = false
owns _ = true

abbrev pub failing : {A : Type 0} → Result String A → Bool
failing (ok a) = false
failing (err e) = true

abbrev pub failing_get : Result GetError IdempotencyRecord → Bool
failing_get (ok r) = false
failing_get (err e) = true

abbrev pub update {ℓ} : {A : Type ℓ} → (ℕ → A) → ℕ → A → ℕ → A
update f i a j = if i == j then a else f j

module _ {S D : Type 0} (redis : Redis S D) (key : String) (ttl : ℕ) where
  abbrev pub slot : S → Option Envelope
  slot s = redis.find (redis.view s) (key_prefix key)

  -- One step of a request whose body has the hash `h`: the next state of Redis, where the request
  -- stands then, and whether a command failed.
  pub data Move (h : String) (s : S) : Pc → S → Pc → Bool → Type 0 where
    reserve_created :
        (redis.set_nx (key_prefix key) (reservation redis h (redis.time s) ttl) ttl s).0 ≡ ok true
        → Move h s idle
            (redis.set_nx (key_prefix key) (reservation redis h (redis.time s) ttl) ttl s).1
            running
            false
    reserve_taken :
        (redis.set_nx (key_prefix key) (reservation redis h (redis.time s) ttl) ttl s).0 ≡ ok false
        → Move h s idle
            (redis.set_nx (key_prefix key) (reservation redis h (redis.time s) ttl) ttl s).1
            reading
            false
    reserve_failed :
        {e : String}
        → (redis.set_nx (key_prefix key) (reservation redis h (redis.time s) ttl) ttl s).0 ≡ err e
        → Move h s idle
            (redis.set_nx (key_prefix key) (reservation redis h (redis.time s) ttl) ttl s).1
            finished
            true
    -- The record is compared and replayed, without another command.
    read : Move h s reading (get redis key s).1 finished (failing_get (get redis key s).0)
    -- The handler may do anything behind the ports but touch the slot.
    respond :
        (a : Answer) (s' : S)
        → slot s' ≡ slot s
        → should_cache_response a.status ≡ true
        → Move h s running s' (loading a) false
    -- It panicked, or its status is not kept.
    refuse : (s' : S) → slot s' ≡ slot s → Move h s running s' dropping false
    load :
        {a : Answer} (r : IdempotencyRecord)
        → (get redis key s).0 ≡ ok r
        → Move h s (loading a) (get redis key s).1 (storing a r) false
    load_failed :
        {a : Answer} (e : GetError)
        → (get redis key s).0 ≡ err e
        → Move h s (loading a) (get redis key s).1 finished true
    store :
        {a : Answer} {r : IdempotencyRecord} (now : ℕ)
        → Move h s
            (storing a r)
            (redis.eval
              (complete_script redis
                (key_prefix key)
                (completion redis r a.status a.headers a.body now ttl)
                (ttl / 1_000_000))
              s).1
            finished
            (failing
              (redis.eval
                (complete_script redis
                  (key_prefix key)
                  (completion redis r a.status a.headers a.body now ttl)
                  (ttl / 1_000_000))
                s).0)
    drop :
        Move h s dropping
          (redis.eval (release_script redis (key_prefix key)) s).1
          finished
          (failing (redis.eval (release_script redis (key_prefix key)) s).0)

  -- Redis, the requests by their numbers, and whether any command has failed.
  pub record System : Type 0 where
    pub world : S
    pub pc : ℕ → Pc
    pub failed : Bool

  -- A request moves, or the slot expires while no request holds it, or something else happens that
  -- leaves the slot alone.
  pub data Step (hash : ℕ → String) (x : System) : System → Type 0 where
    pick :
        (i : ℕ) {s' : S} {p : Pc} {failure : Bool}
        → Move (hash i) x.world (x.pc i) s' p failure
        → Step hash x (record { world = s'; pc = update x.pc i p; failed = x.failed || failure })
    expire :
        (s' : S)
        → slot s' ≡ none
        → ((i : ℕ) → owns (x.pc i) ≡ false)
        → Step hash x (record x { world = s' })
    other : (s' : S) → slot s' ≡ slot x.world → Step hash x (record x { world = s' })

  pub data Reach (hash : ℕ → String) (x : System) : System → Type 0 where
    here : Reach hash x x
    later : {y z : System} → Reach hash x y → Step hash y z → Reach hash x z

  -- A row of steps in which the slot expires.
  abbrev pub Expired : {hash : ℕ → String} {x y : System} → Reach hash x y → Type 0
  Expired here = ⊥
  Expired (later r (expire s' gone unheld)) = Unit
  Expired (later r (pick i m)) = Expired r
  Expired (later r (other s' same)) = Expired r
