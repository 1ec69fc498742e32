-- ===== src/Http/Idempotency/Laws/Slots.antt =====
-- What a request leaves in a lawful store.
use cloud_ops_manager.Common.{
  ◌<◌, ◌≤◌, arith, refl, none, false, List, ℕ, String, ◌≡◌, ◌≢◌, ◌∙◌, Bool, true, Option, ok,
}
use cloud_ops_manager.Text.{Text}
use cloud_ops_manager.Http.Writer.{Handler, World, header_get, on_writer}
use cloud_ops_manager.Http.Idempotency.{
  panicked, Exit, complete, top_body, should_cache_response, captured_headers, Chunk, top_status,
  returned, idempotency_middleware, with_body, reserved, finish, header_idempotency_key,
  push_recorder,
}
use cloud_ops_manager.Http.Idempotency.Laws.Guards.{middleware-with_body}
use cloud_ops_manager.Idempotency.Store.{
  Kept, Reserved, IdempotencyStore, IdempotencyRecord, IsLawful,
}

-- The key of a request.
abbrev pub key_of : {S : Type 0} → World S → String
key_of w = header_get header_idempotency_key w.request.headers

-- A request with a valid key whose body is `body`.
pub record IsKeyed {S : Type 0} (valid_uuid : String → Bool) (w : World S) (body : Text)
    : Type 0 where
  pub keyed : key_of w ≢ ""
  pub valid : valid_uuid (key_of w) ≡ true
  pub read : w.request.body ≡ ok body

pub cached_below : (status : ℕ) → status < 500 → should_cache_response status ≡ true
unfolding should_cache_response
cached_below status h = ground arith

uncached_from : (status : ℕ) → 500 ≤ status → should_cache_response status ≡ false
unfolding should_cache_response
uncached_from status h = ground arith

module _ {S : Type 0} (store : IdempotencyStore S) (peek : S → String → Option IdempotencyRecord)
    (lawful : IsLawful store peek) (ttl : ℕ) (valid_uuid : String → Bool)
    (hash : Text → String) where
  -- The world in which the handler of a request runs: its slot is reserved, and the recorder
  -- stands around the writer.
  abbrev pub entered : World S → Text → World S
  entered w body =
      on_writer push_recorder
        (record w { env = (store.reserve (key_of w) (hash body) ttl w.env).1 })

  -- The first request of a key is its handler and what follows it.
  pub middleware_created :
      (next : Handler S) (w : World S) (body : Text) (o : Option IdempotencyRecord)
      → IsKeyed valid_uuid w body
      → (store.reserve (key_of w) (hash body) ttl w.env).0 ≡ ok (o, true)
      → idempotency_middleware store ttl valid_uuid hash next w
        ≡ finish store ttl valid_uuid hash next
            (key_of w)
            (next (entered w body)).0
            (next (entered w body)).1
  middleware_created next w body o k created =
      middleware-with_body store ttl valid_uuid hash next w k.keyed k.valid
      ∙ (unfold with_body reserved in rw (k.read, created))

  -- What the recorder saw of the handler's response.
  abbrev pub seen_status : Handler S → World S → Text → ℕ
  seen_status next w body = top_status (next (entered w body)).1.writer.layers

  abbrev pub seen_headers : Handler S → World S → Text → List (String × String)
  seen_headers next w body = captured_headers (next (entered w body)).1.writer.base.headers

  abbrev pub seen_body : Handler S → World S → Text → List Chunk
  seen_body next w body = top_body (next (entered w body)).1.writer.layers

  -- The handler does not write to the slot of the key.
  abbrev pub LeavesSlot : Handler S → World S → Text → Type 0
  LeavesSlot next w body =
      peek (next (entered w body)).1.env (key_of w) ≡ peek (entered w body).env (key_of w)

  pub still-Reserved :
      (next : Handler S) (w : World S) (body : Text) (o : Option IdempotencyRecord)
      → (store.reserve (key_of w) (hash body) ttl w.env).0 ≡ ok (o, true)
      → LeavesSlot next w body
      → Reserved (key_of w) (hash body) (peek (next (entered w body)).1.env (key_of w))
  still-Reserved next w body o created leaves =
      rw leaves (lawful.created (key_of w) (hash body) ttl w.env o created).1

  -- A request with a valid key and a readable body, whose slot a lawful store reserves for it, and
  -- whose handler leaves the slot alone: when the handler returns with a status below 500 and the
  -- completion succeeds, the store keeps the response under the key, with the hash of the body,
  -- the status, the captured headers and the body that the handler wrote.
  pub middleware-Kept :
      (next : Handler S) (w : World S) (body : Text) (o : Option IdempotencyRecord)
      → IsKeyed valid_uuid w body
      → (store.reserve (key_of w) (hash body) ttl w.env).0 ≡ ok (o, true)
      → LeavesSlot next w body
      → (next (entered w body)).0 ≡ returned
      → seen_status next w body < 500
      → (store.complete
          (key_of w)
          (seen_status next w body)
          (seen_headers next w body)
          (seen_body next w body)
          ttl
          (next (entered w body)).1.env).0
        ≡ ok tt
      → Kept
          (key_of w)
          (hash body)
          (seen_status next w body)
          (seen_headers next w body)
          (seen_body next w body)
          (peek (idempotency_middleware store ttl valid_uuid hash next w).1.env (key_of w))
  middleware-Kept next w body o k created leaves exits below completed =
      rw (middleware_created next w body o k created) (
        unfold finish complete in
        rw (exits, cached_below (seen_status next w body) below, completed)
          (lawful.completes (key_of w) (hash body) _ _ _ ttl _
            (still-Reserved next w body o created leaves) completed))

  finish_frees :
      (next : Handler S) (key : String) (exit : Exit) (w : World S)
      → (exit ≡ returned → should_cache_response (top_status w.writer.layers) ≡ false)
      → ((finish store ttl valid_uuid hash next key exit w).1.env ≡ (store.release key w.env).1)
        × ((finish store ttl valid_uuid hash next key exit w).0 ≡ exit)
  unfolding finish
  finish_frees next key (panicked m) w uncached = (refl, refl)
  finish_frees next key returned w uncached = rw (uncached refl) (refl, refl)

  -- A request with a valid key and a readable body, whose slot a lawful store reserves for it, and
  -- whose handler leaves the slot alone: when the handler panics, or returns with a status of 500
  -- or above, and the release succeeds, the slot of the key is free again; a panic goes on.
  pub middleware_frees :
      (next : Handler S) (w : World S) (body : Text) (o : Option IdempotencyRecord)
      → IsKeyed valid_uuid w body
      → (store.reserve (key_of w) (hash body) ttl w.env).0 ≡ ok (o, true)
      → LeavesSlot next w body
      → ((next (entered w body)).0 ≡ returned → 500 ≤ seen_status next w body)
      → (store.release (key_of w) (next (entered w body)).1.env).0 ≡ ok tt
      → (peek (idempotency_middleware store ttl valid_uuid hash next w).1.env (key_of w) ≡ none)
        × ((idempotency_middleware store ttl valid_uuid hash next w).0 ≡ (next (entered w body)).0)
  middleware_frees next w body o k created leaves above released =
      let (env, exit) =
        finish_frees next (key_of w) (next (entered w body)).0 (next (entered w body)).1
          (λ e. uncached_from (seen_status next w body) (above e)) in
      rw (middleware_created next w body o k created) (
        rw env (
            lawful.releases (key_of w) (hash body) _ (still-Reserved next w body o created leaves)
              released),
        exit,
      )
