-- ===== src/Http/Idempotency/Laws/Lost.antt =====
-- A completion that fails, as where the client of the first request has gone: Complete runs under
-- the context of the request, which ends with its client, and Release does not.
use cloud_ops_manager.Common.{
  ◌<◌, ℕ, String, ◌≡◌, ◌∙◌, refl, ap, Bool, true, Option, some, [], ◌∷◌, Result, ok, err,
}
use cloud_ops_manager.Text.{Text}
use cloud_ops_manager.Http.Writer.{
  Handler, World, returned, header_get, Headers, error_json, ErrorResponse,
}
use cloud_ops_manager.Http.Writer.Laws.{IsFresh, Received}
use cloud_ops_manager.Http.Response.{err_code_idempotency_in_progress}
use cloud_ops_manager.Http.Idempotency.{idempotency_middleware, finish, complete}
use cloud_ops_manager.Http.Idempotency.Laws.Slots.{
  key_of, IsKeyed, entered, seen_status, seen_headers, seen_body, LeavesSlot, middleware_created,
  still-Reserved, cached_below,
}
use cloud_ops_manager.Http.Idempotency.Laws.Conflicts.{conflict_answers}
use cloud_ops_manager.Idempotency.Store.{IdempotencyStore, IdempotencyRecord, IsLawful}

module _ {S : Type 0} (store : IdempotencyStore S) (peek : S → String → Option IdempotencyRecord)
    (lawful : IsLawful store peek) (ttl : ℕ) (valid_uuid : String → Bool) (hash : Text → String)
    (next : Handler S) (w : World S) (body : Text) where
  -- The answer of the store to the completion behind the handler, and the world then.
  abbrev pub completion : Result String Unit × S
  completion =
      store.complete (key_of w) (seen_status store peek lawful ttl valid_uuid hash next w body)
        (seen_headers store peek lawful ttl valid_uuid hash next w body)
        (seen_body store peek lawful ttl valid_uuid hash next w body) ttl
        (next (entered store peek lawful ttl valid_uuid hash w body)).1.env

  uncompleted-env :
      (o : Option IdempotencyRecord) (e : String)
      → IsKeyed valid_uuid w body
      → (store.reserve (key_of w) (hash body) ttl w.env).0 ≡ ok (o, true)
      → (next (entered store peek lawful ttl valid_uuid hash w body)).0 ≡ returned
      → seen_status store peek lawful ttl valid_uuid hash next w body < 500
      → completion.0 ≡ err e
      → let result = idempotency_middleware store ttl valid_uuid hash next w in
        (result.0 ≡ returned) × (result.1.env ≡ completion.1)
  uncompleted-env o e k created exits below failed =
      rw (middleware_created store peek lawful ttl valid_uuid hash next w body o k created) (
        unfold finish complete in
        rw
          (
            exits,
            cached_below (seen_status store peek lawful ttl valid_uuid hash next w body) below,
            failed,
          )
          (refl, refl))

  -- A completion that is lost. Let a first request with a valid key run its handler, which leaves
  -- the slot alone and returns with a status below 500; let its completion fail and leave the slot
  -- as it is, as under a context that has ended; and let a second request with the key and body
  -- find the slot so, and reserve it without a store error. Then the first returns as if it had
  -- been kept. The second, through a fresh writer, is answered 409 with Retry-After 1, and its
  -- handler does not run: behind the ports it has only attempted its reservation.
  pub lost_completion_blocks :
      (next' : Handler S) (w' : World S) (o : Option IdempotencyRecord)
      (a : Option IdempotencyRecord × Bool) (e : String)
      → IsKeyed valid_uuid w body
      → (store.reserve (key_of w) (hash body) ttl w.env).0 ≡ ok (o, true)
      → LeavesSlot store peek lawful ttl valid_uuid hash next w body
      → (next (entered store peek lawful ttl valid_uuid hash w body)).0 ≡ returned
      → seen_status store peek lawful ttl valid_uuid hash next w body < 500
      → completion.0 ≡ err e
      → peek completion.1 (key_of w)
        ≡ peek (next (entered store peek lawful ttl valid_uuid hash w body)).1.env (key_of w)
      → IsKeyed valid_uuid w' body
      → key_of w' ≡ key_of w
      → peek w'.env (key_of w)
        ≡ peek (idempotency_middleware store ttl valid_uuid hash next w).1.env (key_of w)
      → (store.reserve (key_of w') (hash body) ttl w'.env).0 ≡ ok a
      → IsFresh w'.writer
      → let result = idempotency_middleware store ttl valid_uuid hash next' w' in
        ((idempotency_middleware store ttl valid_uuid hash next w).0 ≡ returned)
        × (result.1.env ≡ (store.reserve (key_of w') (hash body) ttl w'.env).1)
        × ((hs : Headers) × (answer : ErrorResponse) × Received 409 hs
              (error_json answer ∷ [])
              result.1.writer
            × (answer.code ≡ err_code_idempotency_in_progress)
            × (header_get "Retry-After" hs ≡ "1"))
  lost_completion_blocks next' w' o a e k created leaves exits below failed left k' same_key
        same_slot answered fresh =
      let (exit, env) = uncompleted-env o e k created exits below failed in
      let (r, there, flies, key, same) =
        still-Reserved store peek lawful ttl valid_uuid hash next w body o created leaves in
      let there' : peek w'.env (key_of w') ≡ some r =
        ap (peek w'.env) same_key
        ∙ (same_slot ∙ (ap (λ s. peek s (key_of w)) env ∙ (left ∙ there))) in
      let (own, other, busy) =
        conflict_answers store peek lawful ttl valid_uuid hash next' w' body r a k' there' answered
          fresh in
      (exit, own, busy same flies)
