-- ===== src/Http/Idempotency/Laws/Replay.antt =====
-- A retry of a kept request: the stored response is sent again, and the handler does not run.
use cloud_ops_manager.Common.{
  ◌<◌, append-nil, ℕ, String, ◌≡◌, ◌≢◌, refl, sym, ◌∙◌, ap, Bool, true, false, Option, some, none,
  List, [], ◌∷◌, ◌++◌, ok, str_eq_refl, if◌then◌else◌, append_assoc,
}
use cloud_ops_manager.Text.{Text}
use cloud_ops_manager.Http.Writer.{
  Handler, World, Writer, returned, header_get, on_writer, Chunk, set_header, write_header, write,
  Headers, is_empty,
}
use cloud_ops_manager.Http.Writer.Laws.{
  IsFresh, Received, set_header-IsFresh, write_header-Received, write-Received,
  header_get-header_set,
}
use cloud_ops_manager.Http.Idempotency.{
  idempotency_middleware, with_body, reserved, replay, replay_cached_response, set_headers,
  write_body, or_ok, idempotency_replay_header,
}
use cloud_ops_manager.Http.Writer.Maps.{IsMap}
use cloud_ops_manager.Http.Idempotency.Laws.Captured.{
  replayed_headers, replayed_value, get-replayed_headers,
}
use cloud_ops_manager.Http.Idempotency.Laws.Guards.{middleware-with_body}
use cloud_ops_manager.Http.Idempotency.Laws.Slots.{
  key_of, IsKeyed, entered, seen_status, seen_headers, seen_body, LeavesSlot, middleware-Kept,
}
use cloud_ops_manager.Idempotency.Store.{IdempotencyStore, IdempotencyRecord, IsLawful, completed}

set_headers-IsFresh :
    (hs : List (String × String)) (w : Writer) → IsFresh w → IsFresh (set_headers hs w)
set_headers-IsFresh [] w f = f
set_headers-IsFresh ((k, v) ∷ hs) w f =
    set_headers-IsFresh hs (set_header k v w) (set_header-IsFresh k v w f)

write_body-Received :
    (cs : List Chunk) (status : ℕ) (hs : Headers) (body : List Chunk) (w : Writer)
    → Received status hs body w
    → Received status hs (body ++ cs) (write_body cs w)
write_body-Received [] status hs body w r = rw append-nil r
write_body-Received (c ∷ cs) status hs body w r = rw (← append_assoc body (c ∷ []) cs) (
    write_body-Received cs status hs (body ++ c ∷ []) (write c w)
      (write-Received c status hs body w r))

-- The body that a replay sends: none if the stored body has no bytes.
abbrev pub replayed_body : List Chunk → List Chunk
replayed_body body = if is_empty body then [] else body

body_sent :
    (none_kept : Bool) (body : List Chunk) (status : ℕ) (hs : Headers) (v : Writer)
    → Received status hs [] v
    → Received status hs
        (if none_kept then [] else body)
        (if none_kept then v else write_body body v)
body_sent true body status hs v sent = sent
body_sent false body status hs v sent = write_body-Received body status hs [] v sent

some_ne_none : {A : Type 0} (a : A) → ◌≢◌ {A = Option A} (some a) none
some_ne_none a e = cc

-- A replay through a fresh writer sends the stored status (200 for 0) and body, under the replay
-- mark and the stored headers.
pub replay-Received :
    (r : IdempotencyRecord) (w : Writer)
    → IsFresh w
    → Received
        (or_ok r.status_code)
        (replayed_headers r.headers w)
        (replayed_body r.body)
        (replay r w)
unfolding replay
replay-Received r w f =
    let w₁ = set_headers r.headers w in
    let w₂ = set_header idempotency_replay_header "true" w₁ in
    let fresh =
      set_header-IsFresh idempotency_replay_header "true" w₁ (set_headers-IsFresh r.headers w f) in
    body_sent (is_empty r.body) r.body (or_ok r.status_code) w₂.base.headers
      (write_header (or_ok r.status_code) w₂) (write_header-Received (or_ok r.status_code) w₂ fresh)

pub replay_mark :
    (cs : List (String × String)) (w : Writer)
    → header_get idempotency_replay_header (replayed_headers cs w) ≡ "true"
unfolding set_header
replay_mark cs w = rw header_get-header_set refl

module _ {S : Type 0} (store : IdempotencyStore S) (peek : S → String → Option IdempotencyRecord)
    (lawful : IsLawful store peek) (ttl : ℕ) (valid_uuid : String → Bool)
    (hash : Text → String) where
  -- A reservation of a key that has a record answers that record, and changes nothing there.
  reserve_existing :
      (k h : String) (s : S) (r : IdempotencyRecord) (a : Option IdempotencyRecord × Bool)
      → peek s k ≡ some r
      → (store.reserve k h ttl s).0 ≡ ok a
      → (store.reserve k h ttl s).0 ≡ ok (some r, false)
  reserve_existing k h s r (o, true) there reserved_now =
      absurd (some_ne_none r (sym there ∙ (lawful.created k h ttl s o reserved_now).0))
  reserve_existing k h s r (o, false) there reserved_now =
      reserved_now ∙ ap (λ x. ok (x, false)) ((lawful.taken k h ttl s o reserved_now).1 ∙ there)

  -- So the middleware answers from the record, and the handler does not run.
  pub middleware_existing :
      (next : Handler S) (w : World S) (body : Text) (r : IdempotencyRecord)
      (a : Option IdempotencyRecord × Bool)
      → IsKeyed valid_uuid w body
      → peek w.env (key_of w) ≡ some r
      → (store.reserve (key_of w) (hash body) ttl w.env).0 ≡ ok a
      → idempotency_middleware store ttl valid_uuid hash next w ≡ (
        returned,
        on_writer
            (replay_cached_response
              (some r)
              (hash body)
              (header_get "X-Request-Id" w.request.headers))
            (record w { env = (store.reserve (key_of w) (hash body) ttl w.env).1 }),
      )
  middleware_existing next w body r a k there answered =
      middleware-with_body store ttl valid_uuid hash next w k.keyed k.valid
      ∙ (unfold with_body reserved in
          rw (k.read, reserve_existing _ (hash body) w.env r a there answered))

  pub replay_completed :
      (r : IdempotencyRecord) (h id : String) (w : Writer)
      → r.request_hash ≡ h
      → r.state ≡ completed
      → replay_cached_response (some r) h id w ≡ replay r w
  unfolding replay_cached_response
  replay_completed r h id w same done = rw (same, done, str_eq_refl)

  -- A kept request that is retried: let a first request with a valid key run its handler, return
  -- with a status below 500, leave a map of headers on its writer, and be completed; and let the
  -- slot of the key be the same when a second request with that key and body reserves it without a
  -- store error. Then the second request returns, whatever its handler: all that it changes behind
  -- the ports is its own reservation, and through a fresh writer the client receives the first
  -- response's status and body. Under each name it gets the replay mark; for a name that is not
  -- kept, what the second writer has; and else what the first writer had, if it had anything, or
  -- what the second has.
  pub retry_replays :
      (next next' : Handler S) (w w' : World S) (body : Text) (o : Option IdempotencyRecord)
      (a : Option IdempotencyRecord × Bool)
      → IsKeyed valid_uuid w body
      → (store.reserve (key_of w) (hash body) ttl w.env).0 ≡ ok (o, true)
      → LeavesSlot store peek lawful ttl valid_uuid hash next w body
      → (next (entered store peek lawful ttl valid_uuid hash w body)).0 ≡ returned
      → seen_status store peek lawful ttl valid_uuid hash next w body < 500
      → (store.complete
          (key_of w)
          (seen_status store peek lawful ttl valid_uuid hash next w body)
          (seen_headers store peek lawful ttl valid_uuid hash next w body)
          (seen_body store peek lawful ttl valid_uuid hash next w body)
          ttl
          (next (entered store peek lawful ttl valid_uuid hash w body)).1.env).0
        ≡ ok tt
      → IsKeyed valid_uuid w' body
      → key_of w' ≡ key_of w
      → peek w'.env (key_of w)
        ≡ peek (idempotency_middleware store ttl valid_uuid hash next w).1.env (key_of w)
      → (store.reserve (key_of w') (hash body) ttl w'.env).0 ≡ ok a
      → IsFresh w'.writer
      → IsMap (next (entered store peek lawful ttl valid_uuid hash w body)).1.writer.base.headers
      → let result = idempotency_middleware store ttl valid_uuid hash next' w' in
        let headers =
          (next (entered store peek lawful ttl valid_uuid hash w body)).1.writer.base.headers in
        (hs : Headers) × (result.0 ≡ returned)
        × (result.1.env ≡ (store.reserve (key_of w') (hash body) ttl w'.env).1)
        × Received
            (or_ok (seen_status store peek lawful ttl valid_uuid hash next w body))
            hs
            (replayed_body (seen_body store peek lawful ttl valid_uuid hash next w body))
            result.1.writer
        × ((k : String) → header_get k hs ≡ replayed_value headers w'.writer.base.headers k)
  retry_replays next next' w w' body o a k created leaves exits cached done k' same_key same_slot
        answered fresh map =
      let (r, there, state, _, h, status, kept, sent) =
        middleware-Kept store peek lawful ttl valid_uuid hash next w body o k created leaves exits
          cached done in
      let received = replay-Received r w'.writer fresh in
      let there' : peek w'.env (key_of w') ≡ some r =
        ap (peek w'.env) same_key ∙ (same_slot ∙ there) in
      rw
        (
          middleware_existing next' w' body r a k' there' answered,
          replay_completed r (hash body) (header_get "X-Request-Id" w'.request.headers) w'.writer h
              state,
        )
        (
          replayed_headers r.headers w'.writer,
          refl,
          refl,
          rw (← status, ← sent) received,
          λ k. rw kept (get-replayed_headers _ w'.writer map k),
        )
