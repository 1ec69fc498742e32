-- ===== src/Http/Idempotency/Laws/Guards.antt =====
-- When the handler does not run, and what the client is told then.
use cloud_ops_manager.Common.{
  ℕ, String, ◌≡◌, ◌≢◌, refl, Bool, true, false, Option, Result, ok, err, arith, str_eq_iff,
  Bool-cases, inl, inr,
}
use cloud_ops_manager.Text.{Text}
use cloud_ops_manager.Http.Writer.{Handler, World, header_get}
use cloud_ops_manager.Http.Idempotency.{
  idempotency_middleware, with_body, reserved, header_idempotency_key,
}
use cloud_ops_manager.Idempotency.Store.{IdempotencyStore, IdempotencyRecord}

module _ {S : Type 0} (store : IdempotencyStore S) (ttl : ℕ) (valid_uuid : String → Bool)
    (hash : Text → String) where
  -- A valid key leads on to the body.
  pub middleware-with_body :
      (next : Handler S) (w : World S)
      → header_get header_idempotency_key w.request.headers ≢ ""
      → valid_uuid (header_get header_idempotency_key w.request.headers) ≡ true
      → idempotency_middleware store ttl valid_uuid hash next w
        ≡ with_body store ttl valid_uuid hash next
            (header_get header_idempotency_key w.request.headers)
            (header_get "X-Request-Id" w.request.headers)
            w.request.body
            w
  unfolding idempotency_middleware
  middleware-with_body next w keyed valid =
      ground (arith, str_eq_iff (header_get header_idempotency_key w.request.headers) "")

  reserved_same :
      (next next' : Handler S) (key h id : String)
      (r : Result String (Option IdempotencyRecord × Bool)) (w : World S)
      → ((o : Option IdempotencyRecord) → r ≢ ok (o, true))
      → reserved store ttl valid_uuid hash next key h id r w
        ≡ reserved store ttl valid_uuid hash next' key h id r w
  unfolding reserved
  reserved_same next next' key h id (err e) w refused = refl
  reserved_same next next' key h id (ok (o, false)) w refused = refl
  reserved_same next next' key h id (ok (o, true)) w refused = absurd (refused o refl)

  with_body_same :
      (next next' : Handler S) (key id : String) (r : Result String Text) (w : World S)
      → ((body : Text) (o : Option IdempotencyRecord)
          → r ≡ ok body
          → (store.reserve key (hash body) ttl w.env).0 ≢ ok (o, true))
      → with_body store ttl valid_uuid hash next key id r w
        ≡ with_body store ttl valid_uuid hash next' key id r w
  unfolding with_body
  with_body_same next next' key id (err e) w refused = refl
  with_body_same next next' key id (ok body) w refused =
      reserved_same next next' key (hash body) id (store.reserve key (hash body) ttl w.env).0
        (record w { env = (store.reserve key (hash body) ttl w.env).1 }) (λ o. refused body o refl)

  -- A request whose key is not a UUID, whose body cannot be read, or whose key the store does not
  -- reserve for it is answered without the handler: any two handlers give the same result.
  pub runs_only_when_created :
      (next next' : Handler S) (w : World S)
      → header_get header_idempotency_key w.request.headers ≢ ""
      → ((body : Text) (o : Option IdempotencyRecord)
          → w.request.body ≡ ok body
          → valid_uuid (header_get header_idempotency_key w.request.headers) ≡ true
          → (store.reserve
              (header_get header_idempotency_key w.request.headers)
              (hash body)
              ttl
              w.env).0
            ≢ ok (o, true))
      → idempotency_middleware store ttl valid_uuid hash next w
        ≡ idempotency_middleware store ttl valid_uuid hash next' w
  unfolding idempotency_middleware
  runs_only_when_created next next' w keyed refused =
      let key = header_get header_idempotency_key w.request.headers in
      elim (Bool-cases (valid_uuid key)) [
        | inl valid ↦
            rw (middleware-with_body next w keyed valid, middleware-with_body next' w keyed valid)
              (with_body_same next next' key (header_get "X-Request-Id" w.request.headers)
                w.request.body w (λ body o read. refused body o read valid))
        | inr invalid ↦ ground (arith, str_eq_iff key "")
      ]
