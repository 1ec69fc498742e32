-- ===== src/Http/Idempotency/Laws/Separate.antt =====
-- The middleware and the slots of other keys.
use cloud_ops_manager.Common.{
  inr, inl, ◌≡◌, ◌≢◌, ◌∙◌, refl, ℕ, String, Bool, Bool-cases, true, false, Option, Result, ok, err,
  str_eq,
}
use cloud_ops_manager.Text.{Text}
use cloud_ops_manager.Http.Writer.{Handler, World, Exit, returned, panicked}
use cloud_ops_manager.Http.Idempotency.{
  idempotency_middleware, with_body, reserved, finish, release, complete, mark,
  should_cache_response, top_status,
}
use cloud_ops_manager.Http.Idempotency.Laws.Slots.{key_of}
use cloud_ops_manager.Idempotency.Store.{IdempotencyStore, IdempotencyRecord, IsLawful}

module _ {S : Type 0} (store : IdempotencyStore S) (peek : S → String → Option IdempotencyRecord)
    (lawful : IsLawful store peek) (ttl : ℕ) (valid_uuid : String → Bool) (hash : Text → String)
    (next : Handler S) (j : String)
    (leaves : (w : World S) → peek (next w).1.env j ≡ peek w.env j) where
  mark-env :
      (r : Result String Unit) (w : World S) → (mark store ttl valid_uuid hash next r w).env ≡ w.env
  mark-env (ok _) w = refl
  mark-env (err e) w = refl

  complete_apart :
      (key : String) (w : World S)
      → key ≢ j
      → peek (complete store ttl valid_uuid hash next key w).env j ≡ peek w.env j
  unfolding complete
  complete_apart key w other =
      rw (mark-env _ _) (lawful.complete_elsewhere key j _ _ _ ttl w.env other)

  finish_apart :
      (key : String) (exit : Exit) (w : World S)
      → key ≢ j
      → peek (finish store ttl valid_uuid hash next key exit w).1.env j ≡ peek w.env j
  unfolding finish release
  finish_apart key (panicked message) w other = lawful.release_elsewhere key j w.env other
  finish_apart key returned w other =
      elim (Bool-cases (should_cache_response (top_status w.writer.layers))) [
        | inl e ↦ rw e (complete_apart key w other)
        | inr e ↦ rw e (lawful.release_elsewhere key j w.env other)
      ]

  reserved_apart :
      (key h id : String) (r : Result String (Option IdempotencyRecord × Bool)) (w : World S)
      → key ≢ j
      → peek (reserved store ttl valid_uuid hash next key h id r w).1.env j ≡ peek w.env j
  unfolding reserved
  reserved_apart key h id (err e) w other = refl
  reserved_apart key h id (ok (o, false)) w other = refl
  reserved_apart key h id (ok (o, true)) w other = finish_apart key _ _ other ∙ leaves _

  with_body_apart :
      (key id : String) (b : Result String Text) (w : World S)
      → key ≢ j
      → peek (with_body store ttl valid_uuid hash next key id b w).1.env j ≡ peek w.env j
  unfolding with_body
  with_body_apart key id (err e) w other = refl
  with_body_apart key id (ok body) w other =
      reserved_apart key (hash body) id _ _ other
      ∙ lawful.reserve_elsewhere key (hash body) j ttl w.env other

  -- A request changes no slot but its own. For a lawful store, a key other than the request's, and
  -- a handler that never changes the slot of that key, the store holds under it after the request
  -- what it held before, whatever the request is, whichever answer it gets, and whichever command
  -- of the store fails.
  pub other_slots_kept :
      (w : World S)
      → key_of w ≢ j
      → peek (idempotency_middleware store ttl valid_uuid hash next w).1.env j ≡ peek w.env j
  unfolding idempotency_middleware
  other_slots_kept w other = elim (Bool-cases (str_eq (key_of w) "")) [
    | inl e ↦ rw e (leaves w)
    | inr e ↦ elim (Bool-cases (valid_uuid (key_of w))) [
      | inl v ↦ rw (e, v) (with_body_apart (key_of w) _ w.request.body w other)
      | inr v ↦ rw (e, v) refl
    ]
  ]
