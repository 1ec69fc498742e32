-- ===== src/Idempotency/RedisStore/Laws.antt =====
-- The Redis store meets the contract of the port.
use cloud_ops_manager.Common.{
  ℕ, String, ◌≡◌, ◌≢◌, refl, ◌∙◌, inl, inr, Bool, true, false, Option, some, none, List, Result, ok,
  err, arith, str_eq_refl, ◌/◌,
}
use cloud_ops_manager.Http.Writer.{Chunk}
use cloud_ops_manager.Idempotency.Store.{IdempotencyRecord, IsLawful, Kept, Reserved}
use cloud_ops_manager.Idempotency.RedisStore.Server.{Redis, RedisLaws, Envelope}
use cloud_ops_manager.Idempotency.RedisStore.{
  key_prefix, to_record, get, reserve, complete, release, after_set_nx, complete_existing,
  complete_script, release_script, redis_store, peek, reservation, completion, got, GetError,
  not_found, redis_get, unreadable, decoded,
}
use cloud_ops_manager.Idempotency.RedisStore.Reading.{
  peek_of_find, peek_of_view, reserve_created, get_found, get_keeps, reserve_taken, ran_ok,
  found_inv, find-release_script, flying, complete_script_elsewhere, release_script_elsewhere,
  prefix-ne,
}

module _ {S D : Type 0} (redis : Redis S D) (laws : RedisLaws redis) where
  decoded_found : (k : String) (a : Result String Envelope) → decoded redis k a ≢ err not_found
  decoded_found k (err e) m = cc
  decoded_found k (ok e) m = cc

  -- A read of a key that has a record does not miss it.
  read_finds :
      (k : String) (s : S) (r : IdempotencyRecord)
      → peek redis s k ≡ some r
      → (get redis k s).0 ≢ err not_found
  unfolding get peek
  read_finds k s r there missed = go (redis.get (key_prefix k) s).0 refl missed
    where
      go :
          (a : Result String (Option Envelope))
          → (redis.get (key_prefix k) s).0 ≡ a
          → got redis k a ≡ err not_found
          → ⊥
      go (err e) h m = cc
      go (ok none) h m = ground (arith, laws.get_reads (key_prefix k) s none h)
      go (ok (some e)) h m = decoded_found k (redis.unmarshal e) m

  -- Where the key holds a value, the script of Complete replaces it.
  pub find-complete_script :
      (k : String) (v e : Envelope) (ms : ℕ) (d : D)
      → redis.find d k ≡ some e
      → redis.find (complete_script redis k v ms d).1 k ≡ some v
  unfolding complete_script
  find-complete_script k v e ms d h = rw (h, complete_script) (rw laws.find-put (rw str_eq_refl))

  complete_answer :
      (k h : String) (status : ℕ) (headers : List (String × String)) (body : List Chunk)
      (ttl now : ℕ) (a : Result GetError IdempotencyRecord) (s : S) (r : IdempotencyRecord)
      → (a ≡ err not_found → ⊥)
      → ((q : IdempotencyRecord) → a ≡ ok q → q ≡ r)
      → peek redis s k ≡ some r
      → r.request_hash ≡ h
      → (complete_existing redis k status headers body ttl now a s).0 ≡ ok tt
      → Kept k h status headers body
          (peek redis (complete_existing redis k status headers body ttl now a s).1 k)
  unfolding complete_existing peek to_record
  complete_answer k h status headers body ttl now (err not_found) s r there same p hash done =
      absurd (there refl)
  complete_answer k h status headers body ttl now (err (redis_get e)) s r there same p hash done =
      cc
  complete_answer k h status headers body ttl now (err (unreadable e)) s r there same p hash done =
      cc
  complete_answer k h status headers body ttl now (ok q) s r there same p hash done =
      let v = completion redis q status headers body now ttl in
      let f = complete_script redis (key_prefix k) v (ttl / 1_000_000) in
      let (n, ran_it) = ran_ok redis laws "redis complete script: " (redis.eval f s).0 done in
      let (e, holds, _) = found_inv redis laws k (redis.find (redis.view s) (key_prefix k)) r p in
      (
        to_record k v,
        rw (laws.eval_runs f s n ran_it)
            (rw (find-complete_script (key_prefix k) v e (ttl / 1_000_000) (redis.view s) holds)),
        refl,
        refl,
        rw (same q refl) hash,
        refl,
        refl,
        refl,
      )

  -- A completion looks at nothing but the hash of the record that it finds.
  pub complete_keeps_hash :
      (k : String) (status : ℕ) (headers : List (String × String)) (body : List Chunk) (ttl : ℕ)
      (s : S) (r : IdempotencyRecord)
      → peek redis s k ≡ some r
      → (complete redis k status headers body ttl s).0 ≡ ok tt
      → Kept k r.request_hash status headers body
          (peek redis (complete redis k status headers body ttl s).1 k)
  unfolding complete
  complete_keeps_hash k status headers body ttl s r there done =
      complete_answer k r.request_hash status headers body ttl (redis.time s) (get redis k s).0
        (get redis k s).1 r (read_finds k s r there)
        (λ q got_it. ground (arith, get_found redis laws k s q got_it))
        (peek_of_view redis laws (get redis k s).1 s k (get_keeps redis laws k s) ∙ there) refl done

  complete_keeps :
      (k h : String) (status : ℕ) (headers : List (String × String)) (body : List Chunk) (ttl : ℕ)
      (s : S)
      → Reserved k h (peek redis s k)
      → (complete redis k status headers body ttl s).0 ≡ ok tt
      → Kept k h status headers body (peek redis (complete redis k status headers body ttl s).1 k)
  complete_keeps k h status headers body ttl s (r, there, _, _, hash) done =
      rw (← hash) (complete_keeps_hash k status headers body ttl s r there done)

  release_frees :
      (k h : String) (s : S)
      → Reserved k h (peek redis s k)
      → (release redis k s).0 ≡ ok tt
      → peek redis (release redis k s).1 k ≡ none
  unfolding release peek
  release_frees k h s (r, there, state, _, _) done =
      let f = release_script redis (key_prefix k) in
      let (n, ran_it) = ran_ok redis laws "redis release script: " (redis.eval f s).0 done in
      let (e, holds, same) =
        found_inv redis laws k (redis.find (redis.view s) (key_prefix k)) r there in
      rw (laws.eval_runs f s n ran_it) (
        rw (
          find-release_script redis laws (key_prefix k) e (redis.view s) holds
            (flying redis laws k e r same state)))

  script_elsewhere :
      (f : D → ℕ × D) (s : S) (j : String)
      → redis.find (f (redis.view s)).1 j ≡ redis.find (redis.view s) j
      → redis.find (redis.view (redis.eval f s).1) j ≡ redis.find (redis.view s) j
  script_elsewhere f s j same = elim (laws.eval_atomic f s) [
    | inl untouched ↦ rw untouched
    | inr executed ↦ rw executed same
  ]

  answer_elsewhere :
      (k j : String) (env : Envelope) (r : Result String Bool) (s : S)
      → peek redis (after_set_nx redis k env r s).1 j ≡ peek redis s j
  unfolding after_set_nx
  answer_elsewhere k j env (err e) s = refl
  answer_elsewhere k j env (ok true) s = refl
  answer_elsewhere k j env (ok false) s =
      peek_of_view redis laws (get redis k s).1 s j (get_keeps redis laws k s)

  reserve_elsewhere :
      (k h j : String) (ttl : ℕ) (s : S)
      → k ≢ j
      → peek redis (reserve redis k h ttl s).1 j ≡ peek redis s j
  unfolding reserve
  reserve_elsewhere k h j ttl s other =
      let env = reservation redis h (redis.time s) ttl in
      let sent = redis.set_nx (key_prefix k) env ttl s in
      answer_elsewhere k j env sent.0 sent.1
      ∙ peek_of_find redis laws sent.1 s j
          (laws.set_nx_elsewhere (key_prefix k) (key_prefix j) env ttl s (prefix-ne k j other))

  complete_existing_elsewhere :
      (k j : String) (status : ℕ) (headers : List (String × String)) (body : List Chunk)
      (ttl now : ℕ) (a : Result GetError IdempotencyRecord) (s : S)
      → k ≢ j
      → peek redis (complete_existing redis k status headers body ttl now a s).1 j ≡ peek redis s j
  unfolding complete_existing
  complete_existing_elsewhere k j status headers body ttl now (err not_found) s other = refl
  complete_existing_elsewhere k j status headers body ttl now (err (redis_get e)) s other = refl
  complete_existing_elsewhere k j status headers body ttl now (err (unreadable e)) s other = refl
  complete_existing_elsewhere k j status headers body ttl now (ok q) s other =
      peek_of_find redis laws _ s j (
        script_elsewhere _ s (key_prefix j) (
          complete_script_elsewhere redis laws (key_prefix k) (key_prefix j) _ _ (redis.view s)
            (prefix-ne k j other)))

  complete_elsewhere :
      (k j : String) (status : ℕ) (headers : List (String × String)) (body : List Chunk) (ttl : ℕ)
      (s : S)
      → k ≢ j
      → peek redis (complete redis k status headers body ttl s).1 j ≡ peek redis s j
  unfolding complete
  complete_elsewhere k j status headers body ttl s other =
      complete_existing_elsewhere k j status headers body ttl (redis.time s) (get redis k s).0
        (get redis k s).1 other
      ∙ peek_of_view redis laws (get redis k s).1 s j (get_keeps redis laws k s)

  release_elsewhere :
      (k j : String) (s : S) → k ≢ j → peek redis (release redis k s).1 j ≡ peek redis s j
  unfolding release
  release_elsewhere k j s other = peek_of_find redis laws _ s j (
      script_elsewhere _ s (key_prefix j) (
        release_script_elsewhere redis laws (key_prefix k) (key_prefix j) (redis.view s)
          (prefix-ne k j other)))

  -- On a Redis that behaves as documented, the Redis store meets the contract of the port.
  pub redis_store-IsLawful : IsLawful (redis_store redis) (peek redis)
  redis_store-IsLawful = record {
    created = reserve_created redis laws;
    taken = reserve_taken redis laws;
    completes = complete_keeps;
    releases = release_frees;
    reserve_elsewhere = reserve_elsewhere;
    complete_elsewhere = complete_elsewhere;
    release_elsewhere = release_elsewhere;
  }
