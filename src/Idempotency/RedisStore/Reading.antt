-- ===== src/Idempotency/RedisStore/Reading.antt =====
-- What Reserve answers and the scripts do to the server's data.
use text.Mathlib.TextLemmas.{append_cancel_left}
use cloud_ops_manager.Common.{
  str_eq-false, ℕ, String, ◌≡◌, ◌≢◌, refl, sym, ap, ◌∙◌, inl, inr, Bool, true, false, Option, some,
  none, Result, ok, err, arith, str_eq_refl, Option-cases, Bool-cases,
}
use cloud_ops_manager.Idempotency.Store.{IdempotencyRecord, Reserved, in_flight}
use cloud_ops_manager.Idempotency.RedisStore.Server.{Redis, RedisLaws, Envelope}
use cloud_ops_manager.Idempotency.RedisStore.{
  key_prefix, to_record, get, reserve, after_set_nx, complete_script, release_script, peek, found,
  reservation, mentions_in_flight, existing, got, decoded, GetError, ran,
}

pub prefix-ne : (k j : String) → k ≢ j → key_prefix k ≢ key_prefix j
unfolding key_prefix
prefix-ne k j h e = h (append_cancel_left "idempotency:" k j e)

pub some_ne_none : (r : IdempotencyRecord) → some r ≢ none
some_ne_none r h = cc

module _ {S D : Type 0} (redis : Redis S D) (laws : RedisLaws redis) where
  -- Where a read of the server's data is the same, so is a read of the store.
  pub peek_of_find :
      (s s' : S) (k : String)
      → redis.find (redis.view s) (key_prefix k) ≡ redis.find (redis.view s') (key_prefix k)
      → peek redis s k ≡ peek redis s' k
  unfolding peek
  peek_of_find s s' k e = rw e

  pub peek_of_view :
      (s s' : S) (k : String) → redis.view s ≡ redis.view s' → peek redis s k ≡ peek redis s' k
  peek_of_view s s' k e = peek_of_find s s' k (rw e)

  existing_not_created :
      (a : Result GetError IdempotencyRecord) (o : Option IdempotencyRecord)
      → existing redis a ≢ ok (o, true)
  existing_not_created (err e) o h = cc
  existing_not_created (ok r) o h = cc

  answer_created :
      (k : String) (env : Envelope) (r : Result String Bool) (s : S) (o : Option IdempotencyRecord)
      → (after_set_nx redis k env r s).0 ≡ ok (o, true)
      → (r ≡ ok true) × ((after_set_nx redis k env r s).1 ≡ s)
  unfolding after_set_nx
  answer_created k env (err e) s o h = cc
  answer_created k env (ok true) s o h = (refl, refl)
  answer_created k env (ok false) s o h = absurd (existing_not_created (get redis k s).0 o h)

  -- After a reservation that created, the key holds the new envelope.
  pub reserve_created :
      (k h : String) (ttl : ℕ) (s : S) (o : Option IdempotencyRecord)
      → (reserve redis k h ttl s).0 ≡ ok (o, true)
      → (peek redis s k ≡ none) × Reserved k h (peek redis (reserve redis k h ttl s).1 k)
  unfolding reserve peek to_record
  reserve_created k h ttl s o e =
      let env = reservation redis h (redis.time s) ttl in
      let sent = redis.set_nx (key_prefix k) env ttl s in
      let (new, same) = answer_created k env sent.0 sent.1 o e in
      let (free, holds) = laws.set_nx_new (key_prefix k) env ttl s new in
      (rw free, (to_record k env, rw same (rw holds), refl, refl, refl))

  decoded_inv :
      (k : String) (v : Envelope) (a : Result String Envelope) (r : IdempotencyRecord)
      → redis.unmarshal v ≡ a
      → decoded redis k a ≡ ok r
      → r ≡ to_record k v
  decoded_inv k v (err e) r read h = cc
  decoded_inv k v (ok e) r read h = let same : e ≡ v = laws.unmarshal_same v e read in cc

  got_inv :
      (k : String) (a : Result String (Option Envelope)) (r : IdempotencyRecord)
      → got redis k a ≡ ok r
      → (e : Envelope) × (a ≡ ok (some e)) × (r ≡ to_record k e)
  got_inv k (err e) r h = cc
  got_inv k (ok none) r h = cc
  got_inv k (ok (some e)) r h = (e, refl, decoded_inv k e (redis.unmarshal e) r refl h)

  existing_taken :
      (a : Result GetError IdempotencyRecord) (o : Option IdempotencyRecord)
      → existing redis a ≡ ok (o, false)
      → (r : IdempotencyRecord) × (a ≡ ok r) × (o ≡ some r)
  existing_taken (err e) o h = cc
  existing_taken (ok r) o h = (r, refl, ground arith)

  answer_taken :
      (k : String) (env : Envelope) (r : Result String Bool) (s : S) (o : Option IdempotencyRecord)
      → (after_set_nx redis k env r s).0 ≡ ok (o, false)
      → (r ≡ ok false)
        × (existing redis (get redis k s).0 ≡ ok (o, false))
        × ((after_set_nx redis k env r s).1 ≡ (get redis k s).1)
  unfolding after_set_nx
  answer_taken k env (err e) s o h = cc
  answer_taken k env (ok true) s o h = ground arith
  answer_taken k env (ok false) s o h = (refl, h, refl)

  -- A read that answers a record answers the record that is there.
  pub get_found :
      (k : String) (s : S) (r : IdempotencyRecord)
      → (get redis k s).0 ≡ ok r
      → peek redis s k ≡ some r
  unfolding get peek
  get_found k s r h =
      let (e, answered, same) = got_inv k (redis.get (key_prefix k) s).0 r h in
      rw (← laws.get_reads (key_prefix k) s (some e) answered) (rw same)

  pub get_keeps : (k : String) (s : S) → redis.view (get redis k s).1 ≡ redis.view s
  unfolding get
  get_keeps k s = laws.get_keeps (key_prefix k) s

  pub reserve_taken :
      (k h : String) (ttl : ℕ) (s : S) (o : Option IdempotencyRecord)
      → (reserve redis k h ttl s).0 ≡ ok (o, false)
      → (o ≢ none)
        × (o ≡ peek redis s k)
        × (peek redis (reserve redis k h ttl s).1 k ≡ peek redis s k)
  unfolding reserve
  reserve_taken k h ttl s o e =
      let env = reservation redis h (redis.time s) ttl in
      let sent = redis.set_nx (key_prefix k) env ttl s in
      let (old, answered, same) = answer_taken k env sent.0 sent.1 o e in
      let (r, got_it, there) = existing_taken (get redis k sent.1).0 o answered in
      let (_, unchanged) = laws.set_nx_old (key_prefix k) env ttl s old in
      (
        λ nothing. some_ne_none r (sym there ∙ nothing),
        there ∙ (sym (get_found k sent.1 r got_it) ∙ peek_of_view sent.1 s k unchanged),
        peek_of_view _ s k (ap redis.view same ∙ (get_keeps k sent.1 ∙ unchanged)),
      )

  pub ran_ok : (m : String) (a : Result String ℕ) → ran redis m a ≡ ok tt → (n : ℕ) × (a ≡ ok n)
  ran_ok m (err e) h = cc
  ran_ok m (ok n) h = (n, refl)

  pub found_inv :
      (k : String) (o : Option Envelope) (r : IdempotencyRecord)
      → found redis k o ≡ some r
      → (e : Envelope) × (o ≡ some e) × (r ≡ to_record k e)
  found_inv k none r h = cc
  found_inv k (some e) r h = (e, refl, ground arith)

  pub find-release_script :
      (k : String) (e : Envelope) (d : D)
      → redis.find d k ≡ some e
      → mentions_in_flight e ≡ true
      → redis.find (release_script redis k d).1 k ≡ none
  unfolding release_script
  find-release_script k e d h m = rw (h, release_script) (rw m (rw laws.find-del (rw str_eq_refl)))

  pub flying :
      (k : String) (e : Envelope) (r : IdempotencyRecord)
      → r ≡ to_record k e
      → r.state ≡ in_flight
      → mentions_in_flight e ≡ true
  unfolding to_record mentions_in_flight
  flying k e r same state = let flies : e.state ≡ in_flight = ground arith in rw flies

  pub complete_script_elsewhere :
      (k j : String) (v : Envelope) (ms : ℕ) (d : D)
      → k ≢ j
      → redis.find (complete_script redis k v ms d).1 j ≡ redis.find d j
  unfolding complete_script
  complete_script_elsewhere k j v ms d other = elim (Option-cases (redis.find d k)) [
    | inl missing ↦ rw (missing, complete_script)
    | inr (e, holds) ↦ rw (holds, complete_script) (rw laws.find-put (rw (str_eq-false k j other)))
  ]

  pub release_script_elsewhere :
      (k j : String) (d : D) → k ≢ j → redis.find (release_script redis k d).1 j ≡ redis.find d j
  unfolding release_script
  release_script_elsewhere k j d other = elim (Option-cases (redis.find d k)) [
    | inl missing ↦ rw (missing, release_script)
    | inr (e, holds) ↦ elim (Bool-cases (mentions_in_flight e)) [
      | inl mentions ↦
          rw (holds, mentions, release_script) (rw laws.find-del (rw (str_eq-false k j other)))
      | inr silent ↦ rw (holds, silent, release_script)
    ]
  ]
