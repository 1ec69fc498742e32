-- ===== src/Idempotency/RedisStore/Completed.antt =====
-- What Release does to a record that is completed.
use cloud_ops_manager.Common.{
  String, ◌≡◌, ◌∙◌, ◌⊎◌, inl, inr, Bool, true, false, ◌||◌, some, none, ok, arith,
}
use cloud_ops_manager.Idempotency.Store.{IdempotencyRecord, completed}
use cloud_ops_manager.Idempotency.RedisStore.Server.{Redis, RedisLaws, Envelope}
use cloud_ops_manager.Idempotency.RedisStore.{
  key_prefix, to_record, release, release_script, peek, mentions_in_flight, quotes_in_flight,
  any_quotes,
}
use cloud_ops_manager.Idempotency.RedisStore.Reading.{found_inv, find-release_script, ran_ok}

-- A kept record holds the quoted word IN_FLIGHT in its hash or in a header.
abbrev pub holds_word : IdempotencyRecord → Bool
holds_word r = quotes_in_flight r.request_hash || any_quotes r.headers

mentions_of_completed :
    (k : String) (e : Envelope) (r : IdempotencyRecord)
    → r ≡ to_record k e
    → r.state ≡ completed
    → mentions_in_flight e ≡ holds_word r
unfolding to_record mentions_in_flight
mentions_of_completed k e r same state =
    let done : e.state ≡ completed = ground arith in rw done (rw same)

module _ {S D : Type 0} (redis : Redis S D) (laws : RedisLaws redis) where
  silent_script :
      (k : String) (e : Envelope) (d : D)
      → redis.find d k ≡ some e
      → mentions_in_flight e ≡ false
      → (release_script redis k d).1 ≡ d
  unfolding release_script
  silent_script k e d h m = rw (h, m, release_script)

  -- Release leaves a completed record alone unless the quoted word IN_FLIGHT stands in its hash or
  -- in a header's name or value; then it deletes the record, if Redis runs the script.
  pub release_completed :
      (k : String) (s : S) (r : IdempotencyRecord)
      → peek redis s k ≡ some r
      → r.state ≡ completed
      → (holds_word r ≡ false → peek redis (release redis k s).1 k ≡ some r)
        × (holds_word r ≡ true
            → (release redis k s).0 ≡ ok tt
            → peek redis (release redis k s).1 k ≡ none)
  unfolding release peek
  release_completed k s r there state =
      let f = release_script redis (key_prefix k) in
      let (e, holds, same) =
        found_inv redis laws k (redis.find (redis.view s) (key_prefix k)) r there in
      let word = mentions_of_completed k e r same state in
      (
        λ silent.
            let still : redis.view (redis.eval f s).1 ≡ redis.view s =
              unchanged (laws.eval_atomic f s)
                (silent_script (key_prefix k) e (redis.view s) holds (word ∙ silent)) in
            rw still there,
        λ spoken done.
            let (n, ran_it) = ran_ok redis laws "redis release script: " (redis.eval f s).0 done in
            rw (laws.eval_runs f s n ran_it) (
              rw (
                find-release_script redis laws (key_prefix k) e (redis.view s) holds
                  (word ∙ spoken))),
      )
    where
      unchanged : {a b c : D} → (a ≡ b) ⊎ (a ≡ c) → c ≡ b → a ≡ b
      unchanged (inl p) q = p
      unchanged (inr p) q = p ∙ q
