-- ===== src/Http/Idempotency/Interleaving/Alone.antt =====
-- A request that runs without others takes the steps of the relation.
use cloud_ops_manager.Common.{
  ℕ, String, ◌≡◌, refl, Bool, true, false, Result, ok, err, Bool-cases, inl, inr,
}
use cloud_ops_manager.Text.{Text}
use cloud_ops_manager.Http.Writer.{Handler, World, Exit, returned, panicked, header_get, on_writer}
use cloud_ops_manager.Http.Idempotency.{
  idempotency_middleware, with_body, reserved, finish, release, complete, mark,
  should_cache_response, top_status, push_recorder, captured_headers, top_body,
}
use cloud_ops_manager.Http.Idempotency.Laws.Guards.{middleware-with_body}
use cloud_ops_manager.Http.Idempotency.Laws.Slots.{key_of, IsKeyed}
use cloud_ops_manager.Idempotency.Store.{IdempotencyRecord}
use cloud_ops_manager.Idempotency.RedisStore.Server.{Redis}
use cloud_ops_manager.Idempotency.RedisStore
use cloud_ops_manager.Idempotency.RedisStore.{
  redis_store, key_prefix, reservation, get, GetError, existing, after_set_nx, complete_existing,
}
use cloud_ops_manager.Http.Idempotency.Interleaving.{
  Answer, Pc, idle, running, loading, finished, slot, Move, reserve_created, reserve_taken,
  reserve_failed, read, respond, refuse, load, load_failed, store, drop,
}

module _ {S D : Type 0} (redis : Redis S D) (key : String) (ttl : ℕ) where
  -- The moves of one request, one after another.
  pub data Moves (h : String) (s : S) (p : Pc) : S → Pc → Type 0 where
    none_yet : Moves h s p s p
    then_move :
        {s' s'' : S} {p' p'' : Pc} {failure : Bool}
        → Moves h s p s' p'
        → Move redis key ttl h s' p' s'' p'' failure
        → Moves h s p s'' p''

  completing :
      (h : String) (s s₁ : S) (a : Answer) (g : Result GetError IdempotencyRecord)
      → Moves h s idle s₁ (loading a)
      → (get redis key s₁).0 ≡ g
      → Moves h s idle
          (complete_existing redis key a.status a.headers a.body ttl
            (redis.time s₁)
            g
            (get redis key s₁).1).1
          finished
  unfolding complete_existing
  completing h s s₁ a (err GetError.not_found) m e = then_move m (load_failed GetError.not_found e)
  completing h s s₁ a (err (GetError.redis_get t)) m e =
      then_move m (load_failed (GetError.redis_get t) e)
  completing h s s₁ a (err (GetError.unreadable t)) m e =
      then_move m (load_failed (GetError.unreadable t) e)
  completing h s s₁ a (ok r) m e = then_move (then_move m (load r e)) (store (redis.time s₁))

  -- The world in which the handler runs, once the key is reserved.
  abbrev pub entered : (Text → String) → World S → Text → World S
  entered hash w body =
      on_writer push_recorder
        (record w { env = (RedisStore.reserve redis key (hash body) ttl w.env).1 })

  -- What Complete is told.
  abbrev seen : World S → Answer
  seen w = record {
    status = top_status w.writer.layers;
    headers = captured_headers w.writer.base.headers;
    body = top_body w.writer.layers;
  }

  env-mark :
      (valid_uuid : String → Bool) (hash : Text → String) (next : Handler S)
      (r : Result String Unit) (w : World S)
      → (mark (redis_store redis) ttl valid_uuid hash next r w).env ≡ w.env
  env-mark valid_uuid hash next (ok u) w = refl
  env-mark valid_uuid hash next (err e) w = refl

  module _ (valid_uuid : String → Bool) (hash : Text → String) (next : Handler S) where
    complete_env :
        (w : World S)
        → (complete (redis_store redis) ttl valid_uuid hash next key w).env
          ≡ (RedisStore.complete redis key
              (seen w).status
              (seen w).headers
              (seen w).body
              ttl
              w.env).1
    unfolding complete
    complete_env w = env-mark valid_uuid hash next _ _

    -- What follows the handler is the moves of Complete or Release.
    finishing :
        (h : String) (s s₁ : S) (exit : Exit) (w : World S)
        → Moves h s idle s₁ running
        → slot redis key ttl w.env ≡ slot redis key ttl s₁
        → Moves h s idle
            (finish (redis_store redis) ttl valid_uuid hash next key exit w).1.env
            finished
    unfolding finish release complete RedisStore.complete RedisStore.release
    finishing h s s₁ (panicked message) w m same = then_move (then_move m (refuse w.env same)) drop
    finishing h s s₁ returned w m same =
        elim (Bool-cases (should_cache_response (top_status w.writer.layers))) [
          | inl caches ↦ rw caches (
              rw (complete_env w) (
                completing h s w.env (seen w) _ (then_move m (respond (seen w) w.env same caches))
                  refl))
          | inr not' ↦ rw not' (then_move (then_move m (refuse w.env same)) drop)
        ]

    existing_env :
        (h id : String) (w : World S) (g : Result GetError IdempotencyRecord) (s : S)
        → (reserved
            (redis_store redis)
            ttl
            valid_uuid
            hash
            next
            key
            h
            id
            (existing redis g)
            (record w { env = s })).1.env
          ≡ s
    unfolding reserved
    existing_env h id w (err e) s = refl
    existing_env h id w (ok r) s = refl

    reserving :
        (h id : String) (w : World S) (a : Result String Bool)
        → (redis.set_nx (key_prefix key) (reservation redis h (redis.time w.env) ttl) ttl w.env).0
          ≡ a
        → let s₁ =
            (redis.set_nx
              (key_prefix key)
              (reservation redis h (redis.time w.env) ttl)
              ttl
              w.env).1 in
          let (result, env) =
            after_set_nx redis key (reservation redis h (redis.time w.env) ttl) a s₁ in
          let entered = on_writer push_recorder (record w { env = env }) in
          (slot redis key ttl (next entered).1.env ≡ slot redis key ttl env)
          → Moves h w.env idle
              (reserved
                (redis_store redis)
                ttl
                valid_uuid
                hash
                next
                key
                h
                id
                result
                (record w { env = env })).1.env
              finished
    unfolding reserved after_set_nx
    reserving h id w (err e) taken same = then_move none_yet (reserve_failed taken)
    reserving h id w (ok false) taken same =
        rw existing_env (then_move (then_move none_yet (reserve_taken taken)) read)
    reserving h id w (ok true) taken same =
        finishing h w.env _ _ _ (then_move none_yet (reserve_created taken)) same

  -- A request with a valid key and a readable body that runs without others, and whose handler
  -- leaves the slot alone, changes what is behind the ports as a row of moves does, from before
  -- its reservation to its end.
  pub middleware-Moves :
      (valid_uuid : String → Bool) (hash : Text → String) (next : Handler S) (w : World S)
      (body : Text)
      → IsKeyed valid_uuid w body
      → key_of w ≡ key
      → slot redis key ttl (next (entered hash w body)).1.env
        ≡ slot redis key ttl (entered hash w body).env
      → Moves
          (hash body)
          w.env
          idle
          (idempotency_middleware (redis_store redis) ttl valid_uuid hash next w).1.env
          finished
  unfolding with_body RedisStore.reserve
  middleware-Moves valid_uuid hash next w body k same_key same =
      rw (middleware-with_body (redis_store redis) ttl valid_uuid hash next w k.keyed k.valid) (
        simp (same_key, k.read)
          (reserving valid_uuid hash next (hash body) (header_get "X-Request-Id" w.request.headers)
            w _ refl same))
