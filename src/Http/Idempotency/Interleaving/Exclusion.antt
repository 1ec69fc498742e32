-- ===== src/Http/Idempotency/Interleaving/Exclusion.antt =====
-- What holds of requests with one key in every order of their steps.
use cloud_ops_manager.Common.{
  ℕ, ◌<◌, String, ◌≡◌, ◌∙◌, Bool, true, false, none, some, arith, Bool-cases, inl, inr, ◌⊎◌,
}
use cloud_ops_manager.Idempotency.Store.{completed}
use cloud_ops_manager.Idempotency.RedisStore.Server.{Redis, RedisLaws, Envelope}
use cloud_ops_manager.Http.Idempotency.Interleaving.{
  Pc, idle, reading, running, loading, storing, dropping, finished, owns, slot, Move, refuse, load,
  load_failed, store, drop, System, pick, expire, other, Expired, Reach, here, later,
  reserve_created, reserve_taken, reserve_failed, read, respond,
}
use cloud_ops_manager.Http.Idempotency.Interleaving.Invariant.{
  Inv, HeldFor, Effect, kept, taken, settled, Move-Effect, Reach-Inv,
}

-- The steps that a request may still take.
abbrev pub steps_left : Pc → ℕ
steps_left idle = 4
steps_left running = 3
steps_left (loading a) = 2
steps_left (storing a r) = 1
steps_left dropping = 1
steps_left reading = 1
steps_left finished = 0

module _ {S D : Type 0} (redis : Redis S D) (laws : RedisLaws redis) (key : String) (ttl : ℕ) where
  -- Before any request of a key that is free.
  pub record IsStart (x : System redis key ttl) : Type 0 where
    pub all_idle : (i : ℕ) → x.pc i ≡ idle
    pub free : slot redis key ttl x.world ≡ none

  start-Inv :
      (hash : ℕ → String) (x : System redis key ttl) → IsStart x → Inv redis laws key ttl hash x
  start-Inv hash x start = record {
    unique = λ i j h. cc (start.all_idle i);
    held = λ i h. cc (start.all_idle i);
    watched = λ fine e there. cc (start.free);
  }

  -- However the commands of any number of requests with one key are interleaved, whichever of them
  -- fail, and whenever the slot expires while no request holds it, at most one request is between
  -- its reservation and the end of its completion or release; so no two handlers run together, and
  -- the slot is then in flight for its own body.
  pub one_handler_at_a_time :
      {hash : ℕ → String} {x y : System redis key ttl}
      → IsStart x
      → Reach redis key ttl hash x y
      → (i j : ℕ) → owns (y.pc i) ≡ true
      → owns (y.pc j) ≡ true
      → (i ≡ j) × HeldFor redis laws key ttl (hash i) y.world
  one_handler_at_a_time {hash} {x} start r i j h k =
      let inv = Reach-Inv redis laws key ttl r (start-Inv hash x start) in
      (inv.unique i j h k, inv.held i h)

  owner_not_completed :
      {hash : ℕ → String} {x : System redis key ttl} (e : Envelope)
      → Inv redis laws key ttl hash x
      → slot redis key ttl x.world ≡ some e
      → e.state ≡ completed
      → (i : ℕ) → owns (x.pc i) ≡ false
  owner_not_completed {x} e inv there done i = elim (Bool-cases (owns (x.pc i))) [
    | inl h ↦ (let (e', here_lem, flies, own) = inv.held i h in cc)
    | inr h ↦ h
  ]

  effect_keeps :
      {h : String} {s s' : S} {p p' : Pc} {failure : Bool} (e : Envelope)
      → Effect redis laws key ttl h s s' p p' failure
      → slot redis key ttl s ≡ some e
      → owns p ≡ false
      → slot redis key ttl s' ≡ some e
  effect_keeps e (kept same back forth) there idle_lem = same ∙ there
  effect_keeps e (taken free now owning) there idle_lem = cc
  effect_keeps e (settled own gone done) there idle_lem = cc

  Reach-final :
      {hash : ℕ → String} {x y : System redis key ttl} (e : Envelope)
      → (r : Reach redis key ttl hash x y) → Inv redis laws key ttl hash x
      → slot redis key ttl x.world ≡ some e
      → e.state ≡ completed
      → (slot redis key ttl y.world ≡ some e) ⊎ Expired redis key ttl r
  Reach-final e here inv there done = inl there
  Reach-final e (later r (expire s' gone unheld)) inv there done = inr tt
  Reach-final e (later r (other s' same)) inv there done = elim (Reach-final e r inv there done) [
    | inl still ↦ inl (same ∙ still)
    | inr over ↦ inr over
  ]
  Reach-final e (later r (pick i m)) inv there done = elim (Reach-final e r inv there done) [
    | inl still ↦
        (let inv' = Reach-Inv redis laws key ttl r inv in
          inl (
            effect_keeps e (Move-Effect redis laws key ttl m (inv'.held i)) still
              (owner_not_completed e inv' still done i)))
    | inr over ↦ inr over
  ]

  -- Once a response is kept it is final until it expires: in every later state, whatever other
  -- requests with the key do, the slot holds the same record and no request is in its handler, nor
  -- will settle the slot; or else the slot has expired on the way.
  pub kept_is_final :
      {hash : ℕ → String} {x y z : System redis key ttl} (e : Envelope)
      → IsStart x
      → Reach redis key ttl hash x y
      → slot redis key ttl y.world ≡ some e
      → e.state ≡ completed
      → (r' : Reach redis key ttl hash y z)
      → ((slot redis key ttl z.world ≡ some e) × ((i : ℕ) → owns (z.pc i) ≡ false))
        ⊎ Expired redis key ttl r'
  kept_is_final {hash} {x} e start r there done r' =
      let inv = Reach-Inv redis laws key ttl r (start-Inv hash x start) in
      elim (Reach-final e r' inv there done) [
        | inl still ↦
            inl (still, owner_not_completed e (Reach-Inv redis laws key ttl r' inv) still done)
        | inr over ↦ inr over
      ]

  -- A move of a request, as the system makes it.
  abbrev pub CanMove : (ℕ → String) → System redis key ttl → ℕ → Type 0
  CanMove hash x i =
      (s' : S) × (p : Pc) × (failure : Bool) × Move redis key ttl (hash i) x.world (x.pc i) s' p
        failure

  -- A request takes at most four steps: each one leaves fewer.
  pub Move-steps :
      {h : String} {s s' : S} {p p' : Pc} {failure : Bool}
      → Move redis key ttl h s p s' p' failure
      → steps_left p' < steps_left p
  Move-steps (reserve_created e) = omega arith
  Move-steps (reserve_taken e) = omega arith
  Move-steps (reserve_failed e) = omega arith
  Move-steps read = omega arith
  Move-steps (respond a s' same c) = omega arith
  Move-steps (refuse s' same) = omega arith
  Move-steps (load r e) = omega arith
  Move-steps (load_failed m e) = omega arith
  Move-steps (store now) = omega arith
  Move-steps drop = omega arith
