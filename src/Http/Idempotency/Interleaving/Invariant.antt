-- ===== src/Http/Idempotency/Interleaving/Invariant.antt =====
-- What every step keeps: one owner at most, whose slot is in flight for its own body; and a slot in
-- flight has an owner until a command fails.
use cloud_ops_manager.Common.{
  ℕ, String, ◌≡◌, ◌≢◌, refl, sym, ap, ◌∙◌, ◌⊎◌, inl, inr, Bool, true, false, ◌||◌, none, some,
  Result, ok, err, arith, ◌/◌, ◌==◌, Bool-cases,
}
use cloud_ops_manager.Idempotency.Store.{in_flight, completed}
use cloud_ops_manager.Idempotency.RedisStore.Server.{Redis, RedisLaws, Envelope}
use cloud_ops_manager.Idempotency.RedisStore.{
  key_prefix, reservation, completion, complete_script, release_script, to_record,
}
use cloud_ops_manager.Idempotency.RedisStore.Reading.{get_keeps, find-release_script, flying}
use cloud_ops_manager.Idempotency.RedisStore.Laws.{find-complete_script}
use cloud_ops_manager.Http.Idempotency.Interleaving.{
  Pc, idle, reading, loading, storing, dropping, finished, owns, failing, update, slot, Move,
  reserve_created, reserve_taken, reserve_failed, read, respond, refuse, load, load_failed, store,
  drop, System, Step, pick, expire, other, Reach, here, later,
}

completed_of : (v e : Envelope) → v.state ≡ completed → some v ≡ some e → e.state ≡ completed
completed_of v e done same = cc

absurd_of : (e : Envelope) → none ≡ some e → e.state ≡ completed
absurd_of e h = cc

record_flies :
    (key : String) (e : Envelope) → e.state ≡ in_flight → (to_record key e).state ≡ in_flight
unfolding to_record
record_flies key e h = h

clash : (e : Envelope) → e.state ≡ in_flight → e.state ≡ completed → ⊥
clash e h k = cc

none_failed : (a b : Bool) → a || b ≡ false → (a ≡ false) × (b ≡ false)
none_failed a b h = ground arith

module _ {S D : Type 0} (redis : Redis S D) (laws : RedisLaws redis) (key : String) (ttl : ℕ) where
  -- The slot holds a reservation for the hash `h`.
  abbrev pub HeldFor : String → S → Type 0
  HeldFor h s =
      (e : Envelope) × (slot redis key ttl s ≡ some e)
      × (e.state ≡ in_flight)
      × (e.request_hash ≡ h)

  -- What a move may do to the slot: leave it, take it while it is free, or settle it as its owner.
  pub data Effect (h : String) (s s' : S) (p p' : Pc) (failure : Bool) : Type 0 where
    kept :
        slot redis key ttl s' ≡ slot redis key ttl s
        → (owns p' ≡ true → owns p ≡ true)
        → (failure ≡ false → owns p ≡ true → owns p' ≡ true)
        → Effect h s s' p p' failure
    taken :
        slot redis key ttl s ≡ none
        → HeldFor h s'
        → (failure ≡ false → owns p' ≡ true)
        → Effect h s s' p p' failure
    settled :
        owns p ≡ true
        → owns p' ≡ false
        → ((e : Envelope) → slot redis key ttl s' ≡ some e → e.state ≡ completed)
        → Effect h s s' p p' failure

  kept_by_view :
      (h : String) (s s' : S) (p p' : Pc) (failure : Bool)
      → redis.view s' ≡ redis.view s
      → (owns p' ≡ true → owns p ≡ true)
      → (failure ≡ false → owns p ≡ true → owns p' ≡ true)
      → Effect h s s' p p' failure
  kept_by_view h s s' p p' failure same = kept (ap (λ d. redis.find d (key_prefix key)) same)

  -- A script of an owner that may fail: it has run, or not.
  script_effect :
      (h : String) (s : S) (p : Pc) (f : D → ℕ × D)
      → owns p ≡ true
      → ((e : Envelope)
          → redis.find (f (redis.view s)).1 (key_prefix key) ≡ some e
          → e.state ≡ completed)
      → (a : Result String ℕ) → (redis.eval f s).0 ≡ a
      → Effect h s (redis.eval f s).1 p finished (failing a)
  script_effect h s p f own done (ok n) r = settled own refl (λ e here_lem.
      done e (sym (ap (λ d. redis.find d (key_prefix key)) (laws.eval_runs f s n r)) ∙ here_lem))
  script_effect h s p f own done (err m) r = elim (laws.eval_atomic f s) [
    | inl same ↦ kept_by_view h s _ p finished true same (λ x. cc) (λ x. cc)
    | inr ran ↦
        settled own refl
          (λ e here_lem. done e (sym (ap (λ d. redis.find d (key_prefix key)) ran) ∙ here_lem))
  ]

  -- What each move does, where an owner's slot is held.
  pub Move-Effect :
      {h : String} {s s' : S} {p p' : Pc} {failure : Bool}
      → Move redis key ttl h s p s' p' failure
      → (owns p ≡ true → HeldFor h s)
      → Effect h s s' p p' failure
  Move-Effect {h} {s} (reserve_created e) held =
      let (free, now) =
        laws.set_nx_new (key_prefix key) (reservation redis h (redis.time s) ttl) ttl s e in
      taken free (_, now, refl, refl) (λ x. refl)
  Move-Effect {h} {s} (reserve_taken e) held =
      kept_by_view h s _ idle reading false
        (laws.set_nx_old (key_prefix key) (reservation redis h (redis.time s) ttl) ttl s e).1
        (λ x. cc) (λ x y. cc)
  Move-Effect {h} {s} (reserve_failed e) held =
      elim (laws.set_nx_atomic (key_prefix key) (reservation redis h (redis.time s) ttl) ttl s) [
        | inl same ↦ kept_by_view h s _ idle finished true same (λ x. cc) (λ x y. cc)
        | inr (free, now) ↦ taken free (_, now, refl, refl) (λ x. cc)
      ]
  Move-Effect {h} {s} read held =
      kept_by_view h s _ reading finished _ (get_keeps redis laws key s) (λ x. cc) (λ x y. cc)
  Move-Effect {h} {s} (respond a s' same c) held = kept same (λ x. refl) (λ x y. refl)
  Move-Effect {h} {s} (refuse s' same) held = kept same (λ x. refl) (λ x y. refl)
  Move-Effect {h} {s} (load {a} r e) held =
      kept_by_view h s _ (loading a) (storing a r) false (get_keeps redis laws key s) (λ x. refl)
        (λ x y. refl)
  Move-Effect {h} {s} (load_failed {a} m e) held =
      kept_by_view h s _ (loading a) finished true (get_keeps redis laws key s) (λ x. cc)
        (λ x y. cc)
  Move-Effect {h} {s} (store {a} {r} now) held =
      let (e, there, flies, own_hash) = held refl in
      let payload = completion redis r a.status a.headers a.body now ttl in
      script_effect h s (storing a r)
        (complete_script redis (key_prefix key) payload (ttl / 1_000_000)) refl
        (λ e' found. completed_of payload e' refl (
          sym (
            find-complete_script redis laws (key_prefix key) payload e (ttl / 1_000_000)
              (redis.view s) there)
          ∙ found))
        _ refl
  Move-Effect {h} {s} drop held =
      let (e, there, flies, own_hash) = held refl in
      script_effect h s dropping (release_script redis (key_prefix key)) refl
        (λ e' found. absurd_of e' (
          sym (
            find-release_script redis laws (key_prefix key) e (redis.view s) there
              (flying redis laws key e (to_record key e) refl (record_flies key e flies)))
          ∙ found))
        _ refl

  pub record Inv (hash : ℕ → String) (x : System redis key ttl) : Type 0 where
    pub unique : (i j : ℕ) → owns (x.pc i) ≡ true → owns (x.pc j) ≡ true → i ≡ j
    pub held : (i : ℕ) → owns (x.pc i) ≡ true → HeldFor (hash i) x.world
    pub watched :
        x.failed ≡ false
        → (e : Envelope) → slot redis key ttl x.world ≡ some e
        → e.state ≡ in_flight
        → (i : ℕ) × (owns (x.pc i) ≡ true)

  module _ (hash : ℕ → String) (x : System redis key ttl) (inv : Inv hash x) (i : ℕ) (s' : S)
      (p' : Pc) (failure : Bool) where
    abbrev moved : System redis key ttl
    moved = record { world = s'; pc = update x.pc i p'; failed = x.failed || failure }

    other_pc : (j : ℕ) → i ≢ j → moved.pc j ≡ x.pc j
    other_pc j h = ground arith

    own_pc : moved.pc i ≡ p'
    own_pc = ground arith

    owner_after :
        (j : ℕ)
        → owns (moved.pc j) ≡ true
        → ((i ≡ j) × (owns p' ≡ true)) ⊎ ((i ≢ j) × (owns (x.pc j) ≡ true))
    owner_after j h = elim (Bool-cases (i == j)) [
      | inl e ↦ inl (ground arith)
      | inr e ↦ inr (λ q. ground arith, ground arith)
    ]

    own_after : owns p' ≡ true → owns (moved.pc i) ≡ true
    own_after h = ground arith

    kept_owner :
        (owns p' ≡ true → owns (x.pc i) ≡ true)
        → (j : ℕ) → owns (moved.pc j) ≡ true
        → owns (x.pc j) ≡ true
    kept_owner back j h = elim (owner_after j h) [ inl (q, o) ↦ rw (← q) (back o) | inr (q, o) ↦ o ]

    still_owned :
        (owns (x.pc i) ≡ true → owns p' ≡ true)
        → (j : ℕ) → owns (x.pc j) ≡ true
        → owns (moved.pc j) ≡ true
    still_owned forth j h = elim (Bool-cases (i == j)) [
      | inl e ↦ ground (arith, forth)
      | inr e ↦ ground arith
    ]

    sole_owner : slot redis key ttl x.world ≡ none → (j : ℕ) → owns (moved.pc j) ≡ true → i ≡ j
    sole_owner free j h = elim (owner_after j h) [
      | inl (q, o) ↦ q
      | inr (q, o) ↦ (let (e, there, flies, own) = inv.held j o in cc (free, there))
    ]

    no_owner : owns (x.pc i) ≡ true → owns p' ≡ false → (j : ℕ) → owns (moved.pc j) ≡ true → ⊥
    no_owner own gone j h = elim (owner_after j h) [
      | inl (q, o) ↦ cc (gone, o)
      | inr (q, o) ↦ q (inv.unique i j own o)
    ]

    moved-Inv : Effect (hash i) x.world s' (x.pc i) p' failure → Inv hash moved
    moved-Inv (kept same back forth) = record {
      unique = λ a b ha hb. inv.unique a b (kept_owner back a ha) (kept_owner back b hb);
      held = λ j h.
          let (e, there, flies, own) = inv.held j (kept_owner back j h) in
          (e, same ∙ there, flies, own);
      watched = λ fine e there flies.
          let (j, o) =
            inv.watched (none_failed x.failed failure fine).0 e (sym same ∙ there) flies in
          (j, still_owned (forth (none_failed x.failed failure fine).1) j o);
    }
    moved-Inv (taken free now owning) = record {
      unique = λ a b ha hb. sym (sole_owner free a ha) ∙ sole_owner free b hb;
      held = λ j h. rw (← sole_owner free j h) now;
      watched = λ fine e there flies. (i, own_after (owning (none_failed x.failed failure fine).1));
    }
    moved-Inv (settled own gone done) = record {
      unique = λ a b ha hb. absurd (no_owner own gone a ha);
      held = λ j h. absurd (no_owner own gone j h);
      watched = λ fine e there flies. absurd (clash e flies (done e there));
    }

  pub Step-Inv :
      {hash : ℕ → String} {x y : System redis key ttl}
      → Step redis key ttl hash x y
      → Inv hash x
      → Inv hash y
  Step-Inv {hash} {x} (pick i {s'} {p} {failure} m) inv =
      moved-Inv hash x inv i s' p failure (Move-Effect m (inv.held i))
  Step-Inv {hash} {x} (expire s' gone unheld) inv = record {
    unique = λ i j hi hj. cc (unheld i, hi);
    held = λ j h. cc (unheld j, h);
    watched = λ fine e there flies. cc (gone, there);
  }
  Step-Inv {hash} {x} (other s' same) inv = record {
    unique = inv.unique;
    held = λ j h. let (e, there, flies, own) = inv.held j h in (e, same ∙ there, flies, own);
    watched = λ fine e there flies. inv.watched fine e (sym same ∙ there) flies;
  }

  -- Every reachable state of the requests.
  pub Reach-Inv :
      {hash : ℕ → String} {x y : System redis key ttl}
      → Reach redis key ttl hash x y
      → Inv hash x
      → Inv hash y
  Reach-Inv here inv = inv
  Reach-Inv (later r st) inv = Step-Inv st (Reach-Inv r inv)
