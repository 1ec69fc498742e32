-- ===== src/Idempotency/RedisStore/Memory.antt =====
-- A Redis that never fails, over an association list of values.
use cloud_ops_manager.Common.{
  ℕ, ◌⊎◌, inl, Option-cases, String, ◌≡◌, ◌≢◌, refl, inr, Bool, true, false, Option, some, none,
  List, Result, ok, arith, str_eq, str_eq_iff, str_eq_refl, if◌then◌else◌, insert, lookup,
  lookup-insert,
}
use cloud_ops_manager.Idempotency.RedisStore.Server.{Redis, RedisLaws, Envelope}

-- The server's data: a value, or a deletion, for each key.
abbrev pub Db : Type 0
Db = List (String × Option Envelope)

abbrev flat : Option (Option Envelope) → Option Envelope
flat none = none
flat (some o) = o

unfoldable pub find : Db → String → Option Envelope
find d k = flat (lookup k d)

unfoldable pub set_nx : String → Envelope → ℕ → Db → Result String Bool × Db
set_nx k v ttl d = elim (find d k) [
  | none ↦ (ok true, insert k (some v) d)
  | some _ ↦ (ok false, d)
]

unfoldable pub server : Redis Db Db
unfolding find set_nx
server = record {
  time = λ d. 0;
  view = λ d. d;
  find = find;
  put = λ k v ms d. insert k (some v) d;
  del = λ k d. insert k none d;
  set_nx = set_nx;
  get = λ k d. (ok (find d k), d);
  eval = λ f d. (ok (f d).0, (f d).1);
  unmarshal = λ v. ok v;
}

find-insert :
    (k j : String) (v : Option Envelope) (d : Db)
    → find (insert k v d) j ≡ (if str_eq k j then v else find d j)
unfolding find
find-insert k j v d = ground (arith, lookup-insert k j v d)

new_key :
    (k : String) (v : Envelope) (ttl : ℕ) (s : Db)
    → (set_nx k v ttl s).0 ≡ ok true
    → (find s k ≡ none) × (find (set_nx k v ttl s).1 k ≡ some v)
unfolding set_nx
new_key k v ttl s h = ground (arith, find-insert k k (some v) s, str_eq_refl k)

old_key :
    (k : String) (v : Envelope) (ttl : ℕ) (s : Db)
    → (set_nx k v ttl s).0 ≡ ok false
    → (find s k ≢ none) × ((set_nx k v ttl s).1 ≡ s)
unfolding set_nx
old_key k v ttl s h = (λ e. ground arith, ground arith)

atomic_key :
    (k : String) (v : Envelope) (ttl : ℕ) (s : Db)
    → ((set_nx k v ttl s).1 ≡ s) ⊎ ((find s k ≡ none) × (find (set_nx k v ttl s).1 k ≡ some v))
atomic_key k v ttl s = elim (Option-cases (find s k)) [
  | inl free ↦ inr (free, (new_key k v ttl s (unfold set_nx in rw (free, set_nx))).1)
  | inr (e, taken) ↦ inl (old_key k v ttl s (unfold set_nx in rw (taken, set_nx))).1
]

other_key :
    (k j : String) (v : Envelope) (ttl : ℕ) (s : Db)
    → k ≢ j
    → find (set_nx k v ttl s).1 j ≡ find s j
unfolding set_nx
other_key k j v ttl s h = ground (arith, find-insert k j (some v) s, str_eq_iff k j)

pub server-RedisLaws : RedisLaws server
unfolding server
server-RedisLaws = record {
  find-put = λ k j v ms d. find-insert k j (some v) d;
  find-del = λ k j d. find-insert k j none d;
  set_nx_new = new_key;
  set_nx_old = old_key;
  set_nx_atomic = atomic_key;
  set_nx_elsewhere = other_key;
  get_reads = λ k s o h. ground arith;
  unmarshal_same = λ v e h. cc;
  get_keeps = λ k s. refl;
  eval_runs = λ f s n h. refl;
  eval_atomic = λ f s. inr refl;
}
