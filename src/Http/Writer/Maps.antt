-- ===== src/Http/Writer/Maps.antt =====
-- The header map of a writer, as a map: each name once, with a value, as Set leaves it.
use cloud_ops_manager.Common.{
  String, ◌≡◌, ◌≢◌, refl, none, List, [], ◌∷◌, arith, lookup, insert, lookup-insert, str_eq, All,
  str_eq_iff, Bool-cases, inl, inr,
}
use cloud_ops_manager.Http.Writer.{Headers, header_set, Writer, set_header}

-- No name stands twice.
abbrev pub Distinct {ℓ} : {A : Type ℓ} → List (String × A) → Type ℓ
Distinct [] = Unit
Distinct ((k, v) ∷ xs) = (lookup k xs ≡ none) × Distinct xs

-- Every header has a value, as after calls of Set and Add.
abbrev pub HasValues : Headers → Type 0
HasValues = All (λ h. h.1 ≢ [])

pub record IsMap (hs : Headers) : Type 0 where
  pub distinct : Distinct hs
  pub values : HasValues hs

insert-Distinct :
    (k : String) (v : List String) (hs : Headers) → Distinct hs → Distinct (insert k v hs)
unfolding insert lookup
insert-Distinct k v [] h = (refl, tt)
insert-Distinct k v ((j, u) ∷ hs) (new, h) = elim (Bool-cases (str_eq j k)) [
  | inl e ↦ rw e ((let same = (str_eq_iff j k).0 e in rw same at new), h)
  | inr e ↦ rw e (
    ground (arith, lookup-insert k j v hs, str_eq_iff j k, str_eq_iff k j),
    insert-Distinct k v hs h,
  )
]

insert-HasValues :
    (k : String) (v : List String) (hs : Headers)
    → v ≢ []
    → HasValues hs
    → HasValues (insert k v hs)
unfolding insert
insert-HasValues k v [] n h = (n, tt)
insert-HasValues k v ((j, u) ∷ hs) n (m, h) = elim (Bool-cases (str_eq j k)) [
  | inl e ↦ rw e (n, h)
  | inr e ↦ rw e (m, insert-HasValues k v hs n h)
]

one_ne_none : (v : String) → ◌≢◌ {A = List String} (v ∷ []) []
one_ne_none v e = cc

pub set_header-IsMap :
    (k v : String) (w : Writer) → IsMap w.base.headers → IsMap (set_header k v w).base.headers
unfolding set_header header_set
set_header-IsMap k v w m = record {
  distinct = insert-Distinct k (v ∷ []) w.base.headers m.distinct;
  values = insert-HasValues k (v ∷ []) w.base.headers (one_ne_none v) m.values;
}
