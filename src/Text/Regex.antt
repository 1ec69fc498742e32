-- ===== src/Text/Regex.antt =====
-- Regular expressions as package regexp reads them between ^ and $: the whole text matches.
-- The matcher works by derivatives, and decides the relation `Matches`.
pub mod Equations
use cloud_ops_manager.Common.{
  ℕ, ◌≡◌, refl, sym, ◌∙◌, ap, ◌↔◌, Bool, true, false, ◌&&◌, ◌||◌, List, [], ◌∷◌, ◌++◌, arith,
  if◌then◌else◌, Bool-cases, inl, inr, all, all-append,
}

pub data Regex : Type 0 where
  never : Regex
  blank : Regex
  one : (ℕ → Bool) → Regex
  seq : Regex → Regex → Regex
  alt : Regex → Regex → Regex
  star : Regex → Regex

-- r+
abbrev pub plus : Regex → Regex
plus r = seq r (star r)

pub data Matches : Regex → List ℕ → Type 0 where
  blank_lem : Matches blank []
  one_lem : {p : ℕ → Bool} {c : ℕ} → p c ≡ true → Matches (one p) (c ∷ [])
  seq_lem :
      {r q : Regex} {u : List ℕ} (s t : List ℕ)
      → Matches r s
      → Matches q t
      → u ≡ s ++ t
      → Matches (seq r q) u
  alt_left : {r q : Regex} {s : List ℕ} → Matches r s → Matches (alt r q) s
  alt_right : {r q : Regex} {s : List ℕ} → Matches q s → Matches (alt r q) s
  star_done : {r : Regex} → Matches (star r) []
  star_more :
      {r : Regex} {u : List ℕ} (c : ℕ) (s t : List ℕ)
      → Matches r (c ∷ s)
      → Matches (star r) t
      → u ≡ c ∷ (s ++ t)
      → Matches (star r) u

nullable : Regex → Bool
nullable never = false
nullable blank = true
nullable (one p) = false
nullable (seq r q) = nullable r && nullable q
nullable (alt r q) = nullable r || nullable q
nullable (star r) = true

-- What is left to match behind the element `c`.
deriv : ℕ → Regex → Regex
unfolding nullable
deriv c never = never
deriv c blank = never
deriv c (one p) = if p c then blank else never
deriv c (seq r q) = alt (seq (deriv c r) q) (if nullable r then deriv c q else never)
deriv c (alt r q) = alt (deriv c r) (deriv c q)
deriv c (star r) = seq (deriv c r) (star r)

unfoldable pub matches : Regex → List ℕ → Bool
unfolding nullable deriv
matches r [] = nullable r
matches r (c ∷ s) = matches (deriv c r) s

nullable_sound : (r : Regex) → nullable r ≡ true → Matches r []
unfolding nullable
nullable_sound never h = cc
nullable_sound blank h = blank_lem
nullable_sound (one p) h = cc
nullable_sound (seq r q) h =
    seq_lem [] [] (nullable_sound r (ground arith)) (nullable_sound q (ground arith)) refl
nullable_sound (alt r q) h = elim (Bool-cases (nullable r)) [
  | inl left ↦ alt_left (nullable_sound r left)
  | inr right ↦ alt_right (nullable_sound q (ground arith))
]
nullable_sound (star r) h = star_done

both_nil : (s t : List ℕ) → [] ≡ s ++ t → (s ≡ []) × (t ≡ [])
both_nil [] t e = (refl, sym e)
both_nil (c ∷ s) t e = cc

nullable_complete : {r : Regex} {s : List ℕ} → Matches r s → s ≡ [] → nullable r ≡ true
unfolding nullable
nullable_complete blank_lem e = refl
nullable_complete (one_lem h) e = cc
nullable_complete (seq_lem s t m n u) e =
    let (es, et) = both_nil s t (sym e ∙ u) in rw (nullable_complete m es, nullable_complete n et)
nullable_complete (alt_left m) e = rw (nullable_complete m e)
nullable_complete (alt_right {r} m) e = ground (arith, nullable_complete m e)
nullable_complete star_done e = refl
nullable_complete (star_more c s t m n u) e = refl

one_step : (b : Bool) (s : List ℕ) → Matches (if b then blank else never) s → (b ≡ true) × (s ≡ [])
one_step true _ blank_lem = (refl, refl)
one_step false s m = elim m [ ]

one_sound :
    (p : ℕ → Bool) (c : ℕ) (s : List ℕ)
    → Matches (if p c then blank else never) s
    → Matches (one p) (c ∷ s)
one_sound p c s m = let (passes, ends) = one_step (p c) s m in rw ends (one_lem passes)

-- The second half of the derivative of a sequence.
skip_sound :
    (b : Bool) (q : Regex) (s : List ℕ)
    → Matches (if b then q else never) s
    → (b ≡ true) × Matches q s
skip_sound true q s m = (refl, m)
skip_sound false q s m = elim m [ ]

deriv_sound : (r : Regex) (c : ℕ) (s : List ℕ) → Matches (deriv c r) s → Matches r (c ∷ s)
unfolding deriv
deriv_sound never c s m = elim m [ ]
deriv_sound blank c s m = elim m [ ]
deriv_sound (one p) c s m = one_sound p c s m
deriv_sound (seq r q) c s (alt_left (seq_lem v t m n e)) =
    seq_lem (c ∷ v) t (deriv_sound r c v m) n (ap (λ x. c ∷ x) e)
deriv_sound (seq r q) c s (alt_right m) =
    let (skipped, n) = skip_sound (nullable r) (deriv c q) s m in
    seq_lem [] (c ∷ s) (nullable_sound r skipped) (deriv_sound q c s n) refl
deriv_sound (alt r q) c s (alt_left m) = alt_left (deriv_sound r c s m)
deriv_sound (alt r q) c s (alt_right m) = alt_right (deriv_sound q c s m)
deriv_sound (star r) c s (seq_lem v t m n e) =
    star_more c v t (deriv_sound r c v m) n (ap (λ x. c ∷ x) e)

cons_parts : {a b : ℕ} {s t : List ℕ} → a ∷ s ≡ b ∷ t → (a ≡ b) × (s ≡ t)
cons_parts h = ground arith

skip_complete :
    (b : Bool) (q : Regex) (s : List ℕ)
    → b ≡ true
    → Matches q s
    → Matches (if b then q else never) s
skip_complete true q s e m = m
skip_complete false q s e m = cc

blank_complete :
    (p : ℕ → Bool) (c : ℕ) (s : List ℕ)
    → p c ≡ true
    → s ≡ []
    → Matches (if p c then blank else never) s
blank_complete p c s h e = rw (h, e) blank_lem

-- A sequence whose text starts with `c`: the first part starts with it, or is empty.
deriv_seq :
    (r q : Regex) (c : ℕ) (s v t : List ℕ)
    → (v ≡ [] → Matches (deriv c q) s)
    → ((w : List ℕ) → v ≡ c ∷ w → Matches (deriv c r) w)
    → Matches r v
    → Matches q t
    → c ∷ s ≡ v ++ t
    → Matches (deriv c (seq r q)) s
unfolding deriv
deriv_seq r q c s [] t empty_case full_case m n e =
    alt_right
      (skip_complete (nullable r) (deriv c q) s (nullable_complete m refl) (empty_case refl))
deriv_seq r q c s (d ∷ w) t empty_case full_case m n e =
    let (same, rest) = cons_parts e in
    alt_left (seq_lem w t (full_case w (ap (λ x. x ∷ w) (sym same))) n rest)

deriv_complete :
    {r : Regex} {u : List ℕ}
    → Matches r u
    → (c : ℕ) (s : List ℕ) → u ≡ c ∷ s
    → Matches (deriv c r) s
unfolding deriv
deriv_complete blank_lem c s e = cc
deriv_complete (one_lem {p} {c = d} h) c s e =
    let (same, rest) = cons_parts e in blank_complete p c s (rw (← same) h) (sym rest)
deriv_complete (seq_lem {r} {q} v t m n u) c s e =
    deriv_seq r q c s v t (λ empty. deriv_complete n c s (sym (rw empty at u) ∙ e))
      (λ w full. deriv_complete m c w full) m n (sym e ∙ u)
deriv_complete (alt_left m) c s e = alt_left (deriv_complete m c s e)
deriv_complete (alt_right m) c s e = alt_right (deriv_complete m c s e)
deriv_complete star_done c s e = cc
deriv_complete (star_more d v t m n u) c s e =
    let (same, rest) = cons_parts (sym u ∙ e) in
    seq_lem v t (deriv_complete m c v (ap (λ x. x ∷ v) same)) n (sym rest)

matches_sound : (r : Regex) (s : List ℕ) → matches r s ≡ true → Matches r s
unfolding matches
matches_sound r [] h = nullable_sound r h
matches_sound r (c ∷ s) h = deriv_sound r c s (matches_sound (deriv c r) s h)

matches_complete : (r : Regex) (s : List ℕ) → Matches r s → matches r s ≡ true
unfolding matches
matches_complete r [] m = nullable_complete m refl
matches_complete r (c ∷ s) m = matches_complete (deriv c r) s (deriv_complete m c s refl)

-- The matcher decides the relation.
pub matches_iff : (r : Regex) (s : List ℕ) → (matches r s ≡ true) ↔ Matches r s
matches_iff r s = (matches_sound r s, matches_complete r s)

-- Every class of the expression lies within `p`.
abbrev pub Within : (ℕ → Bool) → Regex → Type 0
Within p never = Unit
Within p blank = Unit
Within p (one q) = (c : ℕ) → q c ≡ true → p c ≡ true
Within p (seq r q) = Within p r × Within p q
Within p (alt r q) = Within p r × Within p q
Within p (star r) = Within p r

-- So every element of a matching text passes `p`.
pub Matches-all :
    {r : Regex} {s : List ℕ} → Matches r s → (p : ℕ → Bool) → Within p r → all p s ≡ true
Matches-all blank_lem p w = refl
Matches-all (one_lem {c} h) p w = rw (w c h)
Matches-all (seq_lem s t m n e) p w =
    rw e (all-append p s t (Matches-all m p w.0) (Matches-all n p w.1))
Matches-all (alt_left m) p w = Matches-all m p w.0
Matches-all (alt_right m) p w = Matches-all m p w.1
Matches-all star_done p w = refl
Matches-all (star_more c s t m n e) p w =
    rw e (all-append p (c ∷ s) t (Matches-all m p w) (Matches-all n p w))
