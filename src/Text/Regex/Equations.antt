-- ===== src/Text/Regex/Equations.antt =====
-- How the matcher takes expressions apart.
use cloud_ops_manager.Common.{
  ℕ, ◌≡◌, refl, Bool, true, false, ◌&&◌, ◌||◌, List, [], ◌∷◌, arith, if◌then◌else◌,
}
use cloud_ops_manager.Text.Regex.{
  Regex, never, blank, one, seq, alt, star, nullable, deriv, matches,
}

pub matches-never : (s : List ℕ) → matches never s ≡ false
unfolding matches nullable deriv
matches-never [] = refl
matches-never (c ∷ s) = matches-never s

pub matches-alt : (r q : Regex) (s : List ℕ) → matches (alt r q) s ≡ matches r s || matches q s
unfolding matches nullable deriv
matches-alt r q [] = refl
matches-alt r q (c ∷ s) = matches-alt (deriv c r) (deriv c q) s

pub matches-seq_never : (q : Regex) (s : List ℕ) → matches (seq never q) s ≡ false
unfolding matches nullable deriv
matches-seq_never q [] = refl
matches-seq_never q (c ∷ s) =
    ground (arith, matches-alt (seq never q) never s, matches-seq_never q s, matches-never s)

pub matches-seq_blank : (q : Regex) (s : List ℕ) → matches (seq blank q) s ≡ matches q s
unfolding matches nullable deriv
matches-seq_blank q [] = refl
matches-seq_blank q (c ∷ s) =
    ground (arith, matches-alt (seq never q) (deriv c q) s, matches-seq_never q s)

matches-if :
    (b : Bool) (q : Regex) (s : List ℕ) → matches (if b then q else never) s ≡ b && matches q s
matches-if true q s = refl
matches-if false q s = matches-never s

matches-seq_if :
    (b : Bool) (q : Regex) (s : List ℕ)
    → matches (seq (if b then blank else never) q) s ≡ b && matches q s
matches-seq_if true q s = matches-seq_blank q s
matches-seq_if false q s = matches-seq_never q s

matches-seq_if_never :
    (b : Bool) (r q : Regex) (s : List ℕ)
    → matches (seq (if b then r else never) q) s ≡ b && matches (seq r q) s
matches-seq_if_never true r q s = refl
matches-seq_if_never false r q s = matches-seq_never q s

pub matches-seq_one_nil : (p : ℕ → Bool) (q : Regex) → matches (seq (one p) q) [] ≡ false
unfolding matches nullable
matches-seq_one_nil p q = refl

pub matches-seq_one :
    (p : ℕ → Bool) (q : Regex) (c : ℕ) (s : List ℕ)
    → matches (seq (one p) q) (c ∷ s) ≡ p c && matches q s
unfolding matches nullable deriv
matches-seq_one p q c s = ground (
  arith,
  matches-alt (seq (if p c then blank else never) q) never s,
  matches-seq_if (p c) q s,
  matches-never s,
)

pub matches-seq_alt :
    (r q t : Regex) (s : List ℕ)
    → matches (seq (alt r q) t) s ≡ matches (seq r t) s || matches (seq q t) s
unfolding matches nullable deriv
matches-seq_alt r q t [] = ground arith
matches-seq_alt r q t (c ∷ s) = ground (
  arith,
  matches-alt (seq (alt (deriv c r) (deriv c q)) t)
      (if nullable r || nullable q then deriv c t else never) s,
  matches-seq_alt (deriv c r) (deriv c q) t s,
  matches-if (nullable r || nullable q) (deriv c t) s,
  matches-alt (seq (deriv c r) t) (if nullable r then deriv c t else never) s,
  matches-if (nullable r) (deriv c t) s,
  matches-alt (seq (deriv c q) t) (if nullable q then deriv c t else never) s,
  matches-if (nullable q) (deriv c t) s,
)

pub matches-seq_seq :
    (r q t : Regex) (s : List ℕ) → matches (seq (seq r q) t) s ≡ matches (seq r (seq q t)) s
unfolding matches nullable deriv
matches-seq_seq r q t [] = ground arith
matches-seq_seq r q t (c ∷ s) = ground (
  arith,
  matches-alt (seq (alt (seq (deriv c r) q) (if nullable r then deriv c q else never)) t)
      (if nullable r && nullable q then deriv c t else never) s,
  matches-seq_alt (seq (deriv c r) q) (if nullable r then deriv c q else never) t s,
  matches-seq_seq (deriv c r) q t s,
  matches-seq_if_never (nullable r) (deriv c q) t s,
  matches-if (nullable r && nullable q) (deriv c t) s,
  matches-alt (seq (deriv c r) (seq q t))
      (if nullable r
        then alt (seq (deriv c q) t) (if nullable q then deriv c t else never)
        else never)
      s,
  matches-if (nullable r) (alt (seq (deriv c q) t) (if nullable q then deriv c t else never)) s,
  matches-alt (seq (deriv c q) t) (if nullable q then deriv c t else never) s,
  matches-if (nullable q) (deriv c t) s,
)

pub matches-star_nil : (r : Regex) → matches (star r) [] ≡ true
unfolding matches nullable
matches-star_nil r = refl

-- A loop over one character of `p`, or one of `h` and one of `q`.
pub matches-star_pair :
    (p h q : ℕ → Bool) (c : ℕ) (s : List ℕ)
    → let loop = star (alt (one p) (seq (one h) (one q))) in
      matches loop (c ∷ s) ≡ (p c && matches loop s) || (h c && matches (seq (one q) loop) s)
unfolding matches nullable deriv
matches-star_pair p h q c s =
    let loop = star (alt (one p) (seq (one h) (one q))) in
    let pair = seq (if h c then blank else never) (one q) in
    ground (
      arith,
      matches-seq_alt (if p c then blank else never) (alt pair never) loop s,
      matches-seq_if (p c) loop s,
      matches-seq_alt pair never loop s,
      matches-seq_never loop s,
      matches-seq_seq (if h c then blank else never) (one q) loop s,
      matches-seq_if (h c) (seq (one q) loop) s,
    )
