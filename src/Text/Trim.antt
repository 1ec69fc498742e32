-- ===== src/Text/Trim.antt =====
-- Trimming both ends of a text by a test on its code points.
use mathlib.Core.List.{reverse-reverse, reverse-append}
use cloud_ops_manager.Common.{
  ℕ, ◌≡◌, refl, sym, ◌∙◌, ap, Bool, true, not, List, [], ◌∷◌, ◌++◌, reverse, arith, if◌then◌else◌,
  Bool-cases, all, all-reverse, inl, inr,
}

-- Drops the longest prefix whose elements pass the test.
unfoldable pub trim_left : (ℕ → Bool) → List ℕ → List ℕ
trim_left p [] = []
trim_left p (c ∷ s) = if p c then trim_left p s else c ∷ s

-- strings.TrimFunc: both ends.
unfoldable pub trim : (ℕ → Bool) → List ℕ → List ℕ
unfolding trim_left
trim p s = reverse (trim_left p (reverse (trim_left p s)))

-- No element at the front passes the test.
abbrev pub stops : (ℕ → Bool) → List ℕ → Bool
stops p [] = true
stops p (c ∷ s) = not (p c)

-- What `trim_left` drops.
abbrev dropped : (ℕ → Bool) → List ℕ → List ℕ
dropped p [] = []
dropped p (c ∷ s) = if p c then c ∷ dropped p s else []

module _ (p : ℕ → Bool) where
  stops-trim_left : (s : List ℕ) → stops p (trim_left p s) ≡ true
  unfolding trim_left
  stops-trim_left [] = refl
  stops-trim_left (c ∷ s) = ground (arith, stops-trim_left s)

  trim_left_of_stops : (s : List ℕ) → stops p s ≡ true → trim_left p s ≡ s
  unfolding trim_left
  trim_left_of_stops [] h = refl
  trim_left_of_stops (c ∷ s) h = ground arith

  dropped-append : (s : List ℕ) → s ≡ dropped p s ++ trim_left p s
  unfolding trim_left
  dropped-append [] = refl
  dropped-append (c ∷ s) = elim (Bool-cases (p c)) [
    | inl yes' ↦ rw yes' (ap (λ t. c ∷ t) (dropped-append s))
    | inr no' ↦ rw no'
  ]

  all-dropped : (s : List ℕ) → all p (dropped p s) ≡ true
  all-dropped [] = refl
  all-dropped (c ∷ s) = ground (arith, all-dropped s)

  stops_of_append : (s t : List ℕ) → stops p (s ++ t) ≡ true → stops p s ≡ true
  stops_of_append [] t h = refl
  stops_of_append (c ∷ s) t h = h

  -- The kept text, and what is cut off behind it.
  trim-prefix :
      (s : List ℕ) → trim_left p s ≡ trim p s ++ reverse (dropped p (reverse (trim_left p s)))
  unfolding trim
  trim-prefix s =
      let t = trim_left p s in
      let u = reverse t in
      sym (reverse-reverse t)
      ∙ (ap reverse (dropped-append u) ∙ reverse-append (dropped p u) (trim_left p u))

  -- A trimmed text neither starts nor ends with an element that passes the test.
  pub stops-trim : (s : List ℕ) → stops p (trim p s) ≡ true
  stops-trim s =
      stops_of_append (trim p s) (reverse (dropped p (reverse (trim_left p s))))
        (rw (← trim-prefix s) (stops-trim_left s))

  pub stops-reverse-trim : (s : List ℕ) → stops p (reverse (trim p s)) ≡ true
  unfolding trim
  stops-reverse-trim s = rw reverse-reverse (stops-trim_left (reverse (trim_left p s)))

  -- A text that is clean at both ends is its own trimming.
  pub trim_of_stops : (s : List ℕ) → stops p s ≡ true → stops p (reverse s) ≡ true → trim p s ≡ s
  unfolding trim
  trim_of_stops s h k =
      rw (trim_left_of_stops s h, trim_left_of_stops (reverse s) k) (reverse-reverse s)

  pub trim_idempotent : (s : List ℕ) → trim p (trim p s) ≡ trim p s
  trim_idempotent s = trim_of_stops (trim p s) (stops-trim s) (stops-reverse-trim s)

  -- The text is the trimmed text between two runs that pass the test.
  pub trim-parts :
      (s : List ℕ)
      → (before : List ℕ) × (behind : List ℕ) × (s ≡ before ++ (trim p s ++ behind))
        × (all p before ≡ true)
        × (all p behind ≡ true)
  trim-parts s =
      let cut = dropped p (reverse (trim_left p s)) in
      (
        dropped p s,
        reverse cut,
        dropped-append s ∙ ap (λ t. dropped p s ++ t) (trim-prefix s),
        all-dropped s,
        all-reverse p cut (all-dropped (reverse (trim_left p s))),
      )
