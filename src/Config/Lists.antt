-- ===== src/Config/Lists.antt =====
-- What splitting a list of the configuration keeps.
use cloud_ops_manager.Common.{
  ℕ, zero, suc, ◌-◌, ◌≡◌, refl, ap, ◌∙◌, true, false, List, [], ◌∷◌, ◌++◌, map, arith, append-nil,
  ◌==◌, length, drop, null, any, All, Bool-cases, inl, inr,
}
use cloud_ops_manager.Text.{Text, codes}
use cloud_ops_manager.Text.Trim.{trim_idempotent}
use cloud_ops_manager.Config.Split.{split_string, pieces, begins}
use cloud_ops_manager.Config.{split_and_trim, trim_space, not_empty}

-- The pieces behind the first, each after a separator.
abbrev pub join_rest : Text → List Text → Text
join_rest sep [] = []
join_rest sep (p ∷ ps) = sep ++ (p ++ join_rest sep ps)

-- strings.Join
abbrev pub join : Text → List Text → Text
join sep [] = []
join sep (p ∷ ps) = p ++ join_rest sep ps

begins-drop : (sep s : Text) → begins sep s ≡ true → sep ++ drop (length sep) s ≡ s
begins-drop [] s h = refl
begins-drop (d ∷ sep) [] h = cc
begins-drop (d ∷ sep) (c ∷ s) h = ground (arith, begins-drop sep s)

suc_minus : (n : ℕ) → suc n - 1 ≡ n
suc_minus n = omega arith

join-pieces :
    (d : ℕ) (sep : Text) (skip : ℕ) (s : Text)
    → join (d ∷ sep) ((pieces (d ∷ sep) skip s).0 ∷ (pieces (d ∷ sep) skip s).1) ≡ drop skip s
unfolding pieces
join-pieces d sep zero [] = refl
join-pieces d sep (suc skip) [] = refl
join-pieces d sep (suc skip) (c ∷ s) = join-pieces d sep skip s
join-pieces d sep zero (c ∷ s) = elim (Bool-cases (begins (d ∷ sep) (c ∷ s))) [
  | inl h ↦
      rw (h, pieces)
        (rw (suc_minus (length sep)) (
          ap (λ t. (d ∷ sep) ++ t) (join-pieces d sep (length sep) s)
          ∙ begins-drop (d ∷ sep) (c ∷ s) h))
  | inr h ↦ rw (h, pieces) (ap (λ t. c ∷ t) (join-pieces d sep 0 s))
]

-- Joining what splitString returns gives the text back, for every separator that is not empty.
join-split_string : (s sep : Text) → null sep ≡ false → join sep (split_string s sep) ≡ s
unfolding split_string
join-split_string s [] h = cc
join-split_string s (d ∷ sep) h = join-pieces d sep 0 s

abbrev pub comma : Text
comma = codes ","

-- An item of a list: not empty, without a comma, and with no blank at either end.
abbrev pub IsItem : Text → Type 0
IsItem p = (null p ≡ false) × (any (λ c. c == b',') p ≡ false) × (trim_space p ≡ p)

pieces-no_comma :
    (p : Text) (s : Text)
    → any (λ c. c == b',') p ≡ false
    → pieces comma 0 (p ++ s) ≡ (p ++ (pieces comma 0 s).0, (pieces comma 0 s).1)
unfolding pieces
pieces-no_comma [] s h = refl
pieces-no_comma (c ∷ p) s h = ground (arith, pieces-no_comma p s)

abbrev Without : Text → Type 0
Without p = any (λ c. c == b',') p ≡ false

pieces-join : (ps : List Text) → All Without ps → pieces comma 0 (join_rest comma ps) ≡ ([], ps)
unfolding pieces
pieces-join [] h = refl
pieces-join (p ∷ ps) h =
    rw (pieces-no_comma p (join_rest comma ps) h.0) (rw (pieces-join ps h.1) (rw append-nil refl))

split_string-join :
    (p : Text) (ps : List Text)
    → All Without (p ∷ ps)
    → split_string (join comma (p ∷ ps)) comma ≡ p ∷ ps
unfolding split_string
split_string-join p ps h =
    rw (pieces-no_comma p (join_rest comma ps) h.0) (rw (pieces-join ps h.1) (rw append-nil refl))

without : (ps : List Text) → All IsItem ps → All Without ps
without [] h = tt
without (p ∷ ps) h = (h.0.1, without ps h.1)

kept_items : (ps : List Text) → All IsItem ps → not_empty (map trim_space ps) ≡ ps
kept_items [] h = refl
kept_items (p ∷ ps) h = rw (h.0.2, h.0.0) (ap (λ qs. p ∷ qs) (kept_items ps h.1))

nothing_split : split_and_trim [] comma ≡ []
unfolding split_and_trim split_string pieces trim_space cloud_ops_manager.Text.Trim.trim
nothing_split = refl

-- A list whose items are not empty, have no comma and have no blank at either end is read back as
-- it was when it is joined by commas.
split_and_trim-join : (ps : List Text) → All IsItem ps → split_and_trim (join comma ps) comma ≡ ps
unfolding split_and_trim
split_and_trim-join [] h = nothing_split
split_and_trim-join (p ∷ ps) h =
    rw (split_string-join p ps (without (p ∷ ps) h)) (kept_items (p ∷ ps) h)
