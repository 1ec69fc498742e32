-- ===== src/Config/Split.antt =====
-- splitString of services/api/internal/config/config.go.
use cloud_ops_manager.Common.{
  ℕ, zero, suc, ◌-◌, Bool, true, false, ◌&&◌, List, [], ◌∷◌, ◌==◌, length, null, if◌then◌else◌,
}
use cloud_ops_manager.Text.{Text}

-- s[i:i+len(sep)] == sep
abbrev pub begins : Text → Text → Bool
begins [] s = true
begins (d ∷ sep) [] = false
begins (d ∷ sep) (c ∷ s) = d == c && begins sep s

abbrev pub Pieces : Type 0
Pieces = Text × List Text

-- The first piece of what is left, and the pieces behind it. `skip` counts the elements of a
-- separator that are still to be passed over.
unfoldable pub pieces : Text → ℕ → Text → Pieces
pieces sep skip [] = ([], [])
pieces sep (suc skip) (c ∷ s) = pieces sep skip s
pieces sep zero (c ∷ s) = elim (begins sep (c ∷ s)) [
  | true ↦ (let (p, ps) = pieces sep (length sep - 1) s in ([], p ∷ ps))
  | false ↦ (let (p, ps) = pieces sep 0 s in (c ∷ p, ps))
]

unfoldable pub split_string : Text → Text → List Text
unfolding pieces
split_string s sep = if null sep then s ∷ [] else (let (p, ps) = pieces sep 0 s in p ∷ ps)
