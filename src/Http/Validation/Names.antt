-- ===== src/Http/Validation/Names.antt =====
-- Which application names are accepted.
use cloud_ops_manager.Common.{
  ℕ, ◌≤◌, ◌≡◌, refl, ◌↔◌, Bool, true, false, not, ◌&&◌, ◌||◌, [], ◌∷◌, arith, all, length,
}
use cloud_ops_manager.Text.{Text, byte_len, is_lower_letter}
use cloud_ops_manager.Text.Regex.{matches, one, seq, alt, star}
use cloud_ops_manager.Text.Regex.Equations.{
  matches-star_nil, matches-star_pair, matches-seq_one, matches-seq_one_nil,
}
use cloud_ops_manager.Http.Validation.{
  validate_application_name, application_name_regex, is_alnum, is_hyphen,
}

abbrev pub name_char : ℕ → Bool
name_char c = is_alnum c || is_hyphen c

abbrev pub hyphen_or_end : Text → Bool
hyphen_or_end [] = true
hyphen_or_end (c ∷ s) = is_hyphen c

-- A hyphen stands before another hyphen, or at the end.
abbrev pub loose_hyphen : Text → Bool
loose_hyphen [] = false
loose_hyphen (c ∷ s) = (is_hyphen c && hyphen_or_end s) || loose_hyphen s

abbrev pub starts_lower : Text → Bool
starts_lower [] = false
starts_lower (c ∷ s) = is_lower_letter c

loop_lem :
    (s : Text)
    → matches (star (alt (one is_alnum) (seq (one is_hyphen) (one is_alnum)))) s
      ≡ all name_char s && not (loose_hyphen s)
loop_lem [] = matches-star_nil (alt (one is_alnum) (seq (one is_hyphen) (one is_alnum)))
loop_lem (c ∷ []) =
    let loop = star (alt (one is_alnum) (seq (one is_hyphen) (one is_alnum))) in
    ground (
      arith,
      matches-star_pair is_alnum is_hyphen is_alnum c [],
      loop_lem [],
      matches-seq_one_nil is_alnum loop,
    )
loop_lem (c ∷ d ∷ s) =
    let loop = star (alt (one is_alnum) (seq (one is_hyphen) (one is_alnum))) in
    ground (
      arith,
      matches-star_pair is_alnum is_hyphen is_alnum c (d ∷ s),
      loop_lem (d ∷ s),
      loop_lem s,
      matches-seq_one is_alnum loop d s,
    )

regex_lem :
    (s : Text)
    → matches application_name_regex s ≡ starts_lower s && all name_char s && not (loose_hyphen s)
regex_lem [] =
    matches-seq_one_nil is_lower_letter
      (star (alt (one is_alnum) (seq (one is_hyphen) (one is_alnum))))
regex_lem (c ∷ s) = ground (
  arith,
  matches-seq_one is_lower_letter (star (alt (one is_alnum) (seq (one is_hyphen) (one is_alnum)))) c
      s,
  loop_lem s,
)

ascii_length : (s : Text) → all name_char s ≡ true → byte_len s ≡ length s
ascii_length [] h = refl
ascii_length (c ∷ s) h = ground (arith, ascii_length s)

-- A name is accepted exactly if it has 3 to 40 characters, starts with a lower-case letter, has
-- only lower-case letters, digits and hyphens, and no hyphen is followed by a hyphen or ends it.
pub validate_application_name_iff :
    (s : Text)
    → (validate_application_name s ≡ true) ↔ (
        (3 ≤ length s)
        × (length s ≤ 40)
        × (starts_lower s ≡ true)
        × (all name_char s ≡ true)
        × (loose_hyphen s ≡ false))
unfolding validate_application_name
validate_application_name_iff s = ground (arith, regex_lem s, ascii_length s)
