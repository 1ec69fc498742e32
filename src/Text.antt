-- ===== src/Text.antt =====
-- Go texts that the program walks: lists of code points, with the functions of Go's packages
-- strings, unicode and utf8 that it calls.
pub mod Trim
pub mod Regex
use Prim.Native.Char.{code}
use cloud_ops_manager.Common.{
  ℕ, ◌+◌, ◌-◌, ◌≡◌, refl, ◌↔◌, Bool, true, false, ◌&&◌, ◌||◌, List, [], ◌∷◌, ◌++◌, map, reverse,
  arith, ltb, leb, ◌==◌, ==_iff, if◌then◌else◌, length, String,
}

-- A text is the list of its code points; every text is valid UTF-8.
abbrev pub Text : Type 0
Text = List ℕ

-- The code points of a literal.
abbrev pub codes : String → Text
codes String.[] = []
codes (String.◌∷◌ c s) = code c ∷ codes s

-- Equality of texts.
unfoldable pub text_eq : Text → Text → Bool
text_eq [] [] = true
text_eq (a ∷ s) (b ∷ t) = a == b && text_eq s t
text_eq _ _ = false

pub text_eq→eq : (s t : Text) → text_eq s t ≡ true → s ≡ t
unfolding text_eq
text_eq→eq [] [] h = refl
text_eq→eq [] (b ∷ t) h = ground arith
text_eq→eq (a ∷ s) [] h = ground arith
text_eq→eq (a ∷ s) (b ∷ t) h = ground (arith, text_eq→eq s t)

pub text_eq_refl : (s : Text) → text_eq s s ≡ true
unfolding text_eq
text_eq_refl [] = refl
text_eq_refl (a ∷ s) = ground (arith, text_eq_refl s)

pub text_eq_iff : (s t : Text) → (text_eq s t ≡ true) ↔ (s ≡ t)
text_eq_iff s t = (text_eq→eq s t, λ e. rw e (text_eq_refl t))

-- The number of bytes of a code point in UTF-8.
abbrev pub rune_len : ℕ → ℕ
rune_len c = if ltb c 0x80 then 1 else if ltb c 0x800 then 2 else if ltb c 0x10000 then 3 else 4

-- Go's `len` of a string: its bytes.
abbrev pub byte_len : Text → ℕ
byte_len [] = 0
byte_len (c ∷ s) = rune_len c + byte_len s

-- unicode.IsSpace
unfoldable pub is_space : ℕ → Bool
is_space c =
    (leb 9 c && leb c 13)
    || c == 32
    || c == 0x85
    || c == 0xA0
    || c == 0x1680
    || (leb 0x2000 c && leb c 0x200A)
    || c == 0x2028
    || c == 0x2029
    || c == 0x202F
    || c == 0x205F
    || c == 0x3000

abbrev pub is_upper_letter : ℕ → Bool
is_upper_letter c = leb b'A' c && leb c b'Z'

abbrev pub is_lower_letter : ℕ → Bool
is_lower_letter c = leb b'a' c && leb c b'z'

abbrev pub is_letter : ℕ → Bool
is_letter c = is_lower_letter c || is_upper_letter c

abbrev pub is_digit : ℕ → Bool
is_digit c = leb b'0' c && leb c b'9'

-- Case mapping: the ASCII letters are written out, and the rest of the Unicode table is an
-- argument.
unfoldable pub lower_rune : (ℕ → ℕ) → ℕ → ℕ
lower_rune beyond c = if ltb c 128 then (if is_upper_letter c then c + 32 else c) else beyond c

unfoldable pub upper_rune : (ℕ → ℕ) → ℕ → ℕ
upper_rune beyond c = if ltb c 128 then (if is_lower_letter c then c - 32 else c) else beyond c

-- strings.ToLower and strings.ToUpper
abbrev pub to_lower : (ℕ → ℕ) → Text → Text
to_lower beyond = map (lower_rune beyond)

abbrev pub to_upper : (ℕ → ℕ) → Text → Text
to_upper beyond = map (upper_rune beyond)
