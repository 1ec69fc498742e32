-- ===== src/Domain/ValueObjects/Emails.antt =====
-- What `new_email` accepts.
use cloud_ops_manager.Common.{
  ℕ, ◌≤◌, ◌≡◌, refl, sym, ap, ◌∙◌, ◌↔◌, Bool, true, false, not, ◌||◌, [], ◌∷◌, reverse, ok, arith,
  ◌==◌, all, all-reverse, null,
}
use cloud_ops_manager.Text.{Text, byte_len, is_space, is_upper_letter, lower_rune, to_lower}
use cloud_ops_manager.Text.Trim.{stops, trim_of_stops}
use cloud_ops_manager.Text.Regex.{Matches, Matches-all, matches, matches_iff, Within}
use cloud_ops_manager.Domain.ValueObjects.{Email, new_email, email_regex, local_char, trim_space}

abbrev email_char : ℕ → Bool
email_char c = local_char c || c == b'@'

email_regex-Within : Within email_char email_regex
unfolding email_regex
email_regex-Within = (
  (λ c h. ground arith, λ c h. ground arith),
  (
    λ c h. ground arith,
    (
      (λ c h. ground arith, λ c h. ground arith),
      (λ c h. ground arith, (λ c h. ground arith, (λ c h. ground arith, λ c h. ground arith))),
    ),
  ),
)

not_empty : matches email_regex [] ≡ false
unfolding matches email_regex
not_empty = refl

new_email_sound :
    (beyond : ℕ → ℕ) (value : Text) (e : Email)
    → new_email beyond value ≡ ok e
    → (e.value ≡ to_lower beyond (trim_space value))
      × (byte_len e.value ≤ 254)
      × (matches email_regex e.value ≡ true)
unfolding new_email
new_email_sound beyond value e h = ground arith

null_of_match : (n : Text) → matches email_regex n ≡ true → null n ≡ false
null_of_match [] m = cc (not_empty)
null_of_match (c ∷ n) m = refl

new_email_complete :
    (beyond : ℕ → ℕ) (value : Text) (e : Email)
    → e.value ≡ to_lower beyond (trim_space value)
    → byte_len e.value ≤ 254
    → matches email_regex e.value ≡ true
    → new_email beyond value ≡ ok e
unfolding new_email
new_email_complete beyond value e same short match = ground (arith, null_of_match e.value match)

-- An accepted email is the trimmed input in lower case, has at most 254 bytes, and matches the
-- pattern; and every such text is accepted.
pub new_email_iff :
    (beyond : ℕ → ℕ) (value : Text) (e : Email)
    → (new_email beyond value ≡ ok e) ↔ (
        (e.value ≡ to_lower beyond (trim_space value))
        × (byte_len e.value ≤ 254)
        × Matches email_regex e.value)
new_email_iff beyond value e = (
  λ h.
      let (same, short, match) = new_email_sound beyond value e h in
      (same, short, (matches_iff email_regex e.value).0 match),
  λ h. new_email_complete beyond value e h.0 h.1 ((matches_iff email_regex e.value).1 h.2),
)

stops_of_all : (s : Text) → all email_char s ≡ true → stops is_space s ≡ true
unfolding is_space
stops_of_all [] h = refl
stops_of_all (c ∷ s) h = ground arith

module _ (beyond : ℕ → ℕ) (lowers : (c : ℕ) → 128 ≤ c → is_upper_letter (beyond c) ≡ false) where
  abbrev not_upper : ℕ → Bool
  not_upper c = not (is_upper_letter c)

  all-lower : (s : Text) → all not_upper (to_lower beyond s) ≡ true
  unfolding lower_rune
  all-lower [] = refl
  all-lower (c ∷ s) = ground (arith, lowers c, all-lower s)

  to_lower_of_all :
      (s : Text) → all email_char s ≡ true → all not_upper s ≡ true → to_lower beyond s ≡ s
  unfolding lower_rune
  to_lower_of_all [] h k = refl
  to_lower_of_all (c ∷ s) h k = ground (arith, to_lower_of_all s)

  trimmed : (s : Text) → all email_char s ≡ true → trim_space s ≡ s
  trimmed s h =
      trim_of_stops is_space s (stops_of_all s h)
        (stops_of_all (reverse s) (all-reverse email_char s h))

  -- Where the case table lowers (no code point beyond ASCII becomes an ASCII capital), the text of
  -- an accepted email is accepted again, as the same email.
  pub new_email_idempotent :
      (value : Text) (e : Email) → new_email beyond value ≡ ok e → new_email beyond e.value ≡ ok e
  new_email_idempotent value e h =
      let (same, short, match) = (new_email_iff beyond value e).0 h in
      let chars = Matches-all match email_char email_regex-Within in
      let fixed : to_lower beyond (trim_space e.value) ≡ e.value =
        ap (to_lower beyond) (trimmed e.value chars)
        ∙ to_lower_of_all e.value chars (rw same (all-lower (trim_space value))) in
      (new_email_iff beyond e.value e).1 (sym fixed, short, match)
