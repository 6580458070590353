-- ===== src/Password/Laws.antt =====
-- Which passwords the policy lets through.
use protean.Prelude.{ℕ, [], ◌∷◌, Bool, true, false, not, ◌&&◌, ◌||◌, ◌≡◌, ◌≤◌, ◌↔◌, arith}
use protean.Strings.{Text, byte_length}
use protean.Password.{
  Classes, Policy, accepted, Flags, no_flags, note_character, note_characters, check_flags,
  validate_password,
}

-- some character passes the test
abbrev pub some_character : (ℕ → Bool) → Text → Bool
some_character p [] = false
some_character p (c ∷ s) = p c || some_character p s

module _ (classes : Classes) where
  open classes use {upper, lower, digit, symbol}

  -- what a character counts as: the first class that it is in
  abbrev pub counts_lower : ℕ → Bool
  counts_lower c = not (upper c) && lower c

  abbrev pub counts_digit : ℕ → Bool
  counts_digit c = not (upper c) && (not (lower c) && digit c)

  abbrev pub counts_symbol : ℕ → Bool
  counts_symbol c = not (upper c) && (not (lower c) && (not (digit c) && symbol c))

  flags_found :
      (f : Flags) (s : Text)
      → ((note_characters classes f s).has_upper ≡ (f.has_upper || some_character upper s))
        × ((note_characters classes f s).has_lower ≡ (f.has_lower || some_character counts_lower s))
        × ((note_characters classes f s).has_digit ≡ (f.has_digit || some_character counts_digit s))
        × ((note_characters classes f s).has_symbol
            ≡ (f.has_symbol || some_character counts_symbol s))
  unfolding note_characters note_character
  flags_found f [] = (ground arith, ground arith, ground arith, ground arith)
  flags_found f (c ∷ s) =
      let more = flags_found (note_character classes f c) s in
      (
        ground (arith, more.0),
        ground (arith, more.1),
        ground (arith, more.2),
        ground (arith, more.3),
      )

  -- A password is accepted exactly if its text in UTF-8 has at least as many bytes as the length that
  -- the policy asks for, whatever the number of its characters, and it has, of each class that the
  -- policy requires, a character that counts as one.
  pub validate_password_iff :
      (p : Policy) (s : Text)
      → (validate_password classes p s ≡ accepted) ↔ (
          (p.min_length ≤ byte_length s)
          × ((not p.require_upper || some_character upper s) ≡ true)
          × ((not p.require_lower || some_character counts_lower s) ≡ true)
          × ((not p.require_digit || some_character counts_digit s) ≡ true)
          × ((not p.require_symbol || some_character counts_symbol s) ≡ true))
  unfolding validate_password check_flags
  validate_password_iff p s =
      let (u, l, d, y) = flags_found no_flags s in
      ((λ e. ground (arith, u, l, d, y)), (λ h. ground (arith, u, l, d, y)))
