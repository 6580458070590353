-- ===== src/Tests/Passwords.antt =====
-- The password policy, at a concrete input, with the classes of ASCII.
use protean.Prelude.{◌≤◌, true, false, not, ◌&&◌, ◌||◌, ◌≡◌, ◌↔◌, leb, ◌==◌, refl}
use protean.Strings.{codes, byte_length}
use protean.Password.{Classes, Policy, accepted, validate_password}
use protean.Password.Laws.{
  some_character, counts_lower, counts_digit, counts_symbol, validate_password_iff,
}

abbrev ascii : Classes
ascii = record {
  upper = λ c. leb b'A' c && leb c b'Z';
  lower = λ c. leb b'a' c && leb c b'z';
  digit = λ c. leb b'0' c && leb c b'9';
  symbol = λ c. c == b'!';
}

abbrev policy : Policy
policy = record {
  min_length = 8;
  require_upper = true;
  require_lower = false;
  require_digit = true;
  require_symbol = false;
}

password_example : (validate_password ascii policy (codes "Tunnel01") ≡ accepted) ↔ (
    (8 ≤ byte_length (codes "Tunnel01"))
    × ((not true || some_character ascii.upper (codes "Tunnel01")) ≡ true)
    × ((not false || some_character (counts_lower ascii) (codes "Tunnel01")) ≡ true)
    × ((not true || some_character (counts_digit ascii) (codes "Tunnel01")) ≡ true)
    × ((not false || some_character (counts_symbol ascii) (codes "Tunnel01")) ≡ true))
password_example = validate_password_iff ascii policy (codes "Tunnel01")

abbrev eight : Policy
eight = record {
  min_length = 8;
  require_upper = false;
  require_lower = false;
  require_digit = false;
  require_symbol = false;
}

-- four Cyrillic letters, of two bytes each
four_letters : validate_password ascii eight (codes "жжжж") ≡ accepted
unfolding validate_password byte_length
four_letters = refl
