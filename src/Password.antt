-- ===== src/Password.antt =====
-- internal/auth/password_policy.go: the check of a new password against the policy. The tables of
-- Go's package unicode are a parameter.
pub mod Laws
use protean.Prelude.{ℕ, List, [], ◌∷◌, Bool, true, false, not, ◌&&◌, ◌||◌, ltb, if◌then◌else◌}
use protean.Strings.{Text, byte_length}

-- `unicode.IsUpper`, `IsLower`, `IsDigit`, and `IsPunct` or `IsSymbol`
pub record Classes : Type 0 where
  pub upper : ℕ → Bool
  pub lower : ℕ → Bool
  pub digit : ℕ → Bool
  pub symbol : ℕ → Bool

-- store.PasswordPolicySettings
pub record Policy : Type 0 where
  pub min_length : ℕ
  pub require_upper : Bool
  pub require_lower : Bool
  pub require_digit : Bool
  pub require_symbol : Bool

-- PolicyError, by its message
pub data PolicyError : Type 0 where
  too_short : ℕ → PolicyError
  no_upper no_lower no_digit no_symbol : PolicyError

pub data Verdict : Type 0 where
  accepted : Verdict
  rejected : PolicyError → Verdict

-- the variables `hasUpper`, `hasLower`, `hasDigit` and `hasSymbol`
pub record Flags : Type 0 where
  pub has_upper : Bool
  pub has_lower : Bool
  pub has_digit : Bool
  pub has_symbol : Bool

abbrev pub no_flags : Flags
no_flags = record { has_upper = false; has_lower = false; has_digit = false; has_symbol = false }

module _ (classes : Classes) where
  open classes use {upper, lower, digit, symbol}

  -- the `switch` of the loop
  unfoldable pub note_character : Flags → ℕ → Flags
  note_character f r =
      if upper r
      then record f { has_upper = true }
      else if lower r
      then record f { has_lower = true }
      else if digit r
      then record f { has_digit = true }
      else if symbol r
      then record f { has_symbol = true }
      else f

  unfoldable pub note_characters : Flags → Text → Flags
  unfolding note_character
  note_characters f [] = f
  note_characters f (r ∷ rs) = note_characters (note_character f r) rs

  -- the four requirements, in their order
  unfoldable pub check_flags : Policy → Flags → Verdict
  check_flags p f =
      if p.require_upper && not f.has_upper
      then rejected no_upper
      else if p.require_lower && not f.has_lower
      then rejected no_lower
      else if p.require_digit && not f.has_digit
      then rejected no_digit
      else if p.require_symbol && not f.has_symbol
      then rejected no_symbol
      else accepted

  -- ValidatePassword
  unfoldable pub validate_password : Policy → Text → Verdict
  unfolding note_characters check_flags
  validate_password p password =
      if ltb (byte_length password) p.min_length
      then rejected (too_short p.min_length)
      else check_flags p (note_characters no_flags password)
