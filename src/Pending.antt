-- ===== src/Pending.antt =====
-- internal/auth/pending.go: the signed token between the password step and the second factor of a
-- login. A time is in seconds; the base64 encoding and the HMAC are parameters.
pub mod Laws
use protean.Prelude.{
  ℕ, ◌+◌, List, [], ◌∷◌, ◌++◌, Bool, true, false, not, ◌≡◌, Option, none, some, ltb, ◌==◌,
  if◌then◌else◌,
}
use protean.Strings.{Text, same, cut}
use protean.Strings.Decimal.{itoa, parse_int}
use protean.Strings.Laws.{Lacks}

-- `base64.RawURLEncoding` and `sign`; no character of their output is a dot
pub record Codec : Type 0 where
  pub encode : Text → Text
  pub decode : Text → Option Text
  pub sign : Text → Text
  pub decode-encode : (s : Text) → decode (encode s) ≡ some s
  pub encode-Lacks : (s : Text) → Lacks b'.' (encode s)
  pub sign-Lacks : (s : Text) → Lacks b'.' (sign s)

abbrev pub in_front : ℕ → Option (Text × Text) → Option (Text × Text) → Option (Text × Text)
in_front c none here = here
in_front c (some (before, after)) here = some (c ∷ before, after)

-- the text in front of the last `sep` and that behind it, by `strings.LastIndex`
unfoldable pub cut_last : Text → ℕ → Option (Text × Text)
cut_last [] sep = none
cut_last (c ∷ s) sep = in_front c (cut_last s sep) (if c == sep then some ([], s) else none)

module _ (codec : Codec) where
  open codec use {encode, decode, sign}

  -- Issue, with the time to live of `NewPendingAuth`
  unfoldable pub issue : Text → ℕ → Text
  issue username now =
      let payload = encode username ++ b'.' ∷ itoa (now + 300) in payload ++ b'.' ∷ sign payload

  -- the user, where the expiry is a number that has not passed
  unfoldable pub unexpired : ℕ → Option ℕ → Option Text → Option Text
  unexpired now none user = none
  unexpired now (some exp) user = if ltb exp now then none else user

  -- the user name and the expiry
  unfoldable pub verify_fields : ℕ → Option (Text × Text) → Option Text
  unfolding unexpired
  verify_fields now none = none
  verify_fields now (some (user, exp)) = unexpired now (parse_int exp) (decode user)

  unfoldable pub verify_parts : ℕ → Option (Text × Text) → Option Text
  unfolding verify_fields
  verify_parts now none = none
  verify_parts now (some (payload, sig)) =
      if not (same sig (sign payload)) then none else verify_fields now (cut payload b'.')

  -- Verify
  unfoldable pub verify : ℕ → Text → Option Text
  unfolding verify_parts cut_last
  verify now token = verify_parts now (cut_last token b'.')
