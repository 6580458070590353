-- ===== src/Oidc.antt =====
-- internal/auth/oidcstate.go: the signed state of a login through an OIDC provider, and
-- internal/auth/csrf.go: the CSRF token. The encoding and the signature are those of `Codec`.
pub mod Laws
use protean.Prelude.{
  ℕ, ◌+◌, List, [], ◌∷◌, ◌++◌, Bool, true, false, not, ◌||◌, ◌&&◌, Option, none, some, ltb,
  if◌then◌else◌,
}
use protean.Strings.{Text, codes, same, is_empty, cut, split, join}
use protean.Strings.Decimal.{itoa, parse_int}
use protean.Pending.{Codec}

module _ (codec : Codec) where
  open codec use {encode, decode, sign}

  -- Issue of OIDCState, with the time to live of `NewOIDCState`
  unfoldable pub issue_state : (verifier nonce : Text) → ℕ → Text
  issue_state verifier nonce now =
      let payload = join (encode verifier ∷ encode nonce ∷ itoa (now + 600) ∷ []) (codes ".") in
      payload ++ b'.' ∷ sign payload

  -- the verifier and the nonce
  unfoldable pub both_decoded : Option Text → Option Text → Option (Text × Text)
  both_decoded (some v) (some n) = some (v, n)
  both_decoded _ _ = none

  -- the verifier and the nonce, where the expiry is a number that has not passed
  unfoldable pub state_fields : ℕ → Option ℕ → (v n : Option Text) → Option (Text × Text)
  unfolding both_decoded
  state_fields now none v n = none
  state_fields now (some exp) v n = if ltb exp now then none else both_decoded v n

  unfoldable pub verify_state_parts : ℕ → List Text → Option (Text × Text)
  unfolding state_fields
  verify_state_parts now (v ∷ n ∷ exp ∷ sig ∷ []) =
      if not (same sig (sign (join (v ∷ n ∷ exp ∷ []) (codes "."))))
      then none
      else state_fields now (parse_int exp) (decode v) (decode n)
  verify_state_parts now _ = none

  -- Verify of OIDCState
  unfoldable pub verify_state : ℕ → Text → Option (Text × Text)
  unfolding verify_state_parts
  verify_state now token = verify_state_parts now (split token b'.')

  -- Issue of CSRF, for a nonce of random bytes
  unfoldable pub issue_csrf : Text → Text
  issue_csrf nonce = let n = encode nonce in n ++ b'.' ∷ sign n

  unfoldable pub signed_nonce : Option (Text × Text) → Bool
  signed_nonce none = false
  signed_nonce (some (nonce, sig)) =
      if is_empty nonce || is_empty sig then false else same sig (sign nonce)

  -- Valid
  unfoldable pub valid_csrf : Text → Bool
  unfolding signed_nonce
  valid_csrf token = signed_nonce (cut token b'.')

-- Match
unfoldable pub match_csrf : Text → Text → Bool
match_csrf a b = if is_empty a || is_empty b then false else same a b
