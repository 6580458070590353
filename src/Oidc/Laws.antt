-- ===== src/Oidc/Laws.antt =====
-- What is issued is accepted, until it expires.
use protean.Prelude.{
  ℕ, ◌+◌, ◌<◌, [], ◌∷◌, ◌++◌, true, false, ◌≡◌, refl, ap, ◌∙◌, arith, none, some, ltb,
  if◌then◌else◌, append_assoc,
}
use protean.Strings.{Text, codes, is_empty, split, join}
use protean.Strings.Decimal.{itoa, itoa-All, parse_int-itoa}
use protean.Strings.Laws.{Lacks, cut-append, same_refl}
use protean.Strings.Lines.{split-join}
use protean.Pending.{Codec}
use protean.Oidc.{
  issue_state, both_decoded, state_fields, verify_state_parts, verify_state, issue_csrf,
  signed_nonce, valid_csrf, match_csrf,
}

join-four :
    (a b c d : Text)
    → join (a ∷ b ∷ c ∷ []) (codes ".") ++ b'.' ∷ d ≡ join (a ∷ b ∷ c ∷ d ∷ []) (codes ".")
unfolding join
join-four a b c d =
    append_assoc a (b'.' ∷ (b ++ b'.' ∷ c)) (b'.' ∷ d)
    ∙ ap (λ t. a ++ b'.' ∷ t) (append_assoc b (b'.' ∷ c) (b'.' ∷ d))

itoa-Lacks : (n : ℕ) → Lacks b'.' (itoa n)
itoa-Lacks n = itoa-All (λ c. c ≡ b'.' → ⊥) (λ d h e. omega (arith, e)) n

module _ (codec : Codec) where
  open codec use {encode, decode, sign, decode-encode, encode-Lacks, sign-Lacks}

  -- A state that was issued for a verifier and a nonce gives both back until ten minutes have passed,
  -- and is refused after that. The times fit into 63 bits.
  pub verify_state-issue_state :
      (verifier nonce : Text) (now later : ℕ)
      → now + 600 < 9_223_372_036_854_775_808
      → verify_state codec later (issue_state codec verifier nonce now)
        ≡ (if ltb (now + 600) later then none else some (verifier, nonce))
  unfolding verify_state issue_state verify_state_parts state_fields both_decoded
  verify_state-issue_state verifier nonce now later h =
      let payload = join (encode verifier ∷ encode nonce ∷ itoa (now + 600) ∷ []) (codes ".") in
      let token : split (payload ++ b'.' ∷ sign payload) b'.'
          ≡ encode verifier ∷ encode nonce ∷ itoa (now + 600) ∷ sign payload ∷ [] =
        ap (λ t. split t b'.')
          (join-four (encode verifier) (encode nonce) (itoa (now + 600)) (sign payload))
        ∙ split-join (encode verifier) (encode nonce ∷ itoa (now + 600) ∷ sign payload ∷ []) b'.' (
          encode-Lacks verifier,
          (encode-Lacks nonce, (itoa-Lacks (now + 600), (sign-Lacks payload, tt))),
        ) in
      rw
        (
          token,
          same_refl (sign payload),
          parse_int-itoa (now + 600) h,
          decode-encode verifier,
          decode-encode nonce,
        )
        refl

  -- The CSRF token that is issued for a nonce is valid and matches itself, where neither the encoding
  -- of the nonce nor its signature is empty.
  pub valid_csrf-issue_csrf :
      (nonce : Text)
      → is_empty (encode nonce) ≡ false
      → is_empty (sign (encode nonce)) ≡ false
      → (valid_csrf codec (issue_csrf codec nonce) ≡ true)
        × (match_csrf (issue_csrf codec nonce) (issue_csrf codec nonce) ≡ true)
  valid_csrf-issue_csrf nonce e k = (valid, matching (issue_csrf codec nonce) some_text)
    where
      n : Text
      n = encode nonce

      valid : valid_csrf codec (issue_csrf codec nonce) ≡ true
      valid =
          unfold valid_csrf issue_csrf signed_nonce in
          rw (cut-append n (sign n) b'.' (encode-Lacks nonce), e, k) (same_refl (sign n))

      begins : (a b : Text) → is_empty (a ++ b'.' ∷ b) ≡ false
      begins [] b = unfold is_empty in refl
      begins (c ∷ a) b = unfold is_empty in refl

      some_text : is_empty (issue_csrf codec nonce) ≡ false
      some_text = unfold issue_csrf in begins n (sign n)

      matching : (t : Text) → is_empty t ≡ false → match_csrf t t ≡ true
      matching t q = unfold match_csrf in rw q (same_refl t)
