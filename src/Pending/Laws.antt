-- ===== src/Pending/Laws.antt =====
-- A token is good for the user that it was issued to, until it expires, and only a signed one is.
use protean.Prelude.{
  ℕ, ◌+◌, ◌<◌, [], ◌∷◌, ◌++◌, Bool, true, false, ◌≡◌, refl, ap, ◌∙◌, arith, Option, none, some, ltb,
  ◌==◌, if◌then◌else◌, Bool-cases, inl, inr, ==_iff,
}
use protean.Strings.{Text, same}
use protean.Strings.Decimal.{itoa, parse_int-itoa}
use protean.Strings.Laws.{Lacks, cut-append, same_iff, same_refl}
use protean.Pending.{
  Codec, in_front, cut_last, issue, verify_fields, verify_parts, unexpired, verify,
}

cut_last-none : (t : Text) (sep : ℕ) → Lacks sep t → cut_last t sep ≡ none
unfolding cut_last
cut_last-none [] sep h = refl
cut_last-none (c ∷ t) sep h = rw (cut_last-none t sep h.1) (ground (arith, h.0))

cut_last-append : (s t : Text) (sep : ℕ) → Lacks sep t → cut_last (s ++ sep ∷ t) sep ≡ some (s, t)
unfolding cut_last
cut_last-append [] t sep h = rw (cut_last-none t sep h) (ground arith)
cut_last-append (c ∷ s) t sep h = rw (cut_last-append s t sep h)

module _ (codec : Codec) where
  open codec use {encode, decode, sign, decode-encode, encode-Lacks, sign-Lacks}

  -- A token that was issued to a user is good for that user until five minutes have passed, and
  -- refused after that. The times fit into 63 bits.
  pub verify-issue :
      (user : Text) (now later : ℕ)
      → now + 300 < 9_223_372_036_854_775_808
      → verify codec later (issue codec user now)
        ≡ (if ltb (now + 300) later then none else some user)
  unfolding verify issue verify_parts verify_fields unexpired
  verify-issue user now later h =
      let payload = encode user ++ b'.' ∷ itoa (now + 300) in
      rw
        (
          cut_last-append payload (sign payload) b'.' (sign-Lacks payload),
          same_refl (sign payload),
          cut-append (encode user) (itoa (now + 300)) b'.' (encode-Lacks user),
          parse_int-itoa (now + 300) h,
          decode-encode user,
        )
        refl

  -- the parts that a text is cut into
  abbrev Joins : ℕ → Text → Option (Text × Text) → Type 0
  Joins sep s none = Unit
  Joins sep s (some (before, after)) = s ≡ before ++ sep ∷ after

  in_front-Joins :
      (sep c : ℕ) (s : Text) (o : Option (Text × Text)) (b : Bool)
      → (c == sep) ≡ b
      → Joins sep s o
      → Joins sep (c ∷ s) (in_front c o (if b then some ([], s) else none))
  in_front-Joins sep c s none true e h = ap (λ d. d ∷ s) ((==_iff c sep).0 e)
  in_front-Joins sep c s none false e h = tt
  in_front-Joins sep c s (some (before, after)) b e h = ap (λ t. c ∷ t) h

  cut_last-Joins : (s : Text) (sep : ℕ) → Joins sep s (cut_last s sep)
  unfolding cut_last
  cut_last-Joins [] sep = tt
  cut_last-Joins (c ∷ s) sep =
      in_front-Joins sep c s (cut_last s sep) (c == sep) refl (cut_last-Joins s sep)

  -- A token that is accepted, at any time, is a text with its own signature behind the last dot.
  pub verify-signed :
      (now : ℕ) (token user : Text)
      → verify codec now token ≡ some user
      → (payload : Text) × (token ≡ payload ++ b'.' ∷ sign payload)
  unfolding verify
  verify-signed now token user e = parts (cut_last token b'.') (cut_last-Joins token b'.') e
    where
      parts :
          (o : Option (Text × Text))
          → Joins b'.' token o
          → verify_parts codec now o ≡ some user
          → (payload : Text) × (token ≡ payload ++ b'.' ∷ sign payload)
      parts none j h = absurd (unfold verify_parts in cc)
      parts (some (payload, sig)) j h = elim (Bool-cases (same sig (sign payload))) [
        | inl t ↦ (payload, j ∙ ap (λ k. payload ++ b'.' ∷ k) ((same_iff sig (sign payload)).0 t))
        | inr f ↦
            let refused : verify_parts codec now (some (payload, sig)) ≡ none =
              unfold verify_parts in rw f refl in
            cc
      ]
