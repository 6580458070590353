-- ===== src/Tests/Tokens.antt =====
-- The pending token, at concrete inputs, with an encoding that moves each character away from the
-- dot.
use protean.Prelude.{
  ◌+◌, ◌-◌, [], ◌∷◌, ◌++◌, ◌≡◌, refl, ap, ap₂, arith, none, some, ltb, if◌then◌else◌, map,
}
use protean.Strings.{Text, codes}
use protean.Strings.Laws.{Lacks}
use protean.Pending.{Codec, issue, verify}
use protean.Oidc.{issue_state, verify_state}
use protean.Oidc.Laws.{verify_state-issue_state}
use protean.Pending.Laws.{verify-issue, verify-signed}

-- each character one step away from the dot
abbrev pub shifted : Text → Text
shifted s = map (λ c. c + 100) s

abbrev pub unshifted : Text → Text
unshifted s = map (λ c. c - 100) s

pub unshifted-shifted : (s : Text) → unshifted (shifted s) ≡ s
unshifted-shifted [] = refl
unshifted-shifted (c ∷ s) = ap₂ (λ d t. d ∷ t) (omega arith) (unshifted-shifted s)

pub shifted-Lacks : (s : Text) → Lacks b'.' (shifted s)
shifted-Lacks [] = tt
shifted-Lacks (c ∷ s) = ((λ e. omega (arith, e)), shifted-Lacks s)

abbrev codec : Codec
codec = record {
  encode = shifted;
  decode = λ s. some (unshifted s);
  sign = shifted;
  decode-encode = λ s. ap some (unshifted-shifted s);
  encode-Lacks = shifted-Lacks;
  sign-Lacks = shifted-Lacks;
}

issue_example :
    verify codec 1_100 (issue codec (codes "ann") 1_000)
    ≡ (if ltb (1_000 + 300) 1_100 then none else some (codes "ann"))
issue_example = verify-issue codec (codes "ann") 1_000 1_100 (omega arith)

accepted : verify codec 1_100 (issue codec (codes "ann") 1_000) ≡ some (codes "ann")
accepted = verify-issue codec (codes "ann") 1_000 1_100 (omega arith)

signed_example :
    (payload : Text) × (issue codec (codes "ann") 1_000 ≡ payload ++ b'.' ∷ codec.sign payload)
signed_example = verify-signed codec 1_100 (issue codec (codes "ann") 1_000) (codes "ann") accepted

state_example :
    verify_state codec 1_100 (issue_state codec (codes "v1") (codes "n1") 1_000)
    ≡ (if ltb (1_000 + 600) 1_100 then none else some (codes "v1", codes "n1"))
state_example = verify_state-issue_state codec (codes "v1") (codes "n1") 1_000 1_100 (omega arith)
