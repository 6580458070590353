-- ===== src/Strings/Trim.antt =====
-- Laws of `TrimSpace`.
use protean.Prelude.{[], ◌∷◌, ◌++◌, ◌≡◌, refl, sym, ap, ◌∙◌, false, reverse, subst}
use mathlib.Core.List.{reverse-append, reverse-reverse}
use protean.Strings.{Text, is_space, trim_left, trim_space}

-- The text begins with a character that is no space.
abbrev pub Starts : Text → Type 0
Starts [] = ⊥
Starts (c ∷ s) = is_space c ≡ false

-- It ends with one.
abbrev pub Ends : Text → Type 0
Ends s = Starts (reverse s)

pub trim_left-Starts : (s : Text) → Starts s → trim_left s ≡ s
unfolding trim_left
trim_left-Starts [] h = absurd h
trim_left-Starts (c ∷ s) h = rw h

pub append-Starts : (s t : Text) → Starts s → Starts (s ++ t)
append-Starts [] t h = absurd h
append-Starts (c ∷ s) t h = h

pub append-Ends : (s t : Text) → Ends t → Ends (s ++ t)
append-Ends s t h =
    subst Starts (sym (reverse-append s t)) (append-Starts (reverse t) (reverse s) h)

pub trim_space-lem : (s : Text) → Starts s → Ends s → trim_space s ≡ s
unfolding trim_space
trim_space-lem s h k =
    ap (λ t. reverse (trim_left (reverse t))) (trim_left-Starts s h)
    ∙ ap reverse (trim_left-Starts (reverse s) k)
    ∙ reverse-reverse s

-- A blank in front or behind is trimmed.
pub trim_space-blank_left : (s : Text) → trim_space (b' ' ∷ s) ≡ trim_space s
unfolding trim_space trim_left is_space
trim_space-blank_left s = refl

blank : (s : Text) → trim_left (b' ' ∷ s) ≡ trim_left s
unfolding trim_left is_space
blank s = refl

pub trim_space-blank_right : (s : Text) → Starts s → Ends s → trim_space (s ++ b' ' ∷ []) ≡ s
unfolding trim_space
trim_space-blank_right s h k =
    ap (λ t. reverse (trim_left (reverse t)))
      (trim_left-Starts (s ++ b' ' ∷ []) (append-Starts s (b' ' ∷ []) h))
    ∙ ap (λ t. reverse (trim_left t)) (reverse-append s (b' ' ∷ []))
    ∙ ap reverse (blank (reverse s))
    ∙ ap reverse (trim_left-Starts (reverse s) k)
    ∙ reverse-reverse s
