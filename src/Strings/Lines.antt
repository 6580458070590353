-- ===== src/Strings/Lines.antt =====
-- Laws of splitting and joining at one character.
use protean.Prelude.{ℕ, List, [], ◌∷◌, ◌++◌, ◌≡◌, refl, arith, All}
use protean.Strings.{Text, split, join}
use protean.Strings.Laws.{Lacks}

-- A text without the separator in front of a separator is the first part of the split.
pub split-append :
    (s rest : Text) (sep : ℕ) → Lacks sep s → split (s ++ sep ∷ rest) sep ≡ s ∷ split rest sep
unfolding split
split-append [] rest sep h = ground arith
split-append (c ∷ s) rest sep h = ground (arith, split-append s rest sep h.1)

pub split-Lacks : (s : Text) (sep : ℕ) → Lacks sep s → split s sep ≡ s ∷ []
unfolding split
split-Lacks [] sep h = refl
split-Lacks (c ∷ s) sep h = ground (arith, split-Lacks s sep h.1)

-- Splitting a join gives the parts back, if there is one and none holds the separator.
pub split-join :
    (p : Text) (ps : List Text) (sep : ℕ)
    → All (Lacks sep) (p ∷ ps)
    → split (join (p ∷ ps) (sep ∷ [])) sep ≡ p ∷ ps
unfolding join
split-join p [] sep h = split-Lacks p sep h.0
split-join p (q ∷ ps) sep h =
    rw (split-append p (join (q ∷ ps) (sep ∷ [])) sep h.0) (rw (split-join q ps sep h.1))
