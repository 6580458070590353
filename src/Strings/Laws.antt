-- ===== src/Strings/Laws.antt =====
-- Laws of string equality, sets of strings, and cutting.
use protean.Prelude.{
  ℕ, List, [], ◌∷◌, ◌++◌, true, false, ◌||◌, ◌≡◌, ◌≢◌, ◌↔◌, refl, none, some, arith, All, Any, inl,
  inr, Bool-cases,
}
use protean.Strings.{Text, same, member, cut, cut_prefix, has_prefix, is_empty, contains}

same→eq : (s t : Text) → same s t ≡ true → s ≡ t
unfolding same
same→eq [] [] h = refl
same→eq [] (b ∷ t) h = cc
same→eq (a ∷ s) [] h = cc
same→eq (a ∷ s) (b ∷ t) h = ground (arith, same→eq s t)

pub same_refl : (s : Text) → same s s ≡ true
unfolding same
same_refl [] = refl
same_refl (a ∷ s) = ground (arith, same_refl s)

-- `==` on strings is equality.
pub same_iff : (s t : Text) → (same s t ≡ true) ↔ (s ≡ t)
same_iff s t = (same→eq s t, λ e. rw e (same_refl t))

pub same_ne : (s t : Text) → s ≢ t → same s t ≡ false
same_ne s t h = elim (Bool-cases (same s t)) [ inl e ↦ absurd (h (same→eq s t e)) | inr e ↦ e ]

pub is_empty_iff : (s : Text) → (is_empty s ≡ true) ↔ (s ≡ [])
unfolding is_empty
is_empty_iff [] = (λ _. refl, λ _. refl)
is_empty_iff (c ∷ s) = (λ h. cc, λ h. cc)

pub member→Any : (s : Text) (ts : List Text) → member s ts ≡ true → Any (λ t. t ≡ s) ts
unfolding member
member→Any s [] h = cc
member→Any s (t ∷ ts) h = elim (Bool-cases (same t s)) [
  | inl e ↦ inl (same→eq t s e)
  | inr e ↦ inr (member→Any s ts (ground arith))
]

pub Any→member : (s : Text) (ts : List Text) → Any (λ t. t ≡ s) ts → member s ts ≡ true
unfolding member
Any→member s [] h = absurd h
Any→member s (t ∷ ts) (inl e) = ground (arith, same_iff t s)
Any→member s (t ∷ ts) (inr h) = ground (arith, Any→member s ts h)

-- A list of strings without repetition.
abbrev pub IsNodup : List Text → Type 0
IsNodup [] = Unit
IsNodup (t ∷ ts) = (member t ts ≡ false) × IsNodup ts

-- No character of the text is `sep`.
abbrev pub Lacks : ℕ → Text → Type 0
Lacks sep = All (λ c. c ≢ sep)

-- Cutting behind a text without the separator gives that text and the rest.
pub cut-append :
    (s rest : Text) (sep : ℕ) → Lacks sep s → cut (s ++ sep ∷ rest) sep ≡ some (s, rest)
unfolding cut
cut-append [] rest sep h = ground arith
cut-append (c ∷ s) rest sep h = ground (arith, cut-append s rest sep h.1)

pub cut-none : (s : Text) (sep : ℕ) → Lacks sep s → cut s sep ≡ none
unfolding cut
cut-none [] sep h = refl
cut-none (c ∷ s) sep h = ground (arith, cut-none s sep h.1)

pub cut_prefix-append : (p s : Text) → cut_prefix (p ++ s) p ≡ some s
unfolding cut_prefix
cut_prefix-append [] s = refl
cut_prefix-append (c ∷ p) s = ground (arith, cut_prefix-append p s)

pub has_prefix-append : (p s : Text) → has_prefix (p ++ s) p ≡ true
unfolding has_prefix
has_prefix-append p s = rw (cut_prefix-append p s, has_prefix)

pub member-append :
    (s : Text) (xs ys : List Text) → member s (xs ++ ys) ≡ (member s xs || member s ys)
unfolding member
member-append s [] ys = refl
member-append s (t ∷ xs) ys = ground (arith, member-append s xs ys)

apart : (s t : Text) (xs : List Text) → member s (t ∷ xs) ≡ false → member t (s ∷ []) ≡ false
unfolding member
apart s t xs e = ground (arith, same_iff s t, same_iff t s)

member_rest : (s t : Text) (xs : List Text) → member s (t ∷ xs) ≡ false → member s xs ≡ false
unfolding member
member_rest s t xs e = ground arith

pub IsNodup-snoc :
    (xs : List Text) (s : Text) → IsNodup xs → member s xs ≡ false → IsNodup (xs ++ s ∷ [])
IsNodup-snoc [] s h e = (unfold member in refl, tt)
IsNodup-snoc (t ∷ xs) s h e = (
  rw (member-append t xs (s ∷ []), h.0) (apart s t xs e),
  IsNodup-snoc xs s h.1 (member_rest s t xs e),
)

has_prefix-append_right : (s t p : Text) → has_prefix s p ≡ true → has_prefix (s ++ t) p ≡ true
unfolding has_prefix cut_prefix
has_prefix-append_right s t [] h = refl
has_prefix-append_right [] t (c ∷ p) h = cc
has_prefix-append_right (d ∷ s) t (c ∷ p) h = ground (arith, has_prefix-append_right s t p)

-- What a part of a text contains the text contains.
pub contains-append_left : (s t p : Text) → contains s p ≡ true → contains (s ++ t) p ≡ true
unfolding contains
contains-append_left [] [] p h = h
contains-append_left [] (d ∷ t) p h =
    let e = has_prefix-append_right [] (d ∷ t) p h in ground (arith, e)
contains-append_left (c ∷ s) t p h =
    ground (arith, has_prefix-append_right (c ∷ s) t p, contains-append_left s t p)

pub contains-append_right : (s t p : Text) → contains t p ≡ true → contains (s ++ t) p ≡ true
unfolding contains
contains-append_right [] t p h = h
contains-append_right (c ∷ s) t p h = ground (arith, contains-append_right s t p h)
