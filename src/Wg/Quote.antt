-- ===== src/Wg/Quote.antt =====
-- A quoted argument reaches the remote command as it is: how a POSIX shell reads a word.
use protean.Prelude.{
  ℕ, [], ◌∷◌, ◌++◌, Bool, true, false, ◌≡◌, refl, ap, sym, subst, ◌∙◌, Bool-cases, inl, inr, ==_iff,
  Option, none, some, ◌==◌, if◌then◌else◌, arith, append_assoc,
}
use protean.Strings.{Text, codes, replace_all}
use protean.Wg.{shell_quote}

-- outside quotes, inside single quotes, and behind a backslash
pub data Mode : Type 0 where
  outside quoted escaped : Mode

abbrev pub next : Mode → ℕ → Mode
next outside c = if c == b'\'' then quoted else if c == b'\\' then escaped else outside
next quoted c = if c == b'\'' then outside else quoted
next escaped c = outside

-- whether the character is one of the word
abbrev pub is_literal : Mode → ℕ → Bool
is_literal outside c = if c == b'\'' then false else if c == b'\\' then false else true
is_literal quoted c = if c == b'\'' then false else true
is_literal escaped c = true

-- a blank outside quotes ends the word
abbrev pub ends : Mode → ℕ → Bool
ends outside c = c == 0x20
ends quoted c = false
ends escaped c = false

abbrev pub put : Bool → ℕ → Option (Text × Text) → Option (Text × Text)
put literal c none = none
put literal c (some (word, rest)) = some ((if literal then c ∷ word else word), rest)

-- The first word of a text, and the rest; `none` where a quote is not closed.
pub read_word : Mode → Text → Option (Text × Text)
read_word outside [] = some ([], [])
read_word quoted [] = none
read_word escaped [] = none
read_word m (c ∷ s) =
    let more = put (is_literal m c) c (read_word (next m c) s) in
    if ends m c then some ([], c ∷ s) else more

-- a quote in the argument: out of the quotes, an escaped quote, and in again
put_quote :
    (o : Option (Text × Text))
    → put false b'\'' (put false b'\\' (put true b'\'' (put false b'\'' o))) ≡ put true b'\'' o
put_quote none = refl
put_quote (some (word, rest)) = refl

-- what `ShellQuote` writes for one character
abbrev shown : ℕ → Text
shown c = if c == b'\'' then codes "'\\''" else c ∷ []

-- inside the quotes, one character of the argument
read_character :
    (c : ℕ) (s : Text) → read_word quoted (shown c ++ s) ≡ put true c (read_word quoted s)
unfolding read_word
read_character c s = elim (Bool-cases (c == b'\'')) [
  | inl e ↦
      let q : c ≡ b'\'' = (==_iff c b'\'').0 e in
      subst (λ d. read_word quoted (shown d ++ s) ≡ put true d (read_word quoted s)) (sym q)
        (put_quote (read_word quoted s))
  | inr n ↦ ground arith
]

read_argument :
    (s rest : Text)
    → read_word quoted (replace_all s b'\'' (codes "'\\''") ++ (b'\'' ∷ 0x20 ∷ rest))
      ≡ some (s, 0x20 ∷ rest)
unfolding replace_all
read_argument [] rest = unfold read_word in refl
read_argument (c ∷ s) rest =
    let more = replace_all s b'\'' (codes "'\\''") in
    ap (read_word quoted) (append_assoc (shown c) more (b'\'' ∷ 0x20 ∷ rest))
    ∙ read_character c (more ++ (b'\'' ∷ 0x20 ∷ rest))
    ∙ ap (put true c) (read_argument s rest)

-- The shell reads a quoted text with a blank behind it as one word, the text itself, whatever
-- characters it holds.
pub read_word-shell_quote :
    (s rest : Text) → read_word outside (shell_quote s ++ (0x20 ∷ rest)) ≡ some (s, 0x20 ∷ rest)
unfolding shell_quote
read_word-shell_quote s rest =
    let body = replace_all s b'\'' (codes "'\\''") in
    opened (body ++ b'\'' ∷ []) rest
    ∙ ap (put false b'\'') (
        ap (read_word quoted) (append_assoc body (b'\'' ∷ []) (0x20 ∷ rest)) ∙ read_argument s rest)
  where
    opened :
        (t r : Text)
        → read_word outside ((b'\'' ∷ t) ++ (0x20 ∷ r))
          ≡ put false b'\'' (read_word quoted (t ++ (0x20 ∷ r)))
    opened t r = unfold read_word in refl
