-- ===== src/Conf/OptionLines.antt =====
-- What `ParseConf` makes of the option lines that `Render` writes.
use protean.Prelude.{
  ℕ, List, [], ◌∷◌, ◌++◌, ◌≡◌, ◌≢◌, refl, sym, ap, ◌∙◌, arith, Bool, true, false, none, some, All,
  ◌==◌, append_assoc, append-nil, ap₂, All-append, Bool-cases, inl, inr, none-some, not, ◌&&◌, both,
}
use protean.Strings.{Text, codes, same, is_empty, trim_space, cut, cut_prefix, has_prefix, split}
use protean.Strings.Laws.{Lacks, cut-append, same_iff}
use protean.Strings.Lines.{split-append}
use protean.Strings.Trim.{
  Starts, Ends, append-Starts, append-Ends, trim_space-lem, trim_space-blank_left,
  trim_space-blank_right,
}
use protean.Conf.{Kv, ConfFile, Parser, parse_option, parse_line, parse_lines, newline, render_opts}

-- A key: without a newline or an equals sign, no blank at its ends, and no `#` in front.
abbrev pub IsKey : Text → Type 0
IsKey s = Starts s × Ends s × Lacks b'\n' s × Lacks b'=' s × (has_prefix s (codes "#") ≡ false)

-- A value: not empty, without a newline, and no blank at its ends.
abbrev pub IsValue : Text → Type 0
IsValue s = Starts s × Ends s × Lacks b'\n' s

-- A name: none, or without a line break and without a blank at its ends.
abbrev pub IsName : Text → Type 0
IsName [] = Unit
IsName (c ∷ s) = Starts (c ∷ s) × Ends (c ∷ s) × Lacks b'\n' (c ∷ s) × Lacks b'\r' (c ∷ s)

abbrev pub ArePlain : List Kv → Type 0
ArePlain = All (λ kv. IsKey kv.key × IsValue kv.value)

abbrev pub IsPlain : ConfFile → Type 0
IsPlain cf = ArePlain cf.interface_opts × All (λ p. IsName p.name × ArePlain p.opts) cf.peers

abbrev line_of : Text → Text → Text
line_of key value = key ++ (codes " = " ++ value)

-- parsing on from a state
abbrev pub parse_text : Parser → Text → Parser
parse_text p s = parse_lines p (split s b'\n')

pub parse_text-line :
    (p : Parser) (line rest : Text)
    → Lacks b'\n' line
    → parse_text p (line ++ b'\n' ∷ rest) ≡ parse_text (parse_line p (trim_space line)) rest
unfolding parse_lines
parse_text-line p line rest h = rw (split-append line rest b'\n' h)

cut-line_of :
    (key value : Text)
    → Lacks b'=' key
    → cut (line_of key value) b'=' ≡ some (key ++ b' ' ∷ [], b' ' ∷ value)
cut-line_of key value h =
    ap (λ s. cut s b'=') (sym (append_assoc key (b' ' ∷ []) (b'=' ∷ b' ' ∷ value)))
    ∙ cut-append (key ++ b' ' ∷ []) (b' ' ∷ value) b'='
        (All-append (λ c. c ≢ b'=') key (b' ' ∷ []) h ((λ e. omega (arith, e)), tt))

-- a line that the parser takes for an option
parse_line-cut :
    (p : Parser) (line key value : Text)
    → is_empty line ≡ false
    → has_prefix line (codes "#") ≡ false
    → same line (codes "[Interface]") ≡ false
    → same line (codes "[Peer]") ≡ false
    → cut line b'=' ≡ some (key, value)
    → parse_line p line
      ≡ record p { opts = p.opts ++ record { key = trim_space key; value = trim_space value } ∷ [] }
unfolding parse_line parse_option
parse_line-cut p line key value e h i j c = rw e (rw h (rw i (rw j (rw c refl))))

-- no header holds an equals sign
same-header :
    (line header : Text) (parts : Text × Text)
    → cut line b'=' ≡ some parts
    → cut header b'=' ≡ none
    → same line header ≡ false
same-header line header parts c n = elim (Bool-cases (same line header)) [
  | inl e ↦ absurd (none-some (sym n ∙ ap (λ s. cut s b'=') (sym ((same_iff line header).0 e)) ∙ c))
  | inr e ↦ e
]

is_empty-append : (s t : Text) → Starts s → is_empty (s ++ t) ≡ false
unfolding is_empty
is_empty-append [] t h = absurd h
is_empty-append (c ∷ s) t h = refl

has_prefix-append_hash :
    (s t : Text)
    → Starts s
    → has_prefix s (codes "#") ≡ false
    → has_prefix (s ++ t) (codes "#") ≡ false
unfolding has_prefix cut_prefix
has_prefix-append_hash [] t h e = absurd h
has_prefix-append_hash (c ∷ s) t h e = ground (arith, e)

no_equals_interface : cut (codes "[Interface]") b'=' ≡ none
unfolding cut
no_equals_interface = refl

no_equals_peer : cut (codes "[Peer]") b'=' ≡ none
unfolding cut
no_equals_peer = refl

abbrev with_option : Parser → Kv → Parser
with_option p kv = record p { opts = p.opts ++ kv ∷ [] }

parse_line-option :
    (p : Parser) (kv : Kv)
    → IsKey kv.key
    → IsValue kv.value
    → parse_line p (trim_space (line_of kv.key kv.value)) ≡ with_option p kv
parse_line-option p kv (starts, ends, _, lacks, no_hash) (v_starts, v_ends, _) =
    let c : cut (line_of kv.key kv.value) b'=' ≡ some (kv.key ++ b' ' ∷ [], b' ' ∷ kv.value) =
      cut-line_of kv.key kv.value lacks in
    ap (parse_line p) (
      trim_space-lem (line_of kv.key kv.value)
        (append-Starts kv.key (codes " = " ++ kv.value) starts)
        (append-Ends kv.key (codes " = " ++ kv.value) (append-Ends (codes " = ") kv.value v_ends)))
    ∙ parse_line-cut p (line_of kv.key kv.value) (kv.key ++ b' ' ∷ []) (b' ' ∷ kv.value)
        (is_empty-append kv.key (codes " = " ++ kv.value) starts)
        (has_prefix-append_hash kv.key (codes " = " ++ kv.value) starts no_hash)
        (same-header (line_of kv.key kv.value) (codes "[Interface]") _ c no_equals_interface)
        (same-header (line_of kv.key kv.value) (codes "[Peer]") _ c no_equals_peer) c
    ∙ ap₂ (λ k v. with_option p (record { key = k; value = v }))
        (trim_space-blank_right kv.key starts ends)
        (trim_space-blank_left kv.value ∙ trim_space-lem kv.value v_starts v_ends)

-- whether a text lacks a character, computed
abbrev lacks : ℕ → Text → Bool
lacks c [] = true
lacks c (d ∷ s) = not (d == c) && lacks c s

pub lacks-Lacks : (c : ℕ) (s : Text) → lacks c s ≡ true → Lacks c s
lacks-Lacks c [] h = tt
lacks-Lacks c (d ∷ s) h = ((λ e. ground (arith, e)), lacks-Lacks c s (both h).1)

blanks : Lacks b'\n' (codes " = ")
blanks = lacks-Lacks b'\n' (codes " = ") refl

regroup :
    (k v r rest : Text)
    → (k ++ (codes " = " ++ (v ++ (newline ++ r)))) ++ rest ≡ line_of k v ++ b'\n' ∷ (r ++ rest)
regroup k v r rest =
    append_assoc k (codes " = " ++ (v ++ (newline ++ r))) rest
    ∙ ap (λ t. k ++ (codes " = " ++ t)) (append_assoc v (newline ++ r) rest)
    ∙ sym (append_assoc k (codes " = " ++ v) (b'\n' ∷ (r ++ rest)))

abbrev with_options : Parser → List Kv → Parser
with_options p kvs = record p { opts = p.opts ++ kvs }

pub parse_text-render_opts :
    (kvs : List Kv) (p : Parser) (rest : Text)
    → ArePlain kvs
    → parse_text p (render_opts kvs ++ rest) ≡ parse_text (with_options p kvs) rest
unfolding render_opts
parse_text-render_opts [] p rest h =
    ap (λ os. parse_text (record p { opts = os }) rest) (sym (append-nil p.opts))
parse_text-render_opts (kv ∷ kvs) p rest h =
    let line : Text = line_of kv.key kv.value in
    ap (parse_text p) (regroup kv.key kv.value (render_opts kvs) rest)
    ∙ parse_text-line p line (render_opts kvs ++ rest) (
        All-append (λ c. c ≢ b'\n') kv.key (codes " = " ++ kv.value) h.0.0.2
          (All-append (λ c. c ≢ b'\n') (codes " = ") kv.value blanks h.0.1.2))
    ∙ ap (λ q. parse_text q (render_opts kvs ++ rest)) (parse_line-option p kv h.0.0 h.0.1)
    ∙ parse_text-render_opts kvs (with_option p kv) rest h.1
    ∙ ap (λ os. parse_text (record p { opts = os }) rest) (append_assoc p.opts (kv ∷ []) kvs)
