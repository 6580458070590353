-- ===== src/Conf/Lines.antt =====
-- A newline more at the end of a config file changes nothing that is read from it.
use protean.Prelude.{
  ℕ, List, [], ◌∷◌, ◌++◌, ◌≡◌, refl, ap, ◌∙◌, arith, Bool, true, false, if◌then◌else◌, ◌==◌,
}
use protean.Strings.{Text, split, add_to_first, trim_space, is_empty}
use protean.Conf.{Parser, newline, parse_line, parse_lines, flush, start_parser, parse_conf}

-- one more part, empty, behind a list of parts that is not empty
add_to_first-append :
    (c : ℕ) (ps : List Text) (q : Text) (qs : List Text)
    → ps ≡ q ∷ qs
    → add_to_first c (ps ++ [] ∷ []) ≡ add_to_first c ps ++ [] ∷ []
add_to_first-append c ps q qs e = rw e

split_cons : (s : Text) (sep : ℕ) → (q : Text) × (qs : List Text) × (split s sep ≡ q ∷ qs)
unfolding split
split_cons [] sep = ([], [], refl)
split_cons (c ∷ s) sep = pick (c == sep) (split_cons s sep)
  where
    pick :
        (b : Bool)
        → ((q : Text) × (qs : List Text) × (split s sep ≡ q ∷ qs))
        → (q : Text) × (qs : List Text) × ((if b
              then [] ∷ split s sep
              else add_to_first c (split s sep))
            ≡ q ∷ qs)
    pick true r = ([], split s sep, refl)
    pick false (q, qs, e) = (c ∷ q, qs, ap (add_to_first c) e)

split-newline : (s : Text) (sep : ℕ) → split (s ++ sep ∷ []) sep ≡ split s sep ++ [] ∷ []
unfolding split
split-newline [] sep = ground arith
split-newline (c ∷ s) sep = pick (c == sep) (split-newline s sep)
  where
    pick :
        (b : Bool)
        → split (s ++ sep ∷ []) sep ≡ split s sep ++ [] ∷ []
        → (if b then [] ∷ split (s ++ sep ∷ []) sep else add_to_first c (split (s ++ sep ∷ []) sep))
          ≡ (if b then [] ∷ split s sep else add_to_first c (split s sep)) ++ [] ∷ []
    pick true ih = ap (λ ps. [] ∷ ps) ih
    pick false ih =
        let (q, qs, e) = split_cons s sep in
        ap (add_to_first c) ih ∙ add_to_first-append c (split s sep) q qs e

blank_line : (p : Parser) → parse_line p (trim_space []) ≡ p
unfolding parse_line trim_space is_empty
blank_line p = refl

parse_lines-blank : (p : Parser) (ls : List Text) → parse_lines p (ls ++ [] ∷ []) ≡ parse_lines p ls
unfolding parse_lines
parse_lines-blank p [] = blank_line p
parse_lines-blank p (l ∷ ls) = parse_lines-blank (parse_line p (trim_space l)) ls

-- What `WriteFile` puts behind a text is not seen by `ParseConf`.
pub parse_conf-newline : (content : Text) → parse_conf (content ++ newline) ≡ parse_conf content
unfolding parse_conf
parse_conf-newline content =
    ap (λ ls. (flush (parse_lines start_parser ls)).conf) (split-newline content b'\n')
    ∙ ap (λ p. (flush p).conf) (parse_lines-blank start_parser (split content b'\n'))
