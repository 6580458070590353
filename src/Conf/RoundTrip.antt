-- ===== src/Conf/RoundTrip.antt =====
-- What `Render` writes, `ParseConf` reads back.
use protean.Prelude.{
  ℕ, List, [], ◌∷◌, ◌++◌, ◌≡◌, ◌≢◌, refl, sym, ap, ◌∙◌, All, ◌==◌, ==_iff, append_assoc, append-nil,
  All-append, Bool-cases, inl, inr,
}
use protean.Strings.{
  Text, codes, is_space, same, is_empty, trim_space, cut_prefix, has_prefix, split, replace_all,
}
use protean.Strings.Laws.{Lacks}
use protean.Strings.Trim.{Starts, Ends, append-Ends, trim_space-lem, trim_space-blank_left}
use protean.Conf.{
  Kv, ConfPeer, ConfFile, Parser, interface, peer, flushed, flush, parse_comment, parse_line,
  parse_lines, start_parser, parse_conf, newline, render_opts, safe_name, render_name, render_peers,
  render,
}
use protean.Conf.OptionLines.{
  IsName, ArePlain, IsPlain, parse_text, parse_text-line, lacks-Lacks, parse_text-render_opts,
}

replace_all-Lacks : (s : Text) (c : ℕ) (new : Text) → Lacks c s → replace_all s c new ≡ s
unfolding replace_all
replace_all-Lacks [] c new h = refl
replace_all-Lacks (d ∷ s) c new h = elim (Bool-cases (d == c)) [
  | inl e ↦ absurd (h.0 ((==_iff d c).0 e))
  | inr e ↦ rw e (ap (λ t. d ∷ t) (replace_all-Lacks s c new h.1))
]

safe_name-lem : (name : Text) → Lacks b'\n' name → Lacks b'\r' name → safe_name name ≡ name
unfolding safe_name
safe_name-lem name h k =
    ap (λ s. replace_all s b'\r' (codes " ")) (replace_all-Lacks name b'\n' (codes " ") h)
    ∙ replace_all-Lacks name b'\r' (codes " ") k

parse_line-comment :
    (p : Parser) (name : Text)
    → parse_line p (codes "# Name: " ++ name) ≡ record p { next_name = trim_space (b' ' ∷ name) }
unfolding parse_line parse_comment is_empty has_prefix cut_prefix
parse_line-comment p name = refl

parse_line-name :
    (p : Parser) (name : Text)
    → Starts name
    → Ends name
    → parse_line p (trim_space (codes "# Name: " ++ name)) ≡ record p { next_name = name }
parse_line-name p name starts ends =
    ap (parse_line p) (
      trim_space-lem (codes "# Name: " ++ name) (unfold is_space in refl)
        (append-Ends (codes "# Name: ") name ends))
    ∙ parse_line-comment p name
    ∙ ap (λ n. record p { next_name = n })
        (trim_space-blank_left name ∙ trim_space-lem name starts ends)

abbrev named : Parser → Text → Parser
named p name = record p { next_name = name }

parse_text-render_name :
    (name : Text) (p : Parser) (rest : Text)
    → p.next_name ≡ []
    → IsName name
    → parse_text p (render_name name ++ rest) ≡ parse_text (named p name) rest
unfolding render_name is_empty
parse_text-render_name [] p rest e h = ap (λ n. parse_text (named p n) rest) e
parse_text-render_name (c ∷ s) p rest e (starts, ends, no_newline, no_return) =
    ap (λ n. parse_text p ((codes "# Name: " ++ (n ++ newline)) ++ rest))
      (safe_name-lem (c ∷ s) no_newline no_return)
    ∙ ap (parse_text p) (
        append_assoc (codes "# Name: ") ((c ∷ s) ++ newline) rest
        ∙ ap (λ t. codes "# Name: " ++ t) (append_assoc (c ∷ s) newline rest)
        ∙ sym (append_assoc (codes "# Name: ") (c ∷ s) (b'\n' ∷ rest)))
    ∙ parse_text-line p (codes "# Name: " ++ (c ∷ s)) rest (
        All-append (λ d. d ≢ b'\n') (codes "# Name: ") (c ∷ s)
          (lacks-Lacks b'\n' (codes "# Name: ") refl) no_newline)
    ∙ ap (λ q. parse_text q rest) (parse_line-name p (c ∷ s) starts ends)

-- the state in a peer's section, behind its options
abbrev in_peer : Parser → ConfPeer → Parser
in_peer p q = record (flush p) { section = peer; opts = q.opts; name = q.name; next_name = [] }

blank_line : (p : Parser) → parse_line p (trim_space []) ≡ p
unfolding parse_line trim_space is_empty
blank_line p = refl

parse_line-peer :
    (p : Parser) (name : Text)
    → parse_line (named p name) (trim_space (codes "[Peer]"))
      ≡ record (flush p) { section = peer; name = name; next_name = [] }
unfolding parse_line trim_space is_empty has_prefix cut_prefix same flush
parse_line-peer p name = refl

peer-Lacks : Lacks b'\n' (codes "[Peer]")
peer-Lacks = lacks-Lacks b'\n' (codes "[Peer]") refl

parse_text-peer :
    (p : Parser) (q : ConfPeer) (rest : Text)
    → p.next_name ≡ []
    → IsName q.name
    → ArePlain q.opts
    → parse_text p
        (newline ++ (render_name q.name ++ (codes "[Peer]\n" ++ (render_opts q.opts ++ rest))))
      ≡ parse_text (in_peer p q) rest
unfolding flush
parse_text-peer p q rest e n h =
    parse_text-line p [] (render_name q.name ++ (codes "[Peer]\n" ++ (render_opts q.opts ++ rest)))
      tt
    ∙ ap
        (λ z.
          parse_text z (render_name q.name ++ (codes "[Peer]\n" ++ (render_opts q.opts ++ rest))))
        (blank_line p)
    ∙ parse_text-render_name q.name p (codes "[Peer]\n" ++ (render_opts q.opts ++ rest)) e n
    ∙ parse_text-line (named p q.name) (codes "[Peer]") (render_opts q.opts ++ rest) peer-Lacks
    ∙ ap (λ z. parse_text z (render_opts q.opts ++ rest)) (parse_line-peer p q.name)
    ∙ parse_text-render_opts q.opts
        (record (flush p) { section = peer; name = q.name; next_name = [] }) rest h

no_text : (p : Parser) → parse_text p [] ≡ p
unfolding parse_lines split
no_text p = blank_line p

parse_text-render_peers :
    (qs : List ConfPeer) (p : Parser)
    → p.next_name ≡ []
    → All (λ q. IsName q.name × ArePlain q.opts) qs
    → (flush (parse_text p (render_peers qs))).conf
      ≡ record ((flush p).conf) { peers = (flush p).conf.peers ++ qs }
unfolding render_peers
parse_text-render_peers [] p e h =
    ap (λ z. (flush z).conf) (no_text p)
    ∙ ap (λ ps. record ((flush p).conf) { peers = ps }) (sym (append-nil (flush p).conf.peers))
parse_text-render_peers (q ∷ qs) p e h =
    ap (λ z. (flush z).conf) (parse_text-peer p q (render_peers qs) e h.0.0 h.0.1)
    ∙ parse_text-render_peers qs (in_peer p q) refl h.1
    ∙ (unfold flush flushed in
        ap (λ ps. record ((flush p).conf) { peers = ps })
          (append_assoc (flush p).conf.peers (q ∷ []) qs))

-- the state behind the options of the interface
abbrev in_interface : List Kv → Parser
in_interface opts = record start_parser { section = interface; opts = opts }

parse_line-interface : parse_line start_parser (trim_space (codes "[Interface]")) ≡ in_interface []
unfolding parse_line trim_space is_empty has_prefix cut_prefix same flush
parse_line-interface = refl

-- A config whose keys hold neither a line break nor an equals sign and do not begin with `#`, whose
-- values are not empty and hold no line break, whose names hold no line break, and where none of them
-- begins or ends with a blank, is read back as it was from the text that it is written as.
pub parse_conf-render : (cf : ConfFile) → IsPlain cf → parse_conf (render cf) ≡ cf
unfolding parse_conf render
parse_conf-render cf h =
    ap (λ z. (flush z).conf)
      (parse_text-line start_parser (codes "[Interface]")
          (render_opts cf.interface_opts ++ render_peers cf.peers)
          (lacks-Lacks b'\n' (codes "[Interface]") refl)
        ∙ ap (λ z. parse_text z (render_opts cf.interface_opts ++ render_peers cf.peers))
            parse_line-interface
        ∙ parse_text-render_opts cf.interface_opts (in_interface []) (render_peers cf.peers) h.0)
    ∙ parse_text-render_peers cf.peers (in_interface cf.interface_opts) refl h.1
    ∙ (unfold flush flushed in refl)
