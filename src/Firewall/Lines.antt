-- ===== src/Firewall/Lines.antt =====
-- The rule set as lines: when `Render` writes one line for each rule.
use mathlib.Core.List.{Permᴰ}
use protean.Prelude.{
  ℕ, List, [], ◌∷◌, ◌++◌, map, Bool, true, false, not, ◌&&◌, ◌≡◌, refl, ap, ap₂, ◌∙◌, arith,
  append_assoc, if◌then◌else◌, ◌==◌, All, All-append,
}
use protean.Strings.{Text, codes, split, join, replace_all, is_empty, same, contains}
use protean.Strings.Decimal.{itoa, itoa-All}
use protean.Conf.Options.{equal_fold}
use protean.Firewall.{
  Port, FirewallRule, newline_code, escape_comment, sorted, baseline_line, upper, proto_parts,
  port_parts, source_parts, comment_text, render_rule, header, rendered_lines, written,
  render_firewall,
}
use protean.Firewall.Sorting.{IsOrdered, sorted-IsOrdered, sorted-Permᴰ}
use protean.Firewall.Baseline.{sorted-All, first_lines, header-first_lines}

-- whether a text holds no newline
abbrev pub is_line : Text → Bool
is_line [] = true
is_line (c ∷ s) = not (c == newline_code) && is_line s

abbrev pub IsLine : Text → Type 0
IsLine t = is_line t ≡ true

IsLine-append : (s t : Text) → IsLine s → IsLine t → IsLine (s ++ t)
IsLine-append [] t h k = k
IsLine-append (c ∷ s) t h k = ground (arith, IsLine-append s t)

split-line :
    (s rest : Text)
    → IsLine s
    → split (s ++ newline_code ∷ rest) newline_code ≡ s ∷ split rest newline_code
unfolding split
split-line [] rest h = refl
split-line (c ∷ s) rest h = ground (arith, split-line s rest)

split-written : (ls : List Text) → All IsLine ls → split (written ls) newline_code ≡ ls ++ [] ∷ []
unfolding written
split-written [] h = unfold split in refl
split-written (l ∷ ls) h = split-line l (written ls) h.0 ∙ ap (λ ks. l ∷ ks) (split-written ls h.1)

IsLine-escape_comment : (s : Text) → IsLine s → IsLine (escape_comment s)
unfolding escape_comment replace_all
IsLine-escape_comment [] h = refl
IsLine-escape_comment (c ∷ s) h = ground (arith, IsLine-escape_comment s)

IsLine-upper : (s : Text) → IsLine s → IsLine (map upper s)
unfolding upper
IsLine-upper [] h = refl
IsLine-upper (c ∷ s) h = ground (arith, IsLine-upper s)

IsLine-join : (ls : List Text) → All IsLine ls → IsLine (join ls (codes " "))
unfolding join
IsLine-join [] h = refl
IsLine-join (l ∷ []) h = h.0
IsLine-join (l ∷ k ∷ ls) h =
    IsLine-append l (codes " " ++ join (k ∷ ls) (codes " ")) h.0 (IsLine-join (k ∷ ls) h.1)

All-code : (s : Text) → All (λ c. (c == newline_code) ≡ false) s → IsLine s
All-code [] h = refl
All-code (c ∷ s) h = let rest = All-code s h.1 in ground (arith, h.0)

IsLine-itoa : (n : ℕ) → IsLine (itoa n)
IsLine-itoa n =
    All-code (itoa n) (itoa-All (λ c. (c == newline_code) ≡ false) (λ d h. ground arith) n)

-- The texts of a port, and of a rule, hold no newline.
abbrev pub IsPlainPort : Port → Type 0
IsPlainPort p = IsLine p.proto × IsLine p.label

pub record IsPlainRule (r : FirewallRule) : Type 0 where
  pub action : IsLine r.action
  pub proto : IsLine r.proto
  pub port_spec : IsLine r.port_spec
  pub source_cidr : IsLine r.source_cidr
  pub comment : IsLine r.comment

IsLine-baseline_line : (p : Port) → IsPlainPort p → IsLine (baseline_line p)
IsLine-baseline_line p h =
    let label =
      IsLine-append (escape_comment p.label) (codes "\"") (IsLine-escape_comment p.label h.1)
        refl in
    unfold baseline_line in
    IsLine-append p.proto _ h.0 (IsLine-append (itoa p.number) _ (IsLine-itoa p.number) label)

All-baseline_line : (ps : List Port) → All IsPlainPort ps → All IsLine (map baseline_line ps)
All-baseline_line [] h = tt
All-baseline_line (p ∷ ps) h = (IsLine-baseline_line p h.0, All-baseline_line ps h.1)

IsLine-comment : (s : Text) → IsLine s → IsLine (b'"' ∷ comment_text s ++ b'"' ∷ [])
IsLine-comment s h = unfold comment_text in pick (is_empty s) (IsLine-escape_comment s h)
  where
    pick :
        (b : Bool)
        → IsLine (escape_comment s)
        → IsLine (
            b'"' ∷ (if b then codes "protean-fw" else codes "protean-fw: " ++ escape_comment s)
            ++ b'"' ∷ [])
    pick true k = refl
    pick false k = IsLine-append (escape_comment s) (b'"' ∷ []) k refl

All-proto_parts : (s : Text) → IsLine s → All IsLine (proto_parts s)
unfolding proto_parts
All-proto_parts s h = pick (not (is_empty s) && not (same s (codes "any")))
  where
    pick : (b : Bool) → All IsLine (if b then codes "-p" ∷ s ∷ [] else [])
    pick true = (refl, (h, tt))
    pick false = tt

All-port_parts : (s : Text) → IsLine s → All IsLine (port_parts s)
unfolding port_parts
All-port_parts s h = pick (is_empty s) (contains s (codes ","))
  where
    pick :
        (a b : Bool)
        → All IsLine (
            if a
            then []
            else if b
            then codes "-m" ∷ codes "multiport" ∷ codes "--dports" ∷ s ∷ []
            else codes "--dport" ∷ s ∷ [])
    pick true b = tt
    pick false true = (refl, (refl, (refl, (h, tt))))
    pick false false = (refl, (h, tt))

All-source_parts : (s : Text) → IsLine s → All IsLine (source_parts s)
unfolding source_parts
All-source_parts s h = pick (is_empty s)
  where
    pick : (b : Bool) → All IsLine (if b then [] else codes "-s" ∷ s ∷ [])
    pick true = tt
    pick false = (refl, (h, tt))

IsLine-render_rule : (r : FirewallRule) → IsPlainRule r → IsLine (render_rule r)
unfolding render_rule
IsLine-render_rule r h = IsLine-join _ (
  refl,
  All-append IsLine (proto_parts r.proto) _ (All-proto_parts r.proto h.proto) (
      All-append IsLine (port_parts r.port_spec) _ (All-port_parts r.port_spec h.port_spec) (
        All-append IsLine (source_parts r.source_cidr) _
          (All-source_parts r.source_cidr h.source_cidr)
          (
            refl,
            (
              IsLine-upper r.action h.action,
              (refl, (refl, (refl, (IsLine-comment r.comment h.comment, tt)))),
            ),
          ))),
)

All-render_rule : (rs : List FirewallRule) → All IsPlainRule rs → All IsLine (map render_rule rs)
All-render_rule [] h = tt
All-render_rule (r ∷ rs) h = (IsLine-render_rule r h.0, All-render_rule rs h.1)

IsLine-policy :
    (b : Bool)
    → IsLine (codes ":INPUT " ++ (if b then codes "ACCEPT" else codes "DROP") ++ codes " [0:0]")
IsLine-policy true = refl
IsLine-policy false = refl

All-header : (d : Text) → All IsLine (header d)
unfolding header
All-header d =
    (refl, (IsLine-policy (equal_fold d (codes "accept")), (refl, (refl, (refl, (refl, tt))))))

-- Where no text of a port or a rule holds a newline, the rule set read line by line is: the first
-- lines, one line for each baseline port, by protocol and in each protocol by number, one line for
-- each rule in the order given, `COMMIT`, and nothing behind its newline.
pub split-render_firewall :
    (d : Text) (ps : List Port) (rules : List FirewallRule)
    → All IsPlainPort ps
    → All IsPlainRule rules
    → (ports : List Port) × Permᴰ ps ports
      × IsOrdered ports
      × (split (render_firewall d ps rules) newline_code
          ≡ first_lines d
            ++ (map baseline_line ports ++ (map render_rule rules ++ codes "COMMIT" ∷ [] ∷ [])))
split-render_firewall d ps rules hp hr = (
  sorted ps,
  sorted-Permᴰ ps,
  sorted-IsOrdered ps,
  unfold render_firewall in split-written (rendered_lines d ps rules) lines ∙ in_blocks,
)
  where
    lines : All IsLine (rendered_lines d ps rules)
    lines =
        unfold rendered_lines in
        All-append IsLine (header d) _ (All-header d) (
          All-append IsLine (map baseline_line (sorted ps)) _
            (All-baseline_line (sorted ps) (sorted-All IsPlainPort ps hp))
            (All-append IsLine (map render_rule rules) (codes "COMMIT" ∷ [])
              (All-render_rule rules hr) (refl, tt)))

    in_blocks :
        rendered_lines d ps rules ++ [] ∷ []
        ≡ first_lines d
          ++ (map baseline_line (sorted ps) ++ (map render_rule rules ++ codes "COMMIT" ∷ [] ∷ []))
    in_blocks =
        unfold rendered_lines in
        append_assoc (header d)
          (map baseline_line (sorted ps) ++ (map render_rule rules ++ codes "COMMIT" ∷ []))
          ([] ∷ [])
        ∙ ap₂ (λ first ls. first ++ ls) (header-first_lines d)
            (append_assoc (map baseline_line (sorted ps))
                (map render_rule rules ++ codes "COMMIT" ∷ []) ([] ∷ [])
              ∙ ap (λ ls. map baseline_line (sorted ps) ++ ls)
                  (append_assoc (map render_rule rules) (codes "COMMIT" ∷ []) ([] ∷ [])))
