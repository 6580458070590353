-- ===== src/Firewall.antt =====
-- internal/firewall/render.go and internal/firewall/baseline.go: the rule set of a server's INPUT
-- chain. A port is a natural number, where one below 0 counts as 0.
pub mod Baseline
pub mod Lines
pub mod Preview
pub mod Sorting
use protean.Prelude.{
  ℕ, ◌-◌, List, [], ◌∷◌, ◌++◌, map, Bool, true, false, not, ◌&&◌, ◌||◌, ltb, leb, ◌==◌,
  if◌then◌else◌,
}
use protean.Strings.{
  Text, codes, same, is_empty, contains, trim_space, split, join, replace_all, member,
}
use protean.Strings.Decimal.{itoa}
use protean.Conf.Options.{equal_fold}

-- BaselinePort and InstancePort
pub record Port : Type 0 where
  pub proto : Text
  pub number : ℕ
  pub label : Text

pub record FirewallRule : Type 0 where
  pub action : Text
  pub proto : Text
  pub port_spec : Text
  pub source_cidr : Text
  pub comment : Text

abbrev pub newline_code : ℕ
newline_code = b'\n'

-- escapeComment
unfoldable pub escape_comment : Text → Text
escape_comment s = replace_all s b'"' []

-- `a < b` on strings
unfoldable pub less : Text → Text → Bool
less [] [] = false
less [] (d ∷ t) = true
less (c ∷ s) [] = false
less (c ∷ s) (d ∷ t) = if c == d then less s t else ltb c d

-- the order that `Render` sorts by
unfoldable pub comes_before : Port → Port → Bool
unfolding less
comes_before a b =
    if not (same a.proto b.proto) then less a.proto b.proto else ltb a.number b.number

-- `sort.Slice` as an insertion sort; among ports that come in neither order Go leaves the order open.
unfoldable pub insert : Port → List Port → List Port
insert a [] = a ∷ []
insert a (b ∷ bs) = let rest = insert a bs in if comes_before b a then b ∷ rest else a ∷ b ∷ bs

unfoldable pub sorted : List Port → List Port
unfolding insert
sorted [] = []
sorted (a ∷ as') = insert a (sorted as')

-- the line of a baseline port
unfoldable pub baseline_line : Port → Text
unfolding escape_comment
baseline_line bp =
    codes "-A INPUT -p "
    ++ (bp.proto
        ++ (codes " --dport "
            ++ (itoa bp.number
                ++ (codes " -j ACCEPT -m comment --comment \"protean-fw-baseline: "
                    ++ (escape_comment bp.label ++ codes "\"")))))

-- `strings.ToUpper` of an ASCII letter
unfoldable pub upper : ℕ → ℕ
upper c = if leb b'a' c && leb c b'z' then c - 32 else c

unfoldable pub proto_parts : Text → List Text
proto_parts proto =
    if not (is_empty proto) && not (same proto (codes "any")) then codes "-p" ∷ proto ∷ [] else []

unfoldable pub port_parts : Text → List Text
port_parts spec =
    if is_empty spec
    then []
    else if contains spec (codes ",")
    then codes "-m" ∷ codes "multiport" ∷ codes "--dports" ∷ spec ∷ []
    else codes "--dport" ∷ spec ∷ []

unfoldable pub source_parts : Text → List Text
source_parts cidr = if is_empty cidr then [] else codes "-s" ∷ cidr ∷ []

unfoldable pub comment_text : Text → Text
unfolding escape_comment
comment_text comment =
    if is_empty comment then codes "protean-fw" else codes "protean-fw: " ++ escape_comment comment

-- renderRule
unfoldable pub render_rule : FirewallRule → Text
unfolding proto_parts port_parts source_parts comment_text upper
render_rule r =
    join
      ((codes "-A INPUT" ∷ [])
        ++ (proto_parts r.proto
            ++ (port_parts r.port_spec
                ++ (source_parts r.source_cidr
                    ++ (codes "-j"
                        ∷ map upper r.action
                        ∷ codes "-m"
                        ∷ codes "comment"
                        ∷ codes "--comment"
                        ∷ (b'"' ∷ comment_text r.comment ++ b'"' ∷ [])
                        ∷ [])))))
      (codes " ")

-- the lines in front of the baseline, for the policy's `DefaultIncoming`
unfoldable pub header : Text → List Text
header default_incoming =
    codes "*filter"
    ∷ (codes ":INPUT "
        ++ (if equal_fold default_incoming (codes "accept") then codes "ACCEPT" else codes "DROP")
        ++ codes " [0:0]")
    ∷ codes ":FORWARD ACCEPT [0:0]"
    ∷ codes ":OUTPUT ACCEPT [0:0]"
    ∷ codes "-A INPUT -i lo -j ACCEPT"
    ∷ codes "-A INPUT -m state --state ESTABLISHED,RELATED -j ACCEPT"
    ∷ []

-- the lines that `Render` writes, in their order
unfoldable pub rendered_lines : Text → List Port → List FirewallRule → List Text
unfolding header sorted baseline_line render_rule
rendered_lines default_incoming baseline rules =
    header default_incoming
    ++ (map baseline_line (sorted baseline) ++ (map render_rule rules ++ codes "COMMIT" ∷ []))

-- `w`: each line with its newline
unfoldable pub written : List Text → Text
written [] = []
written (l ∷ ls) = l ++ newline_code ∷ written ls

-- Render
unfoldable pub render_firewall : Text → List Port → List FirewallRule → Text
unfolding rendered_lines written
render_firewall default_incoming baseline rules =
    written (rendered_lines default_incoming baseline rules)

-- splitNonEmpty
unfoldable pub non_blank : List Text → List Text
non_blank [] = []
non_blank (l ∷ ls) = if is_empty (trim_space l) then non_blank ls else l ∷ non_blank ls

unfoldable pub split_non_empty : Text → List Text
unfolding non_blank
split_non_empty text = non_blank (split text newline_code)

-- the lines of one list that are not in the other
unfoldable pub lines_outside : List Text → List Text → List Text
lines_outside [] set = []
lines_outside (l ∷ ls) set = if member l set then lines_outside ls set else l ∷ lines_outside ls set

-- Diff: the lines added and those removed
unfoldable pub diff : Text → Text → List Text × List Text
unfolding lines_outside split_non_empty
diff current proposed = (
  lines_outside (split_non_empty proposed) (split_non_empty current),
  lines_outside (split_non_empty current) (split_non_empty proposed),
)

-- the loop of `ComputeBaseline` over the instances
unfoldable pub instance_ports : List Port → List Port
instance_ports [] = []
instance_ports (p ∷ ps) = if p.number == 0 then instance_ports ps else p ∷ instance_ports ps

abbrev pub panel_port : ℕ → Port
panel_port n = record { proto = codes "tcp"; number = n; label = codes "Panel (web)" }

-- its loop over the ports of the panel
unfoldable pub panel_ports : List ℕ → List Port
panel_ports [] = []
panel_ports (n ∷ ns) = if n == 0 then panel_ports ns else panel_port n ∷ panel_ports ns

abbrev pub ssh : ℕ → Port
ssh n = record { proto = codes "tcp"; number = n; label = codes "SSH" }

-- ComputeBaseline
unfoldable pub compute_baseline : ℕ → List Port → Bool → List ℕ → List Port
unfolding instance_ports panel_ports
compute_baseline ssh_port instances panel_host ports =
    ssh ssh_port ∷ (instance_ports instances ++ (if panel_host then panel_ports ports else []))
