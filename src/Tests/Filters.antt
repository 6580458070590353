-- ===== src/Tests/Filters.antt =====
-- The firewall's rule set, at concrete inputs.
use mathlib.Core.List.{Permᴰ}
use protean.Prelude.{List, [], ◌∷◌, ◌++◌, true, ◌≡◌, ◌⊎◌, inl, inr, ◌↔◌, refl, All, map}
use protean.Strings.{Text, codes, split}
use protean.Firewall.{
  Port, FirewallRule, newline_code, baseline_line, render_rule, written, render_firewall, ssh,
  compute_baseline,
}
use protean.Firewall.Baseline.{AcceptsPort, first_lines, IsIn, IsSafe, render_firewall-IsSafe}
use protean.Firewall.Sorting.{IsOrdered}
use protean.Firewall.Lines.{IsPlainRule, split-render_firewall}
use protean.Firewall.Preview.{IsListening, IsPanel, compute_baseline_iff}

abbrev wireguard : Port
wireguard = record { proto = codes "udp"; number = 51820; label = codes "WireGuard (wg0)" }

abbrev ports : List Port
ports = ssh 22 ∷ wireguard ∷ []

abbrev rule : FirewallRule
rule = record {
  action = codes "accept";
  proto = codes "tcp";
  port_spec = codes "80,443";
  source_cidr = [];
  comment = codes "web";
}

plain_rule : IsPlainRule rule
plain_rule = record {
  action = refl;
  proto = refl;
  port_spec = refl;
  source_cidr = refl;
  comment = refl;
}

render-IsSafe_example :
    (before : List Text) × (line : Text) × (after : List Text) × (render_firewall
        (codes "drop")
        ports
        (rule ∷ [])
      ≡ written (before ++ line ∷ after))
    × AcceptsPort wireguard line
    × All (IsSafe (codes "drop") ports) before
render-IsSafe_example =
    render_firewall-IsSafe (codes "drop") ports (rule ∷ []) wireguard (inr (inl refl))

lines_example :
    (sorted_ports : List Port) × Permᴰ ports sorted_ports
    × IsOrdered sorted_ports
    × (split (render_firewall (codes "drop") ports (rule ∷ [])) newline_code
        ≡ first_lines (codes "drop")
          ++ (map baseline_line sorted_ports
              ++ (map render_rule (rule ∷ []) ++ codes "COMMIT" ∷ [] ∷ [])))
lines_example =
    split-render_firewall (codes "drop") ports (rule ∷ []) ((refl, refl), ((refl, refl), tt))
      (plain_rule, tt)

baseline_example : IsIn wireguard (compute_baseline 22 (wireguard ∷ []) true (443 ∷ [])) ↔ (
    (ssh 22 ≡ wireguard)
    ⊎ (IsListening wireguard (wireguard ∷ []) ⊎ ((true ≡ true) × IsPanel wireguard (443 ∷ []))))
baseline_example = compute_baseline_iff 22 (wireguard ∷ []) true (443 ∷ []) wireguard
