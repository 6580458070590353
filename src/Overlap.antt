-- ===== src/Overlap.antt =====
-- internal/vpn/overlap.go: the refusal of networks that share addresses.
pub mod Laws
use native.Mathlib.Nat.{div-div-eq-div-mul, pow-le-pow_right}
use protean.Prelude.{
  ℕ, ◌+◌, ◌-◌, ◌*◌, ◌/◌, ◌%◌, ◌^◌, ◌≤◌, ◌<◌, ◌≡◌, ◌↔◌, ◌⊎◌, inl, inr, refl, sym, ap, ◌∙◌, List, [],
  ◌∷◌, Bool, true, false, ◌||◌, not, Option, none, some, arith, ◌==◌, if◌then◌else◌, length,
  Bool-cases, both, All, Any, ==_iff,
}
use protean.Strings.{Text}
use protean.Net.{Ip, IpNet, value, short, block, contains}
use protean.Net.Parse.{parse_cidr}
use protean.Ipam.Step.{contains-lem, block_pos}

-- CIDROverlap
unfoldable pub cidr_overlap : IpNet → IpNet → Bool
cidr_overlap a b = contains a b.ip || contains b a.ip

-- CheckNoOverlap: `nil`, or one of its two errors, the second with the entry that overlaps
pub data Check : Type 0 where
  clear : Check
  invalid : Check
  overlaps : Text → Check

-- one round of the loop over the existing entries: a malformed one is passed over
unfoldable pub check_entry : IpNet → Text → Option (Ip × IpNet) → Check → Check
check_entry candidate e none rest = rest
check_entry candidate e (some (ip, net)) rest =
    if cidr_overlap candidate net then overlaps e else rest

unfoldable pub check_entries : IpNet → List Text → Check
unfolding check_entry
check_entries candidate [] = clear
check_entries candidate (e ∷ es) =
    check_entry candidate e (parse_cidr e) (check_entries candidate es)

unfoldable pub check_no_overlap : Text → List Text → Check
unfolding check_entries
check_no_overlap candidate existing = elim (parse_cidr candidate) [
  | none ↦ invalid
  | some (ip, net) ↦ check_entries net existing
]
