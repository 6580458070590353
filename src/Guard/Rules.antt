-- ===== src/Guard/Rules.antt =====
-- The admin's address rules: deny wins, whatever the order.
use protean.Prelude.{
  List, [], ◌∷◌, Bool, false, ◌&&◌, ◌||◌, ◌≡◌, refl, arith, Option, none, some, if◌then◌else◌,
}
use protean.Strings.{Text}
use protean.Guard.{Rule, RuleKind, deny, allow, is_deny, rule_matches, match_ip_rules}

abbrev pub some_rule : (Rule → Bool) → List Rule → Bool
some_rule p [] = false
some_rule p (r ∷ rs) = p r || some_rule p rs

abbrev pub denies : Text → Rule → Bool
denies ip r = rule_matches ip r && is_deny r.kind

rules_found :
    (rs : List Rule) (ip : Text) (matched : Option RuleKind)
    → match_ip_rules rs ip matched ≡ (
        if some_rule (denies ip) rs
        then some deny
        else if some_rule (rule_matches ip) rs
        then some allow
        else matched)
unfolding match_ip_rules
rules_found [] ip matched = refl
rules_found (r ∷ rs) ip matched =
    ground (arith, rules_found rs ip (if rule_matches ip r then some allow else matched))

-- An address is denied if some deny rule matches it, in whatever order the rules stand, allowed if
-- only allow rules do, and left to the ban checks if no rule does.
pub match_ip_rules_lem :
    (rs : List Rule) (ip : Text)
    → match_ip_rules rs ip none ≡ (
        if some_rule (denies ip) rs
        then some deny
        else if some_rule (rule_matches ip) rs
        then some allow
        else none)
match_ip_rules_lem rs ip = rules_found rs ip none
