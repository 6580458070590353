-- ===== src/Conf/Managed/Rules.antt =====
-- The rules that `SetManagedNetworking` writes are managed rules, and masquerade with egress.
use protean.Prelude.{
  List, [], ◌∷◌, ◌++◌, map, Bool, true, false, ◌||◌, ◌≡◌, refl, arith, if◌then◌else◌, All,
}
use protean.Strings.{Text, codes, same, contains, has_prefix}
use protean.Strings.Laws.{contains-append_right, contains-append_left}
use protean.Conf.{Kv}
use protean.Conf.Managed.{
  Backend, iptables, nft, up, down, masquerade, is_managed_rule, is_managed_nat, to_lower, any,
  with_egress, iptables_rules, managed_rules,
}

abbrev pub AllManaged : List Kv → Type 0
AllManaged = All (λ kv. is_managed_rule kv ≡ true)

-- What the mapped end of a text contains the mapped text contains.
contains-map :
    (s t p : Text) → contains (map to_lower t) p ≡ true → contains (map to_lower (s ++ t)) p ≡ true
unfolding contains
contains-map [] t p h = h
contains-map (c ∷ s) t p h = ground (arith, contains-map s t p h)

abbrev masquerade_end : Text
masquerade_end = codes " -j MASQUERADE -m comment --comment protean-nat"

end_tag : contains masquerade_end (codes "protean") ≡ true
unfolding contains has_prefix
end_tag = refl

end_nat : contains (map to_lower masquerade_end) (codes "masquerade") ≡ true
unfolding contains has_prefix to_lower
end_nat = refl

nft_end_nat : contains (map to_lower (codes " masquerade")) (codes "masquerade") ≡ true
unfolding contains has_prefix to_lower
nft_end_nat = refl

tag-masquerade :
    (action tunnel wan : Text) → contains (masquerade action tunnel wan) (codes "protean") ≡ true
tag-masquerade action tunnel wan = contains-append_right (codes "iptables -t nat ") _ _ (
    contains-append_right action _ _ (
      contains-append_right (codes " POSTROUTING -s ") _ _ (
        contains-append_right tunnel _ _ (
          contains-append_right (codes " -o ") _ _
            (contains-append_right wan masquerade_end _ end_tag)))))

nat-masquerade :
    (action tunnel wan : Text)
    → contains (map to_lower (masquerade action tunnel wan)) (codes "masquerade") ≡ true
nat-masquerade action tunnel wan = contains-map (codes "iptables -t nat ") _ _ (
    contains-map action _ _ (
      contains-map (codes " POSTROUTING -s ") _ _ (
        contains-map tunnel _ _
          (contains-map (codes " -o ") _ _ (contains-map wan masquerade_end _ end_nat)))))

abbrev nft_nat : Text → Text → Text
nft_nat tunnel wan =
    codes "nft add rule inet protean_%i nat ip saddr "
    ++ (tunnel ++ (codes " oifname " ++ (wan ++ codes " masquerade")))

nft_prefix_tag :
    contains (codes "nft add rule inet protean_%i nat ip saddr ") (codes "protean") ≡ true
unfolding contains has_prefix
nft_prefix_tag = refl

nat-nft_nat :
    (tunnel wan : Text) → contains (map to_lower (nft_nat tunnel wan)) (codes "masquerade") ≡ true
nat-nft_nat tunnel wan = contains-map (codes "nft add rule inet protean_%i nat ip saddr ") _ _ (
    contains-map tunnel _ _
      (contains-map (codes " oifname ") _ _ (contains-map wan (codes " masquerade") _ nft_end_nat)))

managed_up : (v : Text) → contains v (codes "protean") ≡ true → is_managed_rule (up v) ≡ true
unfolding is_managed_rule same
managed_up v h = h

managed_down : (v : Text) → contains v (codes "protean") ≡ true → is_managed_rule (down v) ≡ true
unfolding is_managed_rule same
managed_down v h = h

nat_up :
    (v : Text)
    → contains v (codes "protean") ≡ true
    → contains (map to_lower v) (codes "masquerade") ≡ true
    → is_managed_nat (up v) ≡ true
unfolding is_managed_nat same
nat_up v h n = ground arith

-- The rules for egress: all are managed, and they show exactly if egress is configured.
iptables_nat-AllManaged :
    (b : Bool) (tunnel wan : Text)
    → AllManaged (
        if b
        then up (masquerade (codes "-A") tunnel wan)
          ∷ down (masquerade (codes "-D") tunnel wan)
          ∷ []
        else [])
iptables_nat-AllManaged true tunnel wan = (
  managed_up _ (tag-masquerade (codes "-A") tunnel wan),
  (managed_down _ (tag-masquerade (codes "-D") tunnel wan), tt),
)
iptables_nat-AllManaged false tunnel wan = tt

iptables_rules-AllManaged :
    (egress : Bool) (tunnel wan : Text) → AllManaged (iptables_rules egress tunnel wan)
unfolding iptables_rules
iptables_rules-AllManaged egress tunnel wan =
    let rest = iptables_nat-AllManaged (with_egress egress tunnel wan) tunnel wan in
    unfold is_managed_rule same contains has_prefix in (refl, (refl, (refl, (refl, rest))))

abbrev nft_chain : Text
nft_chain =
    codes "nft add chain inet protean_%i nat '{ type nat hook postrouting priority srcnat; }'"

nft_nat-AllManaged :
    (b : Bool) (tunnel wan : Text)
    → AllManaged (
        (if b then up nft_chain ∷ up (nft_nat tunnel wan) ∷ [] else [])
        ++ down (codes "nft delete table inet protean_%i") ∷ [])
nft_nat-AllManaged true tunnel wan =
    let rule = managed_up (nft_nat tunnel wan) (
      contains-append_left (codes "nft add rule inet protean_%i nat ip saddr ") _ _
        nft_prefix_tag) in
    unfold is_managed_rule same contains has_prefix in (refl, (rule, (refl, tt)))
nft_nat-AllManaged false tunnel wan = unfold is_managed_rule same contains has_prefix in (refl, tt)

pub managed_rules-AllManaged :
    (backend : Backend) (egress : Bool) (tunnel wan : Text)
    → AllManaged (managed_rules backend egress tunnel wan)
unfolding managed_rules
managed_rules-AllManaged iptables egress tunnel wan = iptables_rules-AllManaged egress tunnel wan
managed_rules-AllManaged nft egress tunnel wan =
    let rest = nft_nat-AllManaged (with_egress egress tunnel wan) tunnel wan in
    unfold is_managed_rule same contains has_prefix in (refl, (refl, (refl, (refl, rest))))

-- NAT among the rules: exactly with egress
pub any-append : (p : Kv → Bool) (xs ys : List Kv) → any p (xs ++ ys) ≡ (any p xs || any p ys)
any-append p [] ys = refl
any-append p (x ∷ xs) ys = ground (arith, any-append p xs ys)

iptables_nat_any :
    (b : Bool) (tunnel wan : Text)
    → any is_managed_nat (
        if b
        then up (masquerade (codes "-A") tunnel wan)
          ∷ down (masquerade (codes "-D") tunnel wan)
          ∷ []
        else [])
      ≡ b
iptables_nat_any true tunnel wan =
    rw (nat_up _ (tag-masquerade (codes "-A") tunnel wan) (nat-masquerade (codes "-A") tunnel wan))
iptables_nat_any false tunnel wan = refl

any-nft_nat :
    (b : Bool) (tunnel wan : Text)
    → any is_managed_nat (
        (if b then up nft_chain ∷ up (nft_nat tunnel wan) ∷ [] else [])
        ++ down (codes "nft delete table inet protean_%i") ∷ [])
      ≡ b
any-nft_nat true tunnel wan =
    let rule =
      nat_up (nft_nat tunnel wan)
        (contains-append_left (codes "nft add rule inet protean_%i nat ip saddr ") _ _
          nft_prefix_tag)
        (nat-nft_nat tunnel wan) in
    rw rule (unfold is_managed_nat same contains has_prefix in refl)
any-nft_nat false tunnel wan = unfold is_managed_nat same contains has_prefix in refl

pub any-managed_rules :
    (backend : Backend) (egress : Bool) (tunnel wan : Text)
    → any is_managed_nat (managed_rules backend egress tunnel wan) ≡ with_egress egress tunnel wan
unfolding managed_rules
any-managed_rules iptables egress tunnel wan =
    let rest = iptables_nat_any (with_egress egress tunnel wan) tunnel wan in
    unfold is_managed_nat same contains has_prefix in rest
any-managed_rules nft egress tunnel wan =
    let rest = any-nft_nat (with_egress egress tunnel wan) tunnel wan in
    unfold is_managed_nat same contains has_prefix in rest

pub some_managed :
    (backend : Backend) (egress : Bool) (tunnel wan : Text)
    → any is_managed_rule (managed_rules backend egress tunnel wan) ≡ true
unfolding managed_rules
some_managed iptables egress tunnel wan = unfold is_managed_rule same contains has_prefix in refl
some_managed nft egress tunnel wan = unfold is_managed_rule same contains has_prefix in refl
