-- ===== src/Conf/Managed.antt =====
-- The panel-managed PostUp and PostDown rules: `SetManagedNetworking` and the tests for it.
pub mod Rules
pub mod Laws
use protean.Prelude.{
  ℕ, ◌+◌, List, [], ◌∷◌, ◌++◌, map, Bool, true, false, not, ◌&&◌, ◌||◌, ◌≡◌, refl, sym, ap, ◌∙◌,
  arith, leb, if◌then◌else◌, ◌==◌, append-nil, All,
}
use protean.Strings.{Text, codes, same, is_empty, contains}
use protean.Conf.{Kv, ConfFile}

-- FirewallBackend
pub data Backend : Type 0 where
  iptables nft : Backend

abbrev pub post_up : Text
post_up = codes "PostUp"

abbrev pub post_down : Text
post_down = codes "PostDown"

-- isManagedRule; the tag is `managedTag`
unfoldable pub is_managed_rule : Kv → Bool
is_managed_rule kv =
    (same kv.key post_up || same kv.key post_down) && contains kv.value (codes "protean")

-- `strings.ToLower`, as far as the word that it is searched for depends on it: no letter outside
-- ASCII has one of that word's letters as its lower case
unfoldable pub to_lower : ℕ → ℕ
to_lower c = if leb b'A' c && leb c b'Z' then c + 32 else c

-- the test of `HasManagedNAT`
unfoldable pub is_managed_nat : Kv → Bool
unfolding is_managed_rule to_lower
is_managed_nat kv = is_managed_rule kv && contains (map to_lower kv.value) (codes "masquerade")

abbrev pub any : (Kv → Bool) → List Kv → Bool
any p [] = false
any p (kv ∷ kvs) = p kv || any p kvs

-- HasManagedForwarding, HasManagedNAT
unfoldable pub has_managed_forwarding : ConfFile → Bool
has_managed_forwarding cf = any is_managed_rule cf.interface_opts

unfoldable pub has_managed_nat : ConfFile → Bool
has_managed_nat cf = any is_managed_nat cf.interface_opts

-- the loop of `dropManaged`
unfoldable pub unmanaged : List Kv → List Kv
unmanaged [] = []
unmanaged (kv ∷ kvs) = if is_managed_rule kv then unmanaged kvs else kv ∷ unmanaged kvs

unfoldable pub drop_managed : ConfFile → ConfFile
drop_managed cf = record cf { interface_opts = unmanaged cf.interface_opts }

abbrev pub up : Text → Kv
up value = record { key = post_up; value = value }

abbrev pub down : Text → Kv
down value = record { key = post_down; value = value }

-- the test that egress is wanted and that its network and interface are known
abbrev pub with_egress : Bool → Text → Text → Bool
with_egress egress tunnel wan = egress && not (is_empty tunnel) && not (is_empty wan)

abbrev pub masquerade : Text → Text → Text → Text
masquerade action tunnel wan =
    codes "iptables -t nat "
    ++ (action
        ++ (codes " POSTROUTING -s "
            ++ (tunnel
                ++ (codes " -o "
                    ++ (wan ++ codes " -j MASQUERADE -m comment --comment protean-nat")))))

-- iptablesRules
unfoldable pub iptables_rules : Bool → Text → Text → List Kv
iptables_rules egress tunnel wan =
    (up (codes "iptables -I FORWARD -i %i -j ACCEPT -m comment --comment protean-fwd")
      ∷ up (codes "iptables -I FORWARD -o %i -j ACCEPT -m comment --comment protean-fwd")
      ∷ down (codes "iptables -D FORWARD -i %i -j ACCEPT -m comment --comment protean-fwd")
      ∷ down (codes "iptables -D FORWARD -o %i -j ACCEPT -m comment --comment protean-fwd")
      ∷ [])
    ++ (if with_egress egress tunnel wan
        then up (masquerade (codes "-A") tunnel wan)
          ∷ down (masquerade (codes "-D") tunnel wan)
          ∷ []
        else [])

-- nftRules
unfoldable pub nft_rules : Bool → Text → Text → List Kv
nft_rules egress tunnel wan =
    (up (codes "nft add table inet protean_%i")
      ∷ up (
          codes "nft add chain inet protean_%i fwd '{ type filter hook forward priority filter; }'")
      ∷ up (codes "nft add rule inet protean_%i fwd iifname %i accept")
      ∷ up (codes "nft add rule inet protean_%i fwd oifname %i accept")
      ∷ [])
    ++ ((if with_egress egress tunnel wan
          then up (
              codes
                "nft add chain inet protean_%i nat '{ type nat hook postrouting priority srcnat; }'")
            ∷ up (
                codes "nft add rule inet protean_%i nat ip saddr "
                ++ (tunnel ++ (codes " oifname " ++ (wan ++ codes " masquerade"))))
            ∷ []
          else [])
        ++ down (codes "nft delete table inet protean_%i") ∷ [])

unfoldable pub managed_rules : Backend → Bool → Text → Text → List Kv
unfolding iptables_rules nft_rules
managed_rules iptables = iptables_rules
managed_rules nft = nft_rules

-- SetManagedNetworking
unfoldable pub set_managed_networking :
    ConfFile → Backend → (forwarding egress : Bool) → (tunnel wan : Text) → ConfFile
unfolding drop_managed
set_managed_networking cf backend forwarding egress tunnel wan =
    let kept = drop_managed cf in
    if forwarding
    then record kept {
      interface_opts = kept.interface_opts ++ managed_rules backend egress tunnel wan;
    }
    else kept

-- SetManagedForwarding
unfoldable pub set_managed_forwarding : ConfFile → Bool → ConfFile
unfolding set_managed_networking
set_managed_forwarding cf enabled = set_managed_networking cf iptables enabled false [] []
