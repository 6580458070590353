-- ===== src/Tests/Config.antt =====
-- The config file, at concrete inputs.
use protean.Prelude.{List, [], ◌∷◌, true, ◌&&◌, ◌≡◌, refl, subst, none}
use protean.Strings.{Text, codes, same, is_space, has_prefix, cut_prefix}
use protean.Strings.Laws.{same_iff}
use protean.Conf.{Kv, ConfPeer, ConfFile, parse_conf, render}
use protean.Conf.Options.{get_opt, equal_fold}
use protean.Conf.Peers.{public_key, has_key, find_in, AreDistinct}
use protean.Conf.Managed.{
  iptables, unmanaged, with_egress, has_managed_forwarding, has_managed_nat, set_managed_networking,
}
use protean.Conf.Managed.Laws.{set_managed_networking_lem}
use protean.Wg.Server.{ServerConfig}
use protean.Conf.OptionLines.{IsPlain, lacks-Lacks}
use protean.Conf.RoundTrip.{parse_conf-render}

abbrev opts : List Kv
opts =
    record { key = codes "ListenPort"; value = codes "51820" }
    ∷ record { key = codes "PostUp"; value = codes "echo up" }
    ∷ []

abbrev conf : ConfFile
conf = record { interface_opts = opts; peers = [] }

abbrev tunnel : Text
tunnel = codes "10.9.0.0/24"

networking_example :
    (unmanaged (set_managed_networking conf iptables true true tunnel (codes "eth0")).interface_opts
      ≡ unmanaged conf.interface_opts)
    × ((set_managed_networking conf iptables true true tunnel (codes "eth0")).peers ≡ conf.peers)
    × (has_managed_forwarding (set_managed_networking conf iptables true true tunnel (codes "eth0"))
        ≡ true)
    × (has_managed_nat (set_managed_networking conf iptables true true tunnel (codes "eth0"))
        ≡ (true && with_egress true tunnel (codes "eth0")))
networking_example = set_managed_networking_lem conf iptables true true tunnel (codes "eth0")

abbrev peer : Text → Text → ConfPeer
peer name key = record { name = name; opts = record { key = codes "PublicKey"; value = key } ∷ [] }

abbrev peers : List ConfPeer
peers = peer (codes "laptop") (codes "aaa=") ∷ peer (codes "phone") (codes "bbb=") ∷ []

distinct : AreDistinct peers
unfolding find_in has_key public_key get_opt equal_fold same
distinct = (
  (λ key e.
      subst (λ k. find_in (peer (codes "phone") (codes "bbb=") ∷ []) k ≡ none)
        ((same_iff (codes "aaa=") key).0 e) refl),
  ((λ key e. refl), tt),
)

abbrev server : ServerConfig
server = record { listen_port = 0; address = codes "10.9.0.1/24"; dns = []; mtu = 0; extra = [] }

abbrev laptop : ConfFile
laptop = record {
  interface_opts = record { key = codes "MTU"; value = codes "1280" } ∷ [];
  peers =
      record {
        name = codes "my pc";
        opts = record { key = codes "PublicKey"; value = codes "ab=" } ∷ [];
      }
      ∷ [];
}

laptop-IsPlain : IsPlain laptop
unfolding is_space has_prefix cut_prefix
laptop-IsPlain = (
  (
    (
      (refl, refl, lacks-Lacks b'\n' (codes "MTU") refl, lacks-Lacks b'=' (codes "MTU") refl, refl),
      (refl, refl, lacks-Lacks b'\n' (codes "1280") refl),
    ),
    tt,
  ),
  (
    (
      (refl, refl, lacks-Lacks b'\n' (codes "my pc") refl, lacks-Lacks b'\r' (codes "my pc") refl),
      (
        (
          (
            refl,
            refl,
            lacks-Lacks b'\n' (codes "PublicKey") refl,
            lacks-Lacks b'=' (codes "PublicKey") refl,
            refl,
          ),
          (refl, refl, lacks-Lacks b'\n' (codes "ab=") refl),
        ),
        tt,
      ),
    ),
    tt,
  ),
)

round_trip_example : parse_conf (render laptop) ≡ laptop
round_trip_example = parse_conf-render laptop laptop-IsPlain
