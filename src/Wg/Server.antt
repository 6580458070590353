-- ===== src/Wg/Server.antt =====
-- internal/vpn/wgfamily/provider.go: what UpdateServerConfig and EnsureServer write, and the list of
-- peers that ListPeers makes of the dump and the config.
use protean.Prelude.{
  ℕ, ◌+◌, List, [], ◌∷◌, map, Bool, true, false, not, ◌&&◌, ◌≡◌, refl, ap, ◌∙◌, arith, Option, none,
  some, if◌then◌else◌, ltb, ◌==◌,
}
use protean.Strings.{Text, codes, is_empty}
use protean.Strings.Decimal.{itoa}
use protean.Conf.{Kv, ConfPeer, ConfFile, empty_conf}
use protean.Conf.Options.{
  equal_fold, interface_get, interface_set, interface_unset, get_opt-set_opt, get_opt-unset_opt,
}
use protean.Conf.Peers.{find_peer}
use protean.Wg.Dump.{DumpPeer}

-- vpn.ServerConfig, the parts that the provider reads; `extra` in the order in which Go visits it
pub record ServerConfig : Type 0 where
  pub listen_port : ℕ
  pub address : Text
  pub dns : Text
  pub mtu : ℕ
  pub extra : List Kv

-- an option that is set under a condition
unfoldable pub set_if : Bool → Text → Text → ConfFile → ConfFile
set_if b key value cf = if b then interface_set cf key value else cf

unfoldable pub set_mtu : ℕ → ConfFile → ConfFile
set_mtu mtu cf =
    if ltb 0 mtu
    then interface_set cf (codes "MTU") (itoa mtu)
    else interface_unset cf (codes "MTU")

-- the named options of `UpdateServerConfig`
unfoldable pub named_options : ServerConfig → ConfFile → ConfFile
unfolding set_if set_mtu
named_options cfg cf = set_mtu cfg.mtu (
    set_if (not (is_empty cfg.dns)) (codes "DNS") cfg.dns (
      set_if (not (is_empty cfg.address)) (codes "Address") cfg.address
        (set_if (ltb 0 cfg.listen_port) (codes "ListenPort") (itoa cfg.listen_port) cf)))

unfoldable pub set_all : List Kv → ConfFile → ConfFile
set_all [] cf = cf
set_all (kv ∷ kvs) cf = set_all kvs (interface_set cf kv.key kv.value)

-- the config that `UpdateServerConfig` writes
unfoldable pub updated_config : ServerConfig → ConfFile → ConfFile
unfolding named_options set_all
updated_config cfg cf = set_all cfg.extra (named_options cfg cf)

-- the config that `EnsureServer` writes for a new interface
unfoldable pub first_config : Text → Text → ℕ → Text → Text → ConfFile
unfolding set_if
first_config private_key address listen_port dns mtu =
    set_if (not (is_empty mtu)) (codes "MTU") mtu (
      set_if (not (is_empty dns)) (codes "DNS") dns (
        set_if (ltb 0 listen_port) (codes "ListenPort") (itoa listen_port) (
          interface_set (interface_set empty_conf (codes "PrivateKey") private_key)
            (codes "Address") address)))

-- vpn.Peer, as `ListPeers` fills it
pub record Peer : Type 0 where
  pub name : Text
  pub online : Bool
  pub dumped : DumpPeer

unfoldable pub name_of : Option ConfPeer → Text
name_of none = []
name_of (some p) = p.name

-- one round of the loop of `ListPeers`; the times and the window are in seconds
unfoldable pub listed_peer : ConfFile → (now window : ℕ) → DumpPeer → Peer
unfolding name_of
listed_peer conf now window dp = record {
  name = name_of (find_peer conf dp.public_key);
  online = not (dp.latest_handshake == 0) && ltb now (dp.latest_handshake + window);
  dumped = dp;
}

-- the loop of `ListPeers`
unfoldable pub list_peers : ConfFile → (now window : ℕ) → List DumpPeer → List Peer
unfolding listed_peer
list_peers conf now window dps = map (listed_peer conf now window) dps

get-set_if :
    (b : Bool) (k v key : Text) (cf : ConfFile)
    → interface_get (set_if b k v cf) key
      ≡ (if b && equal_fold k key then some v else interface_get cf key)
unfolding set_if interface_get interface_set
get-set_if true k v key cf = get_opt-set_opt cf.interface_opts k key v
get-set_if false k v key cf = refl

get-set_mtu :
    (mtu : ℕ) (key : Text) (cf : ConfFile)
    → interface_get (set_mtu mtu cf) key ≡ (
        if equal_fold (codes "MTU") key
        then (if ltb 0 mtu then some (itoa mtu) else none)
        else interface_get cf key)
unfolding set_mtu interface_get interface_set interface_unset
get-set_mtu mtu key cf = ground (
  arith,
  get_opt-set_opt cf.interface_opts (codes "MTU") key (itoa mtu),
  get_opt-unset_opt cf.interface_opts (codes "MTU") key,
)

-- After the named options are written: the MTU is the one given, or none where it is 0; the DNS, the
-- address and the port are those given, where they are; and every other option is as before.
pub interface_get-named_options :
    (cfg : ServerConfig) (cf : ConfFile) (key : Text)
    → interface_get (named_options cfg cf) key ≡ (
        if equal_fold (codes "MTU") key
        then (if ltb 0 cfg.mtu then some (itoa cfg.mtu) else none)
        else if not (is_empty cfg.dns) && equal_fold (codes "DNS") key
        then some cfg.dns
        else if not (is_empty cfg.address) && equal_fold (codes "Address") key
        then some cfg.address
        else if ltb 0 cfg.listen_port && equal_fold (codes "ListenPort") key
        then some (itoa cfg.listen_port)
        else interface_get cf key)
unfolding named_options
interface_get-named_options cfg cf key =
    let port = set_if (ltb 0 cfg.listen_port) (codes "ListenPort") (itoa cfg.listen_port) cf in
    let address = set_if (not (is_empty cfg.address)) (codes "Address") cfg.address port in
    let dns = set_if (not (is_empty cfg.dns)) (codes "DNS") cfg.dns address in
    get-set_mtu cfg.mtu key dns
    ∙ ap
        (under (equal_fold (codes "MTU") key) (if ltb 0 cfg.mtu then some (itoa cfg.mtu) else none))
        (get-set_if (not (is_empty cfg.dns)) (codes "DNS") cfg.dns key address
          ∙ ap (under (not (is_empty cfg.dns) && equal_fold (codes "DNS") key) (some cfg.dns)) (
              get-set_if (not (is_empty cfg.address)) (codes "Address") cfg.address key port
              ∙ ap
                  (under (not (is_empty cfg.address) && equal_fold (codes "Address") key)
                    (some cfg.address))
                  (get-set_if (ltb 0 cfg.listen_port) (codes "ListenPort") (itoa cfg.listen_port)
                    key cf)))
  where
    under : Bool → Option Text → Option Text → Option Text
    under b v rest = if b then v else rest
