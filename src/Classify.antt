-- ===== src/Classify.antt =====
-- internal/vpn/classify.go: a peer's AllowedIPs, told apart by its interface's tunnel network.
pub mod Laws
pub mod Anomalies
pub mod Sound
use protean.Prelude.{
  ℕ, List, [], ◌∷◌, ◌++◌, Bool, true, false, ◌&&◌, ◌||◌, Option, none, some, leb, ◌==◌,
  if◌then◌else◌,
}
use protean.Strings.{Text, codes, same, is_empty, trim_space}
use protean.Net.{Ip, IpNet, contains}
use protean.Net.Parse.{parse_cidr}

-- An entry of `Anomalies`: the code writes a sentence around the entry.
pub data Anomaly : Type 0 where
  no_tunnel unparsable wide : Text → Anomaly
  second_own : Text → Text → Anomaly

-- PeerRouteClass
pub record PeerRouteClass : Type 0 where
  pub own_address : Text
  pub site_subnets : List Text
  pub full_tunnel : Bool
  pub anomalies : List Anomaly

abbrev pub empty_class : PeerRouteClass
empty_class = record { own_address = []; site_subnets = []; full_tunnel = false; anomalies = [] }

abbrev pub add_anomaly : PeerRouteClass → Anomaly → PeerRouteClass
add_anomaly class a = record class { anomalies = class.anomalies ++ a ∷ [] }

-- the three cases of the `switch`
unfoldable pub classify_parsed : PeerRouteClass → Text → (is_host contained : Bool) → PeerRouteClass
classify_parsed class a is_host contained =
    if is_host && contained
    then if is_empty class.own_address
      then record class { own_address = a }
      else add_anomaly class (second_own class.own_address a)
    else if contained
    then add_anomaly class (wide a)
    else record class { site_subnets = class.site_subnets ++ a ∷ [] }

unfoldable pub classify_cidr : IpNet → PeerRouteClass → Text → Option (Ip × IpNet) → PeerRouteClass
unfolding classify_parsed
classify_cidr tunnel class a none = add_anomaly class (unparsable a)
classify_cidr tunnel class a (some (ip, net)) =
    classify_parsed class a (net.ones == net.bits) (contains tunnel ip && leb tunnel.ones net.ones)

-- `0.0.0.0/0` or `::/0`
unfoldable pub is_default : Text → Bool
is_default a = same a (codes "0.0.0.0/0") || same a (codes "::/0")

-- one round of the loop over the entries, on a trimmed entry
unfoldable pub classify_entry : IpNet → PeerRouteClass → Text → PeerRouteClass
unfolding classify_cidr
classify_entry tunnel class a =
    if is_empty a
    then class
    else if is_default a
    then record class { full_tunnel = true }
    else classify_cidr tunnel class a (parse_cidr a)

unfoldable pub classify_entries : IpNet → PeerRouteClass → List Text → PeerRouteClass
unfolding classify_entry
classify_entries tunnel class [] = class
classify_entries tunnel class (raw ∷ rest) =
    classify_entries tunnel (classify_entry tunnel class (trim_space raw)) rest

-- the loop without a tunnel network
unfoldable pub report_all : PeerRouteClass → List Text → PeerRouteClass
report_all class [] = class
report_all class (raw ∷ rest) =
    let a = trim_space raw in
    report_all (if is_empty a then class else add_anomaly class (no_tunnel a)) rest

-- ClassifyPeerRoutes
unfoldable pub classify_peer_routes : Text → List Text → PeerRouteClass
unfolding classify_entries report_all
classify_peer_routes tunnel_cidr allowed_ips = elim (parse_cidr tunnel_cidr) [
  | none ↦ report_all empty_class allowed_ips
  | some (ip, net) ↦ classify_entries net empty_class allowed_ips
]
