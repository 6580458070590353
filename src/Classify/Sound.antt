-- ===== src/Classify/Sound.antt =====
-- ClassifyPeerRoutes of internal/vpn/classify.go: what an own address and a site subnet are.
use protean.Prelude.{
  ◌≤◌, ◌≡◌, ◌⊎◌, inl, inr, refl, sym, subst, List, [], ◌∷◌, Bool, true, false, ◌&&◌, Option, none,
  some, All, All-append, leb, ◌==◌, if◌then◌else◌, both, ==_iff, leb→le,
}
use protean.Strings.{Text, is_empty, trim_space}
use protean.Net.{Ip, IpNet, contains}
use protean.Net.Parse.{parse_cidr}
use protean.Classify.{
  second_own, PeerRouteClass, empty_class, add_anomaly, classify_parsed, classify_cidr, is_default,
  classify_entry, classify_entries, classify_peer_routes,
}

-- The peer's own address is a host address inside the tunnel network.
abbrev pub IsOwn : IpNet → Text → Type 0
IsOwn tunnel a =
    (ip : Ip) × (net : IpNet) × (parse_cidr a ≡ some (ip, net))
    × (net.ones ≡ net.bits)
    × (contains tunnel ip ≡ true)
    × (tunnel.ones ≤ net.ones)

-- A site subnet is a network that is not one of the tunnel network's.
abbrev pub IsSite : IpNet → Text → Type 0
IsSite tunnel a =
    (ip : Ip) × (net : IpNet) × (parse_cidr a ≡ some (ip, net))
    × ((contains tunnel ip && leb tunnel.ones net.ones) ≡ false)

pub record IsSound (tunnel : IpNet) (class : PeerRouteClass) : Type 0 where
  pub own : (class.own_address ≡ []) ⊎ IsOwn tunnel class.own_address
  pub sites : All (IsSite tunnel) class.site_subnets

module _ (tunnel : IpNet) where
  parsed-IsSound :
      (class : PeerRouteClass) (a : Text) (h c : Bool)
      → (h ≡ true → c ≡ true → IsOwn tunnel a)
      → (c ≡ false → IsSite tunnel a)
      → IsSound tunnel class
      → IsSound tunnel (classify_parsed class a h c)
  unfolding classify_parsed
  parsed-IsSound class a true true o t s = pick (is_empty class.own_address)
    where
      pick :
          (e : Bool)
          → IsSound tunnel (
              if e
              then record class { own_address = a }
              else add_anomaly class (second_own class.own_address a))
      pick true = record { own = inr (o refl refl); sites = s.sites }
      pick false = record { own = s.own; sites = s.sites }
  parsed-IsSound class a false true o t s = record { own = s.own; sites = s.sites }
  parsed-IsSound class a true false o t s = record {
    own = s.own;
    sites = All-append (IsSite tunnel) class.site_subnets (a ∷ []) s.sites (t refl, tt);
  }
  parsed-IsSound class a false false o t s = record {
    own = s.own;
    sites = All-append (IsSite tunnel) class.site_subnets (a ∷ []) s.sites (t refl, tt);
  }

  cidr-IsSound :
      (class : PeerRouteClass) (a : Text) (o : Option (Ip × IpNet))
      → parse_cidr a ≡ o
      → IsSound tunnel class
      → IsSound tunnel (classify_cidr tunnel class a o)
  unfolding classify_cidr
  cidr-IsSound class a none p s = record { own = s.own; sites = s.sites }
  cidr-IsSound class a (some (ip, net)) p s =
      parsed-IsSound class a (net.ones == net.bits) (contains tunnel ip && leb tunnel.ones net.ones)
        (λ h c. (ip, net, p, (==_iff _ _).0 h, (both c).0, leb→le _ _ ((both c).1)))
        (λ c. (ip, net, p, c)) s

  entry-IsSound :
      (class : PeerRouteClass) (a : Text)
      → IsSound tunnel class
      → IsSound tunnel (classify_entry tunnel class a)
  unfolding classify_entry
  entry-IsSound class a s = pick (is_empty a) (is_default a)
    where
      pick :
          (e d : Bool)
          → IsSound tunnel (
              if e
              then class
              else if d
              then record class { full_tunnel = true }
              else classify_cidr tunnel class a (parse_cidr a))
      pick true d = s
      pick false true = record { own = s.own; sites = s.sites }
      pick false false = cidr-IsSound class a (parse_cidr a) refl s

  entries-IsSound :
      (class : PeerRouteClass) (ips : List Text)
      → IsSound tunnel class
      → IsSound tunnel (classify_entries tunnel class ips)
  unfolding classify_entries
  entries-IsSound class [] s = s
  entries-IsSound class (raw ∷ rest) s =
      entries-IsSound (classify_entry tunnel class (trim_space raw)) rest
        (entry-IsSound class (trim_space raw) s)

-- Where the tunnel network parses, the own address, if there is one, is a host address inside the
-- tunnel network, and every site subnet is a network that is not inside it.
pub classify_peer_routes-IsSound :
    (tunnel_cidr : Text) (ips : List Text) (ip : Ip) (net : IpNet)
    → parse_cidr tunnel_cidr ≡ some (ip, net)
    → IsSound net (classify_peer_routes tunnel_cidr ips)
unfolding classify_peer_routes
classify_peer_routes-IsSound tunnel_cidr ips ip net p =
    let runs : classify_peer_routes tunnel_cidr ips ≡ classify_entries net empty_class ips =
      rw (p, classify_peer_routes) in
    subst (IsSound net) (sym runs)
      (entries-IsSound net empty_class ips (record { own = inl refl; sites = tt }))
