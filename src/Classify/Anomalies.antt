-- ===== src/Classify/Anomalies.antt =====
-- The anomalies of ClassifyPeerRoutes of internal/vpn/classify.go, and what each one says.
use protean.Prelude.{
  List, [], ◌∷◌, ◌≡◌, refl, Bool, true, false, ◌&&◌, Option, none, some, All, All-append, leb, ◌==◌,
  if◌then◌else◌, subst, sym,
}
use protean.Strings.{Text, is_empty, trim_space}
use protean.Net.{Ip, IpNet, contains}
use protean.Net.Parse.{parse_cidr}
use protean.Classify.{
  Anomaly, no_tunnel, second_own, wide, unparsable, PeerRouteClass, empty_class, add_anomaly,
  classify_parsed, classify_cidr, is_default, classify_entry, classify_entries,
  classify_peer_routes,
}

-- A prefix that is not a host's, and begins inside the tunnel network.
abbrev pub IsWide : IpNet → Text → Type 0
IsWide tunnel a =
    (ip : Ip) × (net : IpNet) × (parse_cidr a ≡ some (ip, net))
    × ((net.ones == net.bits) ≡ false)
    × ((contains tunnel ip && leb tunnel.ones net.ones) ≡ true)

-- A host address inside the tunnel network.
abbrev pub IsHost : IpNet → Text → Type 0
IsHost tunnel a =
    (ip : Ip) × (net : IpNet) × (parse_cidr a ≡ some (ip, net))
    × ((net.ones == net.bits) ≡ true)
    × ((contains tunnel ip && leb tunnel.ones net.ones) ≡ true)

module _ (tunnel : IpNet) where
  -- What an anomaly says, where the own address is `own`; with a tunnel network none says that there
  -- is no such network.
  abbrev pub Explains : Text → Anomaly → Type 0
  Explains own (no_tunnel a) = true ≡ false
  Explains own (unparsable a) = parse_cidr a ≡ none
  Explains own (wide a) = IsWide tunnel a
  Explains own (second_own first a) = (first ≡ own) × (is_empty first ≡ false) × IsHost tunnel a

  abbrev pub AreExplained : PeerRouteClass → Type 0
  AreExplained class = All (Explains class.own_address) class.anomalies

  -- where there is no own address yet, no anomaly speaks of it
  renamed :
      (own a : Text) (xs : List Anomaly)
      → is_empty own ≡ true
      → All (Explains own) xs
      → All (Explains a) xs
  renamed own a [] e h = tt
  renamed own a (no_tunnel b ∷ xs) e h = (h.0, renamed own a xs e h.1)
  renamed own a (unparsable b ∷ xs) e h = (h.0, renamed own a xs e h.1)
  renamed own a (wide b ∷ xs) e h = (h.0, renamed own a xs e h.1)
  renamed own a (second_own first b ∷ xs) e h = let (same_own, not_empty, is) = h.0 in cc

  AreExplained-add_anomaly :
      (class : PeerRouteClass) (x : Anomaly)
      → AreExplained class
      → Explains class.own_address x
      → AreExplained (add_anomaly class x)
  AreExplained-add_anomaly class x h e =
      All-append (Explains class.own_address) class.anomalies (x ∷ []) h (e, tt)

  AreExplained-own :
      (class : PeerRouteClass) (a : Text) (e : Bool)
      → is_empty class.own_address ≡ e
      → IsHost tunnel a
      → AreExplained class
      → AreExplained (
          if e
          then record class { own_address = a }
          else add_anomaly class (second_own class.own_address a))
  AreExplained-own class a true e is h = renamed class.own_address a class.anomalies e h
  AreExplained-own class a false e is h =
      AreExplained-add_anomaly class (second_own class.own_address a) h (refl, e, is)

  AreExplained-parsed :
      (class : PeerRouteClass) (a : Text) (h c : Bool)
      → (h ≡ true → c ≡ true → IsHost tunnel a)
      → (h ≡ false → c ≡ true → IsWide tunnel a)
      → AreExplained class
      → AreExplained (classify_parsed class a h c)
  unfolding classify_parsed
  AreExplained-parsed class a true true is w x =
      AreExplained-own class a (is_empty class.own_address) refl (is refl refl) x
  AreExplained-parsed class a false true is w x =
      AreExplained-add_anomaly class (wide a) x (w refl refl)
  AreExplained-parsed class a true false is w x = x
  AreExplained-parsed class a false false is w x = x

  AreExplained-cidr :
      (class : PeerRouteClass) (a : Text) (o : Option (Ip × IpNet))
      → parse_cidr a ≡ o
      → AreExplained class
      → AreExplained (classify_cidr tunnel class a o)
  unfolding classify_cidr
  AreExplained-cidr class a none e x = AreExplained-add_anomaly class (unparsable a) x e
  AreExplained-cidr class a (some (ip, net)) e x =
      AreExplained-parsed class a (net.ones == net.bits)
        (contains tunnel ip && leb tunnel.ones net.ones) (λ h c. (ip, net, e, h, c))
        (λ h c. (ip, net, e, h, c)) x

  AreExplained-entry :
      (class : PeerRouteClass) (a : Text)
      → AreExplained class
      → AreExplained (classify_entry tunnel class a)
  unfolding classify_entry
  AreExplained-entry class a x = pick (is_empty a) (is_default a)
    where
      pick :
          (e d : Bool)
          → AreExplained (
              if e
              then class
              else if d
              then record class { full_tunnel = true }
              else classify_cidr tunnel class a (parse_cidr a))
      pick true d = x
      pick false true = x
      pick false false = AreExplained-cidr class a (parse_cidr a) refl x

  pub AreExplained-entries :
      (class : PeerRouteClass) (ips : List Text)
      → AreExplained class
      → AreExplained (classify_entries tunnel class ips)
  unfolding classify_entries
  AreExplained-entries class [] x = x
  AreExplained-entries class (raw ∷ rest) x =
      AreExplained-entries (classify_entry tunnel class (trim_space raw)) rest
        (AreExplained-entry class (trim_space raw) x)

-- Where the tunnel network parses, an entry called unparsable does not parse, an entry called wide is
-- inside the tunnel network and no host address, and an entry called a second own address is a host
-- address inside the tunnel network and is told apart from the own address that the result has; no
-- anomaly says that the tunnel network is missing.
pub classify_peer_routes-AreExplained :
    (tunnel_cidr : Text) (ips : List Text) (ip : Ip) (net : IpNet)
    → parse_cidr tunnel_cidr ≡ some (ip, net)
    → AreExplained net (classify_peer_routes tunnel_cidr ips)
unfolding classify_peer_routes
classify_peer_routes-AreExplained tunnel_cidr ips ip net p =
    let runs : classify_peer_routes tunnel_cidr ips ≡ classify_entries net empty_class ips =
      rw (p, classify_peer_routes) in
    subst (AreExplained net) (sym runs) (AreExplained-entries net empty_class ips tt)
