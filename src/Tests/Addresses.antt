-- ===== src/Tests/Addresses.antt =====
-- Addresses, networks and routes, at concrete inputs.
use protean.Prelude.{
  List, [], ◌∷◌, Bool, true, false, not, ◌&&◌, ◌⊎◌, inr, ◌≡◌, refl, ◌+◌, ◌%◌, ◌^◌, ◌<◌, ◌↔◌, arith,
  none, some, length,
}
use protean.Strings.{same, Text, codes, is_empty, member}
use protean.Net.{Ip, IpNet, IsBytes, value, contains, block, short}
use protean.Strings.Laws.{IsNodup}
use protean.Net.Forms.{IsIp}
use protean.Net.Parse.{parse_ip, parse_cidr}
use protean.Ipam.{inc_ip, bounds, range_bounds, next_free_ip_in_range}
use protean.Ipam.Increment.{inc_ip_lem}
use protean.Ipam.Allocate.{Allocates, next_free_ip_in_range-Allocates}
use protean.Overlap.{cidr_overlap, check_no_overlap, invalid}
use protean.Overlap.Laws.{Verdict, cidr_overlap_iff, check_no_overlap-Verdict}
use protean.Classify.{classify_peer_routes, is_default}
use protean.Classify.Anomalies.{AreExplained, classify_peer_routes-AreExplained}
use protean.Classify.Sound.{IsSound, classify_peer_routes-IsSound}
use protean.Classify.Laws.{reported, count_if, is_specific, has, classify_peer_routes-accounts}
use protean.Routes.{compute_routes, own_networks}
use protean.Routes.Laws.{offered, compute_routes-member}

abbrev cidr : Text
cidr = codes "10.9.0.1/29"

abbrev server : Ip
server = 0 ∷ 0 ∷ 0 ∷ 0 ∷ 0 ∷ 0 ∷ 0 ∷ 0 ∷ 0 ∷ 0 ∷ 255 ∷ 255 ∷ 10 ∷ 9 ∷ 0 ∷ 1 ∷ []

abbrev tunnel : IpNet
tunnel = record { ip = 10 ∷ 9 ∷ 0 ∷ 0 ∷ []; ones = 29; bits = 32 }

parsed : parse_cidr cidr ≡ some (server, tunnel)
unfolding parse_cidr protean.Strings.cut value
parsed = refl

abbrev none_used : Text → Bool
none_used t = false

abbrev first : Ip
first = 0 ∷ 0 ∷ 0 ∷ 0 ∷ 0 ∷ 0 ∷ 0 ∷ 0 ∷ 0 ∷ 0 ∷ 255 ∷ 255 ∷ 10 ∷ 9 ∷ 0 ∷ 4 ∷ []

ranged : range_bounds tunnel (codes "10.9.0.4") [] ≡ bounds first none
unfolding range_bounds parse_ip contains short protean.Strings.same value block
ranged = refl

inc_ip_example :
    (value (inc_ip (10 ∷ 9 ∷ 0 ∷ 255 ∷ [])) ≡ (value (10 ∷ 9 ∷ 0 ∷ 255 ∷ []) + 1) % 256 ^ 4)
    × (length (inc_ip (10 ∷ 9 ∷ 0 ∷ 255 ∷ [])) ≡ 4)
    × IsBytes (inc_ip (10 ∷ 9 ∷ 0 ∷ 255 ∷ []))
inc_ip_example = inc_ip_lem (10 ∷ 9 ∷ 0 ∷ 255 ∷ []) (ground arith)

next_free_ip_in_range_example :
    Allocates tunnel none none_used first
      (next_free_ip_in_range cidr (codes "10.9.0.4") [] none_used)
next_free_ip_in_range_example =
    next_free_ip_in_range-Allocates cidr (codes "10.9.0.4") [] none_used server tunnel first none
      parsed ranged small first_ok
  where
    small : block tunnel < 256 ^ length (short tunnel.ip)
    small = unfold block short protean.Net.to4 in omega arith

    first_ok : IsIp first
    first_ok = record { bytes = ground arith; size = inr refl }

cidr_overlap_example :
    (cidr_overlap tunnel tunnel ≡ true)
    ↔ ((x : Ip) × (contains tunnel x ≡ true) × (contains tunnel x ≡ true))
cidr_overlap_example = cidr_overlap_iff tunnel tunnel

check_no_overlap_example :
    ((check_no_overlap cidr (codes "10.9.0.0/24" ∷ []) ≡ invalid) × (parse_cidr cidr ≡ none))
    ⊎ ((net : IpNet) × (ip : Ip) × (parse_cidr cidr ≡ some (ip, net))
        × Verdict net (codes "10.9.0.0/24" ∷ []) (check_no_overlap cidr (codes "10.9.0.0/24" ∷ [])))
check_no_overlap_example = check_no_overlap-Verdict cidr (codes "10.9.0.0/24" ∷ [])

abbrev allowed : List Text
allowed =
    codes "10.9.0.2/32"
    ∷ codes "192.168.7.0/24"
    ∷ codes "0.0.0.0/0"
    ∷ codes "nonsense"
    ∷ codes "10.9.0.3/32"
    ∷ []

classify_accounts_example :
    (reported (codes "nonsense") (classify_peer_routes cidr allowed)
      ≡ count_if (λ a. is_specific a && same a (codes "nonsense")) allowed)
    × ((classify_peer_routes cidr allowed).full_tunnel
        ≡ has (λ a. not (is_empty a) && is_default a) allowed)
classify_accounts_example =
    classify_peer_routes-accounts cidr allowed server tunnel (codes "nonsense") parsed

classify_anomalies_example : AreExplained tunnel (classify_peer_routes cidr allowed)
classify_anomalies_example = classify_peer_routes-AreExplained cidr allowed server tunnel parsed

classify-IsSound_example : IsSound tunnel (classify_peer_routes cidr allowed)
classify-IsSound_example = classify_peer_routes-IsSound cidr allowed server tunnel parsed

abbrev subnets : List Text
subnets = codes "192.168.7.0/24" ∷ codes "172.16.0.0/16" ∷ []

compute_routes_example :
    ((n : Text)
      → member n (compute_routes allowed (cidr ∷ []) subnets true) ≡ (
          not (member n (own_networks allowed))
          && member n (own_networks (offered (cidr ∷ []) subnets true))))
    × IsNodup (compute_routes allowed (cidr ∷ []) subnets true)
compute_routes_example = compute_routes-member allowed (cidr ∷ []) subnets true
