-- ===== src/Classify/Laws.antt =====
-- ClassifyPeerRoutes of internal/vpn/classify.go: which entries it reports, and how often.
use protean.Prelude.{
  ℕ, ◌+◌, ◌≡◌, refl, ◌∙◌, List, [], ◌∷◌, ◌++◌, Bool, true, false, not, ◌&&◌, ◌||◌, Option, none,
  some, arith, leb, ◌==◌, if◌then◌else◌,
}
use protean.Strings.{Text, same, is_empty, trim_space}
use protean.Net.{Ip, IpNet, contains}
use protean.Net.Parse.{parse_cidr}
use protean.Classify.{
  no_tunnel, second_own, wide, unparsable, PeerRouteClass, empty_class, add_anomaly, Anomaly,
  classify_parsed, classify_cidr, is_default, classify_entry, classify_entries,
  classify_peer_routes,
}

-- the entry that an anomaly is about
abbrev pub entry_of : Anomaly → Text
entry_of (no_tunnel a) = a
entry_of (unparsable a) = a
entry_of (wide a) = a
entry_of (second_own own a) = a

-- 1 where the entry is the text
abbrev pub hit : Text → Text → ℕ
hit t a = if same a t then 1 else 0

abbrev pub hits : {A : Type 0} → (A → Text) → Text → List A → ℕ
hits f t [] = 0
hits f t (x ∷ xs) = hit t (f x) + hits f t xs

-- how often a class reports an entry: as the own address, a site subnet or in an anomaly
abbrev pub reported : Text → PeerRouteClass → ℕ
reported t class =
    (if is_empty class.own_address then 0 else hit t class.own_address)
    + hits (λ a. a) t class.site_subnets
    + hits entry_of t class.anomalies

-- a trimmed entry that is neither blank nor a default route
abbrev pub is_specific : Text → Bool
is_specific a = not (is_empty a) && not (is_default a)

abbrev pub count_if : (Text → Bool) → List Text → ℕ
count_if p [] = 0
count_if p (raw ∷ rest) = (if p (trim_space raw) then 1 else 0) + count_if p rest

abbrev pub has : (Text → Bool) → List Text → Bool
has p [] = false
has p (raw ∷ rest) = p (trim_space raw) || has p rest

hits-append :
    {A : Type 0} (f : A → Text) (t : Text) (xs : List A) (x : A)
    → hits f t (xs ++ x ∷ []) ≡ hits f t xs + hit t (f x)
hits-append f t [] x = omega arith
hits-append f t (y ∷ xs) x = omega (arith, hits-append f t xs x)

reported-add_anomaly :
    (t : Text) (class : PeerRouteClass) (x : Anomaly)
    → reported t (add_anomaly class x) ≡ reported t class + hit t (entry_of x)
reported-add_anomaly t class x = omega (arith, hits-append entry_of t class.anomalies x)

-- where the code writes the own address, or finds that there is one
reported_own :
    (t : Text) (class : PeerRouteClass) (a : Text) (e : Bool)
    → is_empty a ≡ false
    → is_empty class.own_address ≡ e
    → reported t (
        if e
        then record class { own_address = a }
        else add_anomaly class (second_own class.own_address a))
      ≡ reported t class + hit t a
reported_own t class a true ha e = rw (e, ha) (omega arith)
reported_own t class a false ha e = reported-add_anomaly t class (second_own class.own_address a)

reported-classify_parsed :
    (t : Text) (class : PeerRouteClass) (a : Text) (h c : Bool)
    → is_empty a ≡ false
    → reported t (classify_parsed class a h c) ≡ reported t class + hit t a
unfolding classify_parsed
reported-classify_parsed t class a true true e =
    reported_own t class a (is_empty class.own_address) e refl
reported-classify_parsed t class a false true e = reported-add_anomaly t class (wide a)
reported-classify_parsed t class a true false e =
    omega (arith, hits-append (λ s. s) t class.site_subnets a)
reported-classify_parsed t class a false false e =
    omega (arith, hits-append (λ s. s) t class.site_subnets a)

full-classify_parsed :
    (class : PeerRouteClass) (a : Text) (h c : Bool)
    → (classify_parsed class a h c).full_tunnel ≡ class.full_tunnel
unfolding classify_parsed
full-classify_parsed class a h c = ground arith

module _ (tunnel : IpNet) (t : Text) where
  cidr_accounted :
      (class : PeerRouteClass) (a : Text) (o : Option (Ip × IpNet))
      → is_empty a ≡ false
      → (reported t (classify_cidr tunnel class a o) ≡ reported t class + hit t a)
        × ((classify_cidr tunnel class a o).full_tunnel ≡ class.full_tunnel)
  unfolding classify_cidr
  cidr_accounted class a none e = (reported-add_anomaly t class (unparsable a), refl)
  cidr_accounted class a (some (ip, net)) e = (
    reported-classify_parsed t class a (net.ones == net.bits)
        (contains tunnel ip && leb tunnel.ones net.ones) e,
    full-classify_parsed class a (net.ones == net.bits)
        (contains tunnel ip && leb tunnel.ones net.ones),
  )

  entry_accounted :
      (class : PeerRouteClass) (a : Text)
      → (reported t (classify_entry tunnel class a)
          ≡ reported t class + (if is_specific a && same a t then 1 else 0))
        × ((classify_entry tunnel class a).full_tunnel
            ≡ (class.full_tunnel || not (is_empty a) && is_default a))
  unfolding classify_entry
  entry_accounted class a = pick (is_empty a) (is_default a) refl
    where
      pick :
          (e d : Bool)
          → is_empty a ≡ e
          → (reported t (
                if e
                then class
                else if d
                then record class { full_tunnel = true }
                else classify_cidr tunnel class a (parse_cidr a))
              ≡ reported t class + (if (not e && not d) && same a t then 1 else 0))
            × ((if e
                  then class
                  else if d
                  then record class { full_tunnel = true }
                  else classify_cidr tunnel class a (parse_cidr a)).full_tunnel
                ≡ (class.full_tunnel || not e && d))
      pick true d e = (omega arith, ground arith)
      pick false true e = (omega arith, ground arith)
      pick false false e = let (r, f) = cidr_accounted class a (parse_cidr a) e in (r, ground arith)

  entries_accounted :
      (class : PeerRouteClass) (ips : List Text)
      → (reported t (classify_entries tunnel class ips)
          ≡ reported t class + count_if (λ a. is_specific a && same a t) ips)
        × ((classify_entries tunnel class ips).full_tunnel
            ≡ (class.full_tunnel || has (λ a. not (is_empty a) && is_default a) ips))
  unfolding classify_entries
  entries_accounted class [] = (omega arith, ground arith)
  entries_accounted class (raw ∷ rest) =
      let next = classify_entry tunnel class (trim_space raw) in
      let (r, f) = entries_accounted next rest in
      let (r', f') = entry_accounted class (trim_space raw) in
      (omega (arith, r, r'), ground (arith, f, f'))

from_empty : (t : Text) (n : ℕ) → reported t empty_class + n ≡ n
unfolding is_empty
from_empty t n = omega arith

-- Where the tunnel network parses, every text that is neither blank nor a default route is reported,
-- as the own address, as a site subnet or as the entry of an anomaly, as often as it stands among the
-- entries, and no other text is reported; the full-tunnel flag says whether there is a default route.
pub classify_peer_routes-accounts :
    (tunnel_cidr : Text) (ips : List Text) (ip : Ip) (net : IpNet) (t : Text)
    → parse_cidr tunnel_cidr ≡ some (ip, net)
    → (reported t (classify_peer_routes tunnel_cidr ips)
        ≡ count_if (λ a. is_specific a && same a t) ips)
      × ((classify_peer_routes tunnel_cidr ips).full_tunnel
          ≡ has (λ a. not (is_empty a) && is_default a) ips)
unfolding classify_peer_routes
classify_peer_routes-accounts tunnel_cidr ips ip net t p =
    let (r, f) = entries_accounted net t empty_class ips in
    rw (p, classify_peer_routes)
      (r ∙ from_empty t (count_if (λ a. is_specific a && same a t) ips), f)
