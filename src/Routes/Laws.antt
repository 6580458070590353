-- ===== src/Routes/Laws.antt =====
-- Which networks `computeRoutes` returns.
use protean.Prelude.{
  List, [], ◌∷◌, ◌++◌, Bool, true, false, not, ◌&&◌, ◌||◌, ◌≡◌, refl, sym, ap, append-nil, ◌∙◌,
  arith, Option, none, some, if◌then◌else◌, Bool-cases,
}
use protean.Strings.{Text, codes, same, member}
use protean.Strings.Laws.{same_iff, member-append, IsNodup, IsNodup-snoc}
use protean.Routes.{normal, keep, add_normal, own_networks, add_route, add_routes, compute_routes}

member_one : (n t : Text) → member n (t ∷ []) ≡ same t n
unfolding member
member_one n t = ground arith

member-keep :
    (n : Text) (o : Option Text) (ns : List Text)
    → member n (keep o ns) ≡ (member n (keep o []) || member n ns)
unfolding keep member
member-keep n none ns = refl
member-keep n (some m) ns = ground arith

member-own_networks-append :
    (n : Text) (as' bs : List Text)
    → member n (own_networks (as' ++ bs))
      ≡ (member n (own_networks as') || member n (own_networks bs))
unfolding own_networks
member-own_networks-append n [] bs = unfold member in refl
member-own_networks-append n (a ∷ as') bs = ground (
  arith,
  member-keep n (normal a) (own_networks (as' ++ bs)),
  member-keep n (normal a) (own_networks as'),
  member-own_networks-append n as' bs,
)

module _ (own : List Text) where
  -- `add` extends the routes by the network of its argument, unless it is the peer's own.
  member-add_normal :
      (n : Text) (routes : List Text) (o : Option Text)
      → member n (add_normal own routes o)
        ≡ (member n routes || not (member n own) && member n (keep o []))
  unfolding add_normal keep
  member-add_normal n routes none = unfold member in ground arith
  member-add_normal n routes (some m) =
      ground (
        arith,
        same_iff m n,
        member_one n m,
        member-append n routes (m ∷ []),
        Bool-cases (same m n),
      )

  member-add_routes :
      (n : Text) (routes cs : List Text)
      → member n (add_routes own routes cs)
        ≡ (member n routes || not (member n own) && member n (own_networks cs))
  unfolding add_routes add_route own_networks
  member-add_routes n routes [] = unfold member in ground arith
  member-add_routes n routes (c ∷ cs) = ground (
    arith,
    member-add_routes n (add_normal own routes (normal c)) cs,
    member-add_normal n routes (normal c),
    member-keep n (normal c) (own_networks cs),
  )

  IsNodup-add_normal :
      (routes : List Text) (o : Option Text) → IsNodup routes → IsNodup (add_normal own routes o)
  unfolding add_normal
  IsNodup-add_normal routes none h = h
  IsNodup-add_normal routes (some m) h = pick (member m own) (member m routes) refl
    where
      pick :
          (b c : Bool) → member m routes ≡ c → IsNodup (if b || c then routes else routes ++ m ∷ [])
      pick true c e = h
      pick false true e = h
      pick false false e = IsNodup-snoc routes m h e

  IsNodup-add_routes : (routes cs : List Text) → IsNodup routes → IsNodup (add_routes own routes cs)
  unfolding add_routes add_route
  IsNodup-add_routes routes [] h = h
  IsNodup-add_routes routes (c ∷ cs) h =
      IsNodup-add_routes (add_normal own routes (normal c)) cs
        (IsNodup-add_normal routes (normal c) h)

  add_routes-append :
      (routes cs ds : List Text)
      → add_routes own (add_routes own routes cs) ds ≡ add_routes own routes (cs ++ ds)
  unfolding add_routes
  add_routes-append routes [] ds = refl
  add_routes-append routes (c ∷ cs) ds = add_routes-append (add_route own routes c) cs ds

-- The networks that are offered to a client: tunnels, site subnets, and a default route with egress.
abbrev pub offered : List Text → List Text → Bool → List Text
offered tunnels subnets egress =
    (tunnels ++ subnets) ++ (if egress then codes "0.0.0.0/0" ∷ [] else [])

compute_routes-add_routes :
    (ips tunnels subnets : List Text) (egress : Bool)
    → compute_routes ips tunnels subnets egress
      ≡ add_routes (own_networks ips) [] (offered tunnels subnets egress)
unfolding compute_routes
compute_routes-add_routes ips tunnels subnets true =
    let own = own_networks ips in
    ap (λ r. add_routes own r (codes "0.0.0.0/0" ∷ [])) (add_routes-append own [] tunnels subnets)
    ∙ add_routes-append own [] (tunnels ++ subnets) (codes "0.0.0.0/0" ∷ [])
compute_routes-add_routes ips tunnels subnets false =
    add_routes-append (own_networks ips) [] tunnels subnets
    ∙ ap (add_routes (own_networks ips) []) (sym (append-nil (tunnels ++ subnets)))

-- A network is among a client's routes exactly when it is the network of one of the texts offered
-- (tunnels, site subnets, and the default route with egress) and not one of the peer's own; no
-- network is listed twice.
pub compute_routes-member :
    (ips tunnels subnets : List Text) (egress : Bool)
    → ((n : Text)
        → member n (compute_routes ips tunnels subnets egress) ≡ (
            not (member n (own_networks ips))
            && member n (own_networks (offered tunnels subnets egress))))
      × IsNodup (compute_routes ips tunnels subnets egress)
compute_routes-member ips tunnels subnets egress =
    rw (compute_routes-add_routes ips tunnels subnets egress) (
      (λ n.
          member-add_routes (own_networks ips) n [] (offered tunnels subnets egress)
          ∙ (unfold member in refl)),
      IsNodup-add_routes (own_networks ips) [] (offered tunnels subnets egress) tt,
    )
