-- ===== src/Routes.antt =====
-- `computeRoutes` and `tunnelNetwork` of internal/api/mesh.go: the networks that a client routes
-- into its tunnel.
pub mod Laws
use protean.Prelude.{
  List, [], ◌∷◌, ◌++◌, Bool, true, false, ◌||◌, Option, none, some, ◌>>=◌, if◌then◌else◌,
}
use protean.Strings.{Text, codes, member}
use protean.Net.{IpNet}
use protean.Net.Parse.{parse_cidr}
use protean.Net.Print.{net_string}
use protean.Ipam.{first_cidr}

-- `ipnet.String()` of a text that `ParseCIDR` accepts
unfoldable pub normal : Text → Option Text
normal cidr = do (ip, net) ← parse_cidr cidr; some (net_string net)

-- tunnelNetwork
unfoldable pub tunnel_network : Text → Option Text
tunnel_network address = normal (first_cidr address)

-- the set `own`
unfoldable pub keep : Option Text → List Text → List Text
keep none ns = ns
keep (some n) ns = n ∷ ns

unfoldable pub own_networks : List Text → List Text
unfolding keep
own_networks [] = []
own_networks (a ∷ rest) = keep (normal a) (own_networks rest)

-- The closure `add`, behind its call of `ParseCIDR`. The set `seen` holds what `routes` holds, so
-- one list stands for both.
unfoldable pub add_normal : List Text → List Text → Option Text → List Text
add_normal own routes none = routes
add_normal own routes (some n) =
    if member n own || member n routes then routes else routes ++ n ∷ []

unfoldable pub add_route : List Text → List Text → Text → List Text
unfolding add_normal
add_route own routes cidr = add_normal own routes (normal cidr)

unfoldable pub add_routes : List Text → List Text → List Text → List Text
unfolding add_route
add_routes own routes [] = routes
add_routes own routes (c ∷ cs) = add_routes own (add_route own routes c) cs

-- computeRoutes
unfoldable pub compute_routes :
    (allowed_ips tunnel_cidrs subnet_cidrs : List Text) → (egress : Bool) → List Text
unfolding own_networks add_routes
compute_routes allowed_ips tunnel_cidrs subnet_cidrs egress =
    let own = own_networks allowed_ips in
    let routes = add_routes own (add_routes own [] tunnel_cidrs) subnet_cidrs in
    if egress then add_route own routes (codes "0.0.0.0/0") else routes
