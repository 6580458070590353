-- ===== src/Lib.antt =====
-- Protean, a control panel for VPN servers: its address allocation, its WireGuard config files and
-- peer operations, its routes, its web console, its accounts and their login guard, and the
-- rotation of its secret key.
--
-- The panel keeps its settings in a database and the state of each VPN in files on the hosts,
-- which it reaches over SSH. A request for a new peer takes an address from the tunnel's network,
-- after which the provider rewrites the host's config file and tells the running interface. The
-- mesh works out which networks a client should reach through its tunnel. A login passes the guard
-- first, and a console session is opened with a ticket.
--
-- The files, and the code they are about:
--   Ipam      internal/vpn/ipam.go: NextFreeIP and NextFreeIPInRange are `next_free_ip` and
--             `next_free_ip_in_range`, incIP is `inc_ip`
--   Overlap   internal/vpn/overlap.go: CIDROverlap and CheckNoOverlap
--   Classify  internal/vpn/classify.go: ClassifyPeerRoutes
--   Routes    internal/api/mesh.go: computeRoutes and tunnelNetwork
--   Conf      internal/vpn/wgfamily/conf.go: ParseConf and Render, with the options in
--             Conf/Options, the peers in Conf/Peers and the networking rules in Conf/Managed
--   Wg        internal/vpn/wgfamily/provider.go: AddPeer, AddConfiguredPeer, UpdatePeer, RemovePeer
--             and, in Wg/Rotate, RotatePeerKey; Wg/Server has the configs that UpdateServerConfig and
--             EnsureServer write and the list of ListPeers, Wg/Dump is
--             internal/vpn/wgfamily/dump.go; WriteFile and ShellQuote are those of
--             internal/sshexec/client.go
--   Accounts  internal/auth/manager.go with internal/auth/totp.go, the queries of
--             internal/store/users.go and internal/store/sessions.go in Accounts/Store, and the
--             handlers of internal/api/api_users.go in Accounts/Handlers: Login is `login`,
--             Authenticate `authenticate`, apiUsersDelete `users_delete`, and so on
--   Rotation  internal/keyrotate/keyrotate.go: Rotate is `rotate`, rotateColumn `rotate_column`,
--             Detect `detect`
--   Sealing   internal/auth/crypto.go: Seal and Open
--   Expiry    internal/api/expiry.go: sweepExpired, with disablePeer and findPeer of
--             internal/api/handlers_peers.go, internal/store/expiry.go and
--             internal/store/disabled.go
--   PeerId    internal/api/peerid.go: encodePeerID and decodePeerID
--   Console   internal/console/hub.go: the hub of tickets and sessions
--   Guard     internal/auth/bruteforce.go, and its queries in internal/store/login_security.go
--   Firewall  internal/firewall/render.go and internal/firewall/baseline.go
--   Password  internal/auth/password_policy.go: ValidatePassword
--   Pending   internal/auth/pending.go: Issue and Verify
--   Oidc      internal/auth/oidcstate.go and internal/auth/csrf.go: Issue, Verify, Valid and Match
--   Status    internal/vpn/openvpn/status.go: ParseStatus
--   Net       what the code uses of Go's package net: addresses, networks, their texts
--   Strings   what the code uses of Go's packages strings and strconv
--   Prelude   shared helpers
--   Tests     the theorems at concrete inputs
--
-- A text is the list of its character codes, an address the list of its bytes. A Go map is a
-- function from its key, or a list where its order of insertion is what the code keeps beside it.
-- Numbers are natural numbers; a byte wraps at 256. The scan for a free address runs on fuel of
-- one more than the number of addresses of the network: each round moves to the next address, so
-- that many leave the network, and Ipam/Total shows that the fuel never runs out.
--
-- The host behind SSH is the parameter `Host` of Wg: its commands change its state, a read may
-- fail, and a command that fails may have left anything in the file it writes. The guard's
-- floating-point numbers are the parameter `Floats`, the classes of characters the parameter
-- `Classes` of Password, the encoding and the signature of a token the parameter `Codec` of
-- Pending, password hashes and one-time codes the parameter `Crypto` of Accounts, the cipher the
-- parameter `Encryptor` of Sealing, the registry of providers the parameter `Providers` of Expiry,
-- base64 the parameter `Base64` of PeerId. The guard's database answers every query. Of the
-- accounts, the expiry of peers and the key rotation, any query may fail: whether one does is a
-- function of the number of queries before it, and a query that fails has changed nothing, but for
-- a commit, which may fail after it took effect. The random token of a console ticket and a new
-- key pair are arguments. The order in which Go visits a map is the order of the list that stands
-- for it.
--
-- Not modelled: the HTTP handlers apart from those that change accounts, the database store apart
-- from the queries of the guard, the accounts, the expiry and the key rotation, the clients for
-- LDAP and OIDC, the workers of the mesh, the providers for OpenVPN (its status file apart), IKEv2
-- and Xray, certificates, notifications, and the frontend.
pub mod Prelude
pub mod Strings
pub mod Net
pub mod Ipam
pub mod Overlap
pub mod Classify
pub mod Routes
pub mod Conf
pub mod Accounts
pub mod PeerId
pub mod Expiry
pub mod Rotation
pub mod Sealing
pub mod Wg
pub mod Console
pub mod Guard
pub mod Firewall
pub mod Password
pub mod Pending
pub mod Oidc
pub mod Status
pub mod Tests
