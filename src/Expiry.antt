-- ===== src/Expiry.antt =====
-- internal/api/expiry.go, with disablePeer of internal/api/handlers_peers.go and the queries of
-- internal/store/expiry.go and internal/store/disabled.go: peers whose time is up are disabled. The
-- providers are an interface, over a state of the hosts; the logging and the status cache are left out.
pub mod Sweep
use protean.Prelude.{
  ℕ, suc, List, [], ◌∷◌, Bool, true, false, not, ◌&&◌, Option, none, some, leb, if◌then◌else◌,
}
use protean.Prelude.Effects.{
  Except, ok, failed, Action, pure, raise, after, ◌>>=◌, ◌>>◌, from_option,
}
use protean.Strings.{Text, same, join, codes}

-- vpn.Peer, as far as it is kept for a disabled one
pub record Peer : Type 0 where
  pub public_key : Text
  pub name : Text
  pub allowed_ips : List Text
  pub keepalive : ℕ

-- store.PeerExpiry and store.DisabledPeer
pub record PeerExpiry : Type 0 where
  pub provider : Text
  pub peer_id : Text
  pub expires_at : ℕ

pub record DisabledPeer : Type 0 where
  pub provider : Text
  pub public_key : Text
  pub name : Text
  pub allowed_ips : Text
  pub keepalive : ℕ

-- the registry and the providers in it: whether one is known and whether it is cert-based, ListPeers,
-- where `none` is an error, and RemovePeer, whether it succeeded and the hosts after it
pub record Providers (Host : Type 0) : Type 0 where
  pub known : Text → Bool
  pub cert_based : Text → Bool
  pub list_peers : Text → Host → Option (List Peer)
  pub remove_peer : Text → Text → Host → Bool × Host

pub data SweepError : Type 0 where
  store_failed unknown_provider list_failed peer_not_found remove_failed : SweepError

-- the two tables, the number of queries made, and the hosts
pub record State (Host : Type 0) : Type 0 where
  pub expiries : List PeerExpiry
  pub disabled : List DisabledPeer
  pub calls : ℕ
  pub host : Host

-- the loop of findPeer
unfoldable pub find_key : Text → List Peer → Option Peer
find_key key [] = none
find_key key (p ∷ ps) = if same p.public_key key then some p else find_key key ps

unfoldable pub drop_expiry : Text → Text → List PeerExpiry → List PeerExpiry
drop_expiry provider id [] = []
drop_expiry provider id (e ∷ es) =
    let rest = drop_expiry provider id es in
    if same e.provider provider && same e.peer_id id then rest else e ∷ rest

unfoldable pub drop_disabled : Text → Text → List DisabledPeer → List DisabledPeer
drop_disabled provider key [] = []
drop_disabled provider key (d ∷ ds) =
    let rest = drop_disabled provider key ds in
    if same d.provider provider && same d.public_key key then rest else d ∷ rest

-- `WHERE expires_at <= now()`
unfoldable pub due_at : ℕ → List PeerExpiry → List PeerExpiry
due_at now [] = []
due_at now (e ∷ es) = let rest = due_at now es in if leb e.expires_at now then e ∷ rest else rest

abbrev pub disabled_of : Text → Text → Peer → DisabledPeer
disabled_of provider key p = record {
  provider = provider;
  public_key = key;
  name = p.name;
  allowed_ips = join p.allowed_ips (codes ",");
  keepalive = p.keepalive;
}

module _ {Host : Type 0} (fails : ℕ → Bool) (providers : Providers Host) where
  open providers use {known, cert_based, list_peers, remove_peer}

  abbrev pub Do : Type 0 → Type 0
  Do A = Action (State Host) SweepError A

  -- a statement
  unfoldable pub change : (State Host → State Host) → Do (Unit {0})
  change f s =
      let s' = record s { calls = suc s.calls } in
      if fails s.calls then (failed store_failed, s') else (ok tt, f s')

  unfoldable pub removal : Bool × Host → State Host → Except SweepError (Unit {0}) × State Host
  removal (true, h) s = (ok tt, record s { host = h })
  removal (false, h) s = (failed remove_failed, record s { host = h })

  unfoldable pub remove : Text → Text → Do (Unit {0})
  unfolding removal
  remove provider key s = removal (remove_peer provider key s.host) s

  unfoldable pub find_among : Text → Option (List Peer) → Do Peer
  unfolding find_key
  find_among key none = raise list_failed
  find_among key (some peers) = from_option (find_key key peers) peer_not_found

  -- findPeer
  unfoldable pub find_peer : Text → Text → Do Peer
  unfolding find_among
  find_peer provider key s = find_among key (list_peers provider s.host) s

  -- SaveDisabledPeer
  unfoldable pub save_disabled : DisabledPeer → Do (Unit {0})
  unfolding change drop_disabled
  save_disabled d =
      change (λ s. record s { disabled = d ∷ drop_disabled d.provider d.public_key s.disabled })

  -- a failed removal takes the saved row back, and passes its error on
  unfoldable pub take_back :
      Text
      → Text
      → Except SweepError (Unit {0}) × State Host
      → Except SweepError (Unit {0}) × State Host
  unfolding change drop_disabled
  take_back provider key (ok x, s) = (ok x, s)
  take_back provider key (failed e, s) =
      (failed e, (change (λ z. record z { disabled = drop_disabled provider key z.disabled }) s).1)

  -- disablePeer
  unfoldable pub disable_peer : Text → Text → Do (Unit {0})
  unfolding remove find_peer save_disabled take_back
  disable_peer provider key =
      if not (known provider)
      then raise unknown_provider
      else if cert_based provider
      then remove provider key
      else (do
        target ← find_peer provider key
        save_disabled (disabled_of provider key target)
        λ s. take_back provider key (remove provider key s))

  -- the end of the loop's body: an error keeps the row
  unfoldable pub clear_row : PeerExpiry → Except SweepError (Unit {0}) × State Host → State Host
  unfolding change drop_expiry
  clear_row e (failed _, s) = s
  clear_row e (ok _, s) =
      (change (λ z. record z { expiries = drop_expiry e.provider e.peer_id z.expiries }) s).1

  -- the loop over the peers that are due
  unfoldable pub sweep_each : List PeerExpiry → State Host → State Host
  unfolding disable_peer clear_row
  sweep_each [] s = s
  sweep_each (e ∷ es) s = sweep_each es (clear_row e (disable_peer e.provider e.peer_id s))

  -- sweepExpired
  unfoldable pub sweep_expired : ℕ → State Host → State Host
  unfolding sweep_each due_at
  sweep_expired now s =
      let s' = record s { calls = suc s.calls } in
      if fails s.calls then s' else sweep_each (due_at now s.expiries) s'
