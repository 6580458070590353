-- ===== src/Wg.antt =====
-- internal/vpn/wgfamily/provider.go: peers of a WireGuard or AmneziaWG interface, kept in the config
-- file on the host and applied to the live interface; with `ShellQuote` and the check of `WriteFile`
-- of internal/sshexec/client.go. The host behind the SSH connection is a parameter.
pub mod Rollback
pub mod Settles
pub mod Quote
pub mod Rotate
pub mod Dump
pub mod Server
use protean.Prelude.{
  ℕ, ◌+◌, List, [], ◌∷◌, ◌++◌, map, Bool, true, false, not, ◌&&◌, ◌||◌, ◌≡◌, Option, none, some,
  ltb, leb, ◌==◌, if◌then◌else◌, is_some, length,
}
use protean.Strings.{Text, codes, same, is_empty, byte_length, trim_space, split, join, replace_all}
use protean.Strings.Decimal.{itoa}
use protean.Net.Parse.{parse_cidr}
use protean.Conf.{Kv, ConfPeer, ConfFile, parse_conf, render, newline}
use protean.Conf.Options.{get_opt}
use protean.Conf.Peers.{find_peer, add_peer, remove_peer, replace_peer}

-- What the provider uses of the host. `file` is the content of the config file, where it can be
-- read; `store` is the command `cat > path <<'PROTEAN_EOF'` over a text, which puts a newline behind
-- the text; `live` is a `wg set` command. Any read may fail, and a failed `store` may have left
-- anything in the file.
pub record Host : Type 1 where
  pub World : Type 0
  pub file : World → Option Text
  pub read : World → Option Text × World
  pub store : Text → World → Bool × World
  pub live : Text → World → Bool × World
  pub save_backup : Text → World → World
  pub read-file : (w : World) (t : Text) → (read w).0 ≡ some t → file w ≡ some t
  pub file-read : (w : World) → file (read w).1 ≡ file w
  pub file-store :
      (t : Text) (w : World) → (store t w).0 ≡ true → file (store t w).1 ≡ some (t ++ newline)
  pub file-live : (cmd : Text) (w : World) → file (live cmd w).1 ≡ file w
  pub file-save_backup : (t : Text) (w : World) → file (save_backup t w) ≡ file w

-- the errors of the operations, by the step that fails
pub data Error : Type 0 where
  bad_name bad_allowed_ips read_conf key_collision already_present not_found write_conf_failed
        apply_live_failed remove_live_failed :
      Error

-- `Options`: the CLI and the interface
pub record Options : Type 0 where
  pub binary : Text
  pub interface_name : Text

-- `vpn.PeerSpec`; `extra` in the order in which Go visits the map
pub record PeerSpec : Type 0 where
  pub name : Text
  pub allowed_ips : List Text
  pub keepalive : ℕ
  pub extra : List Kv

-- `strings.TrimRight(line, "\r")`
unfoldable pub trim_right_cr : Text → Text
trim_right_cr [] = []
trim_right_cr (c ∷ s) =
    let rest = trim_right_cr s in if c == b'\r' && is_empty rest then [] else c ∷ rest

unfoldable pub has_delimiter : List Text → Bool
has_delimiter [] = false
has_delimiter (line ∷ lines) =
    same (trim_right_cr line) (codes "PROTEAN_EOF") || has_delimiter lines

-- ShellQuote
unfoldable pub shell_quote : Text → Text
shell_quote s = b'\'' ∷ (replace_all s b'\'' (codes "'\\''") ++ (b'\'' ∷ []))

-- the arguments of `applyPeerLive`, each quoted
unfoldable pub quoted_args : List Text → Text
unfolding shell_quote
quoted_args [] = []
quoted_args (a ∷ rest) = 0x20 ∷ (shell_quote a ++ quoted_args rest)

-- the command of `applyPeerLive`
unfoldable pub apply_command : Options → Text → List Text → ℕ → Text
unfolding quoted_args
apply_command o key ips keepalive =
    codes "sudo "
    ++ (o.binary
        ++ quoted_args (
            codes "set"
            ∷ o.interface_name
            ∷ codes "peer"
            ∷ key
            ∷ codes "allowed-ips"
            ∷ join ips (codes ",")
            ∷ codes "persistent-keepalive"
            ∷ itoa keepalive
            ∷ []))

-- the command that removes a peer from the live interface
unfoldable pub remove_command : Options → Text → Text
unfolding shell_quote
remove_command o key =
    codes "sudo "
    ++ (o.binary
        ++ (codes " set "
            ++ (o.interface_name ++ (codes " peer " ++ (shell_quote key ++ codes " remove")))))

-- peerOpts
unfoldable pub peer_opts : Text → PeerSpec → List Kv
peer_opts key spec =
    (record { key = codes "PublicKey"; value = key }
      ∷ record { key = codes "AllowedIPs"; value = join spec.allowed_ips (codes ", ") }
      ∷ [])
    ++ ((if ltb 0 spec.keepalive
          then record { key = codes "PersistentKeepalive"; value = itoa spec.keepalive } ∷ []
          else [])
        ++ spec.extra)

-- validateAllowedIPs
unfoldable pub all_cidrs : List Text → Bool
all_cidrs [] = true
all_cidrs (ip ∷ ips) = is_some (parse_cidr ip) && all_cidrs ips

unfoldable pub valid_allowed_ips : List Text → Bool
unfolding all_cidrs
valid_allowed_ips [] = false
valid_allowed_ips (ip ∷ ips) = all_cidrs (ip ∷ ips)

unfoldable pub no_control : Text → Bool
no_control [] = true
no_control (r ∷ rs) = not (ltb r 0x20 || r == 0x7f) && no_control rs

-- validateName
unfoldable pub valid_name : Text → Bool
unfolding no_control
valid_name name = not (is_empty name) && leb (byte_length name) 100 && no_control name

-- What an operation returns: the error, if there is one.
abbrev pub Outcome : Type 0
Outcome = Option Error

module _ (host : Host) where
  open host use {World, file, read, store, live, save_backup}

  -- WriteFile
  unfoldable pub write_file : Text → World → Bool × World
  write_file content w = if has_delimiter (split content b'\n') then (false, w) else store content w

  -- the snapshot in `writeConf`: `prev`, and the world behind the backup
  unfoldable pub snapshot : Option Text → World → Text × World
  snapshot none w = ([], w)
  snapshot (some cur) w = (cur, save_backup cur w)

  unfoldable pub write_over : ConfFile → Text × World → (Text × Bool) × World
  unfolding write_file
  write_over conf (prev, w) =
      let (written, w') = write_file (render conf) w in ((prev, written), w')

  -- writeConf: the previous content, and whether the write succeeded
  unfoldable pub write_conf : ConfFile → World → (Text × Bool) × World
  unfolding snapshot write_over
  write_conf conf w = let (cur, w') = read w in write_over conf (snapshot cur w')

  -- the roll-back of the file, where there was one; its failure is only logged
  unfoldable pub roll_back : Text → World → World
  roll_back prev w = if is_empty prev then w else (write_file prev w).1

  unfoldable pub after_live : Text → Bool × World → Outcome × World
  unfolding roll_back
  after_live prev (true, w) = (none, w)
  after_live prev (false, w) = (some apply_live_failed, roll_back prev w)

  -- what follows `writeConf`: `next` with the previous content, if the write succeeded
  unfoldable pub after_write :
      (Text → World → Outcome × World) → (Text × Bool) × World → Outcome × World
  after_write next ((prev, false), w) = (some write_conf_failed, w)
  after_write next ((prev, true), w) = next prev w

  -- writeConfAndApply
  unfoldable pub write_conf_and_apply :
      Options → ConfFile → Text → List Text → ℕ → World → Outcome × World
  unfolding write_conf after_write after_live
  write_conf_and_apply o conf key ips keepalive w =
      after_write (λ prev w'. after_live prev (live (apply_command o key ips keepalive) w'))
        (write_conf conf w)

  abbrev pub peer_of : Text → PeerSpec → ConfPeer
  peer_of key spec = record { name = spec.name; opts = peer_opts key spec }

  unfoldable pub add_to : Options → Text → PeerSpec → Error → Option Text × World → Outcome × World
  unfolding write_conf_and_apply
  add_to o key spec present (none, w) = (some read_conf, w)
  add_to o key spec present (some raw, w) =
      let conf = parse_conf raw in
      if is_some (find_peer conf key)
      then (some present, w)
      else write_conf_and_apply o (add_peer conf (peer_of key spec)) key spec.allowed_ips
          spec.keepalive w

  -- AddPeer, behind the generation of the key pair `priv`, `key`; AddConfiguredPeer differs in its
  -- error for a key that is there
  unfoldable pub add_peer_with : Error → Options → Text → PeerSpec → World → Outcome × World
  unfolding add_to
  add_peer_with present o key spec w =
      if not (valid_name spec.name)
      then (some bad_name, w)
      else if not (valid_allowed_ips spec.allowed_ips)
      then (some bad_allowed_ips, w)
      else add_to o key spec present (read w)

  abbrev pub add_new_peer : Options → Text → PeerSpec → World → Outcome × World
  add_new_peer = add_peer_with key_collision

  abbrev pub add_configured_peer : Options → Text → PeerSpec → World → Outcome × World
  add_configured_peer = add_peer_with already_present

  unfoldable pub update_in : Options → Text → PeerSpec → Option Text × World → Outcome × World
  unfolding write_conf_and_apply
  update_in o key spec (none, w) = (some read_conf, w)
  update_in o key spec (some raw, w) =
      let conf = parse_conf raw in
      if is_some (find_peer conf key)
      then write_conf_and_apply o ((replace_peer conf key (peer_of key spec)).0) key
          spec.allowed_ips spec.keepalive w
      else (some not_found, w)

  -- UpdatePeer
  unfoldable pub update_peer : Options → Text → PeerSpec → World → Outcome × World
  unfolding update_in
  update_peer o key spec w =
      if not (valid_name spec.name)
      then (some bad_name, w)
      else if not (valid_allowed_ips spec.allowed_ips)
      then (some bad_allowed_ips, w)
      else update_in o key spec (read w)

  unfoldable pub live_remove : Text → (Text × Bool) × World → Outcome × World
  live_remove cmd ((prev, false), w) = (some write_conf_failed, w)
  live_remove cmd ((prev, true), w) =
      let (removed, w') = live cmd w in (if removed then none else some remove_live_failed, w')

  unfoldable pub remove_from : Options → Text → Option Text × World → Outcome × World
  unfolding live_remove write_conf
  remove_from o key (none, w) = (some read_conf, w)
  remove_from o key (some raw, w) =
      let (conf, was_there) = remove_peer (parse_conf raw) key in
      if was_there
      then live_remove (remove_command o key) (write_conf conf w)
      else (some not_found, w)

  -- RemovePeer: the file is not rolled back where the live command fails
  unfoldable pub remove_peer_of : Options → Text → World → Outcome × World
  unfolding remove_from
  remove_peer_of o key w = remove_from o key (read w)
