-- ===== src/Wg/Rotate.antt =====
-- internal/vpn/wgfamily/provider.go: RotatePeerKey.
pub mod Settles
use protean.Prelude.{
  ℕ, List, [], ◌∷◌, ◌++◌, map, ◌≡◌, ◌≢◌, refl, sym, ap, subst, ◌∙◌, Bool, true, false, not, Option,
  none, some, arith, if◌then◌else◌, is_some, ltb, ◌+◌, ◌-◌, ◌*◌, ◌==◌,
}
use protean.Strings.{Text, codes, split, trim_space, is_empty, same, join}
use protean.Strings.Laws.{same_iff}
use protean.Strings.Decimal.{is_digit, itoa}
use protean.Conf.{ConfPeer, ConfFile, parse_conf, render, newline}
use protean.Conf.Options.{get_opt, equal_fold}
use protean.Conf.Peers.{
  public_key, has_key, find_in, without, AreDistinct, find_in-append, find_in-without, find_peer,
  add_peer, remove_peer,
}
use protean.Conf.Lines.{parse_conf-newline}
use protean.Wg.{
  Host, read_conf, key_collision, not_found, remove_live_failed, Options, PeerSpec, has_delimiter,
  Outcome, apply_command, remove_command, peer_of, peer_opts, roll_back, after_live, after_write,
  write_conf,
}
use protean.Wg.Settles.{peer_of-IsPeer}

-- the addresses of a peer, as its config has them
unfoldable pub kept_ips : Option Text → List Text
kept_ips none = []
kept_ips (some v) = if is_empty v then [] else map trim_space (split v b',')

abbrev greatest_int : ℕ
greatest_int = 9_223_372_036_854_775_807

abbrev greatest_uint : ℕ
greatest_uint = 18_446_744_073_709_551_615

-- the digits of `strconv.Atoi`, which gives up at the first that passes 64 bits
unfoldable pub int_digits : Text → ℕ → ℕ
int_digits [] n = if ltb greatest_int n then greatest_int else n
int_digits (c ∷ s) n =
    let m = n * 10 + (c - b'0') in
    let rest = int_digits s m in
    if not (is_digit c) then 0 else if ltb greatest_uint m then greatest_int else rest

-- the number that `strconv.Atoi` gives, whatever its error; a number below 0 counts as 0
unfoldable pub atoi : Text → ℕ
unfolding int_digits
atoi [] = 0
atoi (c ∷ s) = let rest = int_digits s 0 in if c == b'+' then rest else int_digits (c ∷ s) 0

unfoldable pub kept_keepalive : Option Text → ℕ
unfolding atoi
kept_keepalive none = 0
kept_keepalive (some v) = atoi v

-- the spec of the peer with its new key
unfoldable pub kept_spec : ConfPeer → PeerSpec
unfolding kept_ips kept_keepalive
kept_spec old = record {
  name = old.name;
  allowed_ips = kept_ips (get_opt old.opts (codes "AllowedIPs"));
  keepalive = kept_keepalive (get_opt old.opts (codes "PersistentKeepalive"));
  extra = [];
}

module _ (host : Host) where
  open host use {World, file, read, live}

  -- the config with the peer under its new key
  unfoldable pub rotated : ConfFile → Text → Text → PeerSpec → ConfFile
  rotated conf old_key key spec = add_peer ((remove_peer conf old_key).0) (peer_of host key spec)

  -- behind the removal of the old peer from the interface
  unfoldable pub after_removal : Text → Text → Bool × World → Outcome × World
  unfolding after_live
  after_removal cmd prev (true, w) = after_live host prev (live cmd w)
  after_removal cmd prev (false, w) = (some remove_live_failed, roll_back host prev w)

  -- the live commands of the rotation
  unfoldable pub rotate_live : Options → Text → Text → PeerSpec → Text → World → Outcome × World
  unfolding after_removal
  rotate_live o old_key key spec prev w =
      after_removal (apply_command o key spec.allowed_ips spec.keepalive) prev
        (live (remove_command o old_key) w)

  unfoldable pub rotate_peer :
      Options → Text → Text → ConfFile → Option ConfPeer → World → Outcome × World
  unfolding kept_spec rotated rotate_live write_conf after_write
  rotate_peer o old_key key conf none w = (some not_found, w)
  rotate_peer o old_key key conf (some old) w =
      let spec = kept_spec old in
      if is_some (find_peer conf key)
      then (some key_collision, w)
      else after_write host (rotate_live o old_key key spec)
          (write_conf host (rotated conf old_key key spec) w)

  unfoldable pub rotate_in : Options → Text → Text → Option Text × World → Outcome × World
  unfolding rotate_peer
  rotate_in o old_key key (none, w) = (some read_conf, w)
  rotate_in o old_key key (some raw, w) =
      let conf = parse_conf raw in rotate_peer o old_key key conf (find_peer conf old_key) w

  -- RotatePeerKey, where the new key pair has the public key `key`
  unfoldable pub rotate_peer_key : Options → Text → Text → World → Outcome × World
  unfolding rotate_in
  rotate_peer_key o old_key key w = rotate_in o old_key key (read w)

  peer_of_alone :
      (key other : Text) (spec : PeerSpec)
      → find_in (peer_of host key spec ∷ []) other
        ≡ (if same key other then some (peer_of host key spec) else none)
  unfolding find_in
  peer_of_alone key other spec = rw ((peer_of-IsPeer host key spec).keyed) (unfold has_key in refl)

  -- In a config without two peers of one key, where nobody has the new key: after the rotation the
  -- new key finds the peer, the old key finds none, and every other key is found as before.
  pub find_peer-rotated :
      (conf : ConfFile) (old_key key other : Text) (spec : PeerSpec)
      → AreDistinct conf.peers
      → find_peer conf key ≡ none
      → find_peer (rotated conf old_key key spec) other ≡ (
          if same key other
          then some (peer_of host key spec)
          else if same old_key other
          then none
          else find_peer conf other)
  unfolding rotated find_peer add_peer remove_peer
  find_peer-rotated conf old_key key other spec d free =
      let kept_peers = without conf.peers old_key in
      find_in-append kept_peers (peer_of host key spec) other
      ∙ ground (
        arith,
        peer_of_alone key other spec,
        find_in-without conf.peers old_key other d,
        free_at (same key other) refl,
      )
    where
      free_at : (b : Bool) → same key other ≡ b → b ≡ true → find_in conf.peers other ≡ none
      free_at true e t = subst (λ k. find_in conf.peers k ≡ none) ((same_iff key other).0 e) free
      free_at false e t = cc
