-- ===== src/Wg/Settles.antt =====
-- What AddPeer, AddConfiguredPeer and UpdatePeer of internal/vpn/wgfamily/provider.go leave behind
-- in the config file.
use protean.Prelude.{
  List, [], ◌∷◌, ◌++◌, ◌≡◌, ◌≢◌, refl, sym, subst, ◌∙◌, Bool, true, false, not, Option, none, some,
  if◌then◌else◌, is_some, ltb,
}
use protean.Strings.{Text, codes, split, same, join}
use protean.Strings.Decimal.{itoa}
use protean.Conf.{Kv, ConfPeer, ConfFile, parse_conf, render, newline}
use protean.Conf.Options.{get_opt, equal_fold}
use protean.Conf.Peers.{public_key, find_in-replaced, find_peer, add_peer, replace_peer}
use protean.Wg.{
  Host, Error, bad_name, bad_allowed_ips, not_found, Options, PeerSpec, has_delimiter, Outcome,
  peer_opts, write_conf_and_apply, add_to, add_peer_with, update_in, update_peer, valid_name,
  valid_allowed_ips, peer_of,
}
use protean.Wg.Rollback.{Settled, done, kept, IsReliable, read-raw, apply-Settled}

-- A peer of the config is the one of the spec, under its key.
pub record IsPeer (key : Text) (spec : PeerSpec) (p : ConfPeer) : Type 0 where
  pub named : p.name ≡ spec.name
  pub keyed : public_key p ≡ some key
  pub addressed : get_opt p.opts (codes "AllowedIPs") ≡ some (join spec.allowed_ips (codes ", "))
  pub kept_alive : get_opt p.opts (codes "PersistentKeepalive") ≡ (
      if ltb 0 spec.keepalive
      then some (itoa spec.keepalive)
      else get_opt spec.extra (codes "PersistentKeepalive"))

-- In the new config the key finds the peer of the spec, and every other key what it found before.
pub record IsUpdated (conf : ConfFile) (key : Text) (spec : PeerSpec) (new : ConfFile)
    : Type 0 where
  pub the_peer : ConfPeer
  pub described : IsPeer key spec the_peer
  pub found :
      (other : Text)
      → find_peer new other ≡ (if same key other then some the_peer else find_peer conf other)
  pub same_interface : new.interface_opts ≡ conf.interface_opts

-- The key was free, and the new config has the peer of the spec behind the peers of before.
pub record IsAdded (conf : ConfFile) (key : Text) (spec : PeerSpec) (new : ConfFile) : Type 0 where
  pub the_peer : ConfPeer
  pub described : IsPeer key spec the_peer
  pub free : find_peer conf key ≡ none
  pub appended : new.peers ≡ conf.peers ++ the_peer ∷ []
  pub same_interface : new.interface_opts ≡ conf.interface_opts

module _ (host : Host) where
  open host use {World, file, read}

  -- What an operation leaves behind, where the file held `raw`: a new config that is as it should
  -- be, or an error and a file that reads as `raw` does.
  pub data Settles (raw : Text) (Becomes : ConfFile → Type 0) (r : Outcome × World) : Type 0 where
    took_effect :
        (new : ConfFile)
        → Becomes new
        → r.0 ≡ none
        → file r.1 ≡ some (render new ++ newline)
        → Settles raw Becomes r
    was_kept :
        (e : Error) (t : Text)
        → r.0 ≡ some e
        → file r.1 ≡ some t
        → parse_conf t ≡ parse_conf raw
        → Settles raw Becomes r

  pub Settled-Settles :
      (raw : Text) (Becomes : ConfFile → Type 0) (new : ConfFile) (r : Outcome × World)
      → Becomes new
      → Settled host raw new r
      → Settles raw Becomes r
  Settled-Settles raw Becomes new r b (done e f) = took_effect new b e f
  Settled-Settles raw Becomes new r b (kept x t e f p) = was_kept x t e f p

  get_opt-keepalive :
      (b : Bool) (n : Text) (extra : List Kv)
      → get_opt
          ((if b then record { key = codes "PersistentKeepalive"; value = n } ∷ [] else [])
            ++ extra)
          (codes "PersistentKeepalive")
        ≡ (if b then some n else get_opt extra (codes "PersistentKeepalive"))
  unfolding get_opt equal_fold same
  get_opt-keepalive true n extra = refl
  get_opt-keepalive false n extra = refl

  pub peer_of-IsPeer : (key : Text) (spec : PeerSpec) → IsPeer key spec (peer_of host key spec)
  unfolding public_key get_opt equal_fold peer_opts same
  peer_of-IsPeer key spec = record {
    named = refl;
    keyed = refl;
    addressed = refl;
    kept_alive = get_opt-keepalive (ltb 0 spec.keepalive) (itoa spec.keepalive) spec.extra;
  }

  replace_peer-IsUpdated :
      (conf : ConfFile) (key : Text) (spec : PeerSpec)
      → is_some (find_peer conf key) ≡ true
      → IsUpdated conf key spec (replace_peer conf key (peer_of host key spec)).0
  unfolding replace_peer find_peer
  replace_peer-IsUpdated conf key spec there = record {
    the_peer = peer_of host key spec;
    described = peer_of-IsPeer key spec;
    found = λ other.
        find_in-replaced conf.peers key other (peer_of host key spec)
          (peer_of-IsPeer key spec).keyed
        ∙ rw there refl;
    same_interface = refl;
  }

  pub is_none : {A : Type 0} (o : Option A) → is_some o ≡ false → o ≡ none
  is_none none h = refl
  is_none (some a) h = cc

  add_peer-IsAdded :
      (conf : ConfFile) (key : Text) (spec : PeerSpec)
      → is_some (find_peer conf key) ≡ false
      → IsAdded conf key spec (add_peer conf (peer_of host key spec))
  unfolding add_peer
  add_peer-IsAdded conf key spec away = record {
    the_peer = peer_of host key spec;
    described = peer_of-IsPeer key spec;
    free = is_none (find_peer conf key) away;
    appended = refl;
    same_interface = refl;
  }

  module _ (reliable : IsReliable host) (o : Options) (raw : Text) (nonempty : raw ≢ [])
      (plain : has_delimiter (split raw b'\n') ≡ false) where
    unchanged :
        (Becomes : ConfFile → Type 0) (e : Error) (w : World)
        → file w ≡ some raw
        → Settles raw Becomes (some e, w)
    unchanged Becomes e w h = was_kept e raw refl h refl

    applied :
        (Becomes : ConfFile → Type 0) (new : ConfFile) (key : Text) (spec : PeerSpec) (w : World)
        → Becomes new
        → file w ≡ some raw
        → Settles raw Becomes
            (write_conf_and_apply host o new key spec.allowed_ips spec.keepalive w)
    applied Becomes new key spec w b h = Settled-Settles raw Becomes new _ b (
        apply-Settled host reliable o raw nonempty plain new key spec.allowed_ips spec.keepalive w
          h)

    update_in-Settles :
        (key : Text) (spec : PeerSpec) (cur : Option Text) (w : World)
        → cur ≡ some raw
        → file w ≡ some raw
        → Settles raw (IsUpdated (parse_conf raw) key spec) (update_in host o key spec (cur, w))
    update_in-Settles key spec none w e h = cc
    update_in-Settles key spec (some raw') w e h =
        let same_raw : raw' ≡ raw = cc in
        subst
          (λ t.
            Settles raw (IsUpdated (parse_conf raw) key spec)
              (update_in host o key spec (some t, w)))
          (sym same_raw) (unfold update_in in pick (is_some (find_peer (parse_conf raw) key)) refl)
      where
        new : ConfFile
        new = (replace_peer (parse_conf raw) key (peer_of host key spec)).0

        pick :
            (b : Bool)
            → is_some (find_peer (parse_conf raw) key) ≡ b
            → Settles raw (IsUpdated (parse_conf raw) key spec) (
                if b
                then write_conf_and_apply host o new key spec.allowed_ips spec.keepalive w
                else (some not_found, w))
        pick true there =
            applied _ new key spec w (replace_peer-IsUpdated (parse_conf raw) key spec there) h
        pick false there = unchanged _ not_found w h

    add_to-Settles :
        (key : Text) (spec : PeerSpec) (present : Error) (cur : Option Text) (w : World)
        → cur ≡ some raw
        → file w ≡ some raw
        → Settles raw (IsAdded (parse_conf raw) key spec) (add_to host o key spec present (cur, w))
    add_to-Settles key spec present none w e h = cc
    add_to-Settles key spec present (some raw') w e h =
        let same_raw : raw' ≡ raw = cc in
        subst
          (λ t.
            Settles raw (IsAdded (parse_conf raw) key spec)
              (add_to host o key spec present (some t, w)))
          (sym same_raw) (unfold add_to in pick (is_some (find_peer (parse_conf raw) key)) refl)
      where
        new : ConfFile
        new = add_peer (parse_conf raw) (peer_of host key spec)

        pick :
            (b : Bool)
            → is_some (find_peer (parse_conf raw) key) ≡ b
            → Settles raw (IsAdded (parse_conf raw) key spec) (
                if b
                then (some present, w)
                else write_conf_and_apply host o new key spec.allowed_ips spec.keepalive w)
        pick true there = unchanged _ present w h
        pick false there =
            applied _ new key spec w (add_peer-IsAdded (parse_conf raw) key spec there) h

    -- both operations, behind their checks of the name and the addresses
    checked :
        (Becomes : ConfFile → Type 0) (name addresses : Bool) (r : Outcome × World) (w : World)
        → file w ≡ some raw
        → Settles raw Becomes r
        → Settles raw Becomes (
            if not name
            then (some bad_name, w)
            else if not addresses
            then (some bad_allowed_ips, w)
            else r)
    checked Becomes false addresses r w h s = unchanged Becomes bad_name w h
    checked Becomes true false r w h s = unchanged Becomes bad_allowed_ips w h
    checked Becomes true true r w h s = s

    -- Where every read of the config file succeeds and the host stores what it is told to store, and
    -- the file is not empty and holds no line with the heredoc's delimiter: `UpdatePeer` succeeds and
    -- the file holds a config in which the key finds the peer with the name, the addresses and the
    -- keepalive of the spec, while every other key finds what it did and the options of the interface
    -- are those of before, or it returns an error and the file reads as before.
    pub update_peer-Settles :
        (key : Text) (spec : PeerSpec) (w : World)
        → file w ≡ some raw
        → Settles raw (IsUpdated (parse_conf raw) key spec) (update_peer host o key spec w)
    update_peer-Settles key spec w h =
        unfold update_peer in
        checked _ (valid_name spec.name) (valid_allowed_ips spec.allowed_ips)
          (update_in host o key spec (read w)) w h
          (update_in-Settles key spec (read w).0 (read w).1 (read-raw host reliable raw w h)
            (host.file-read w ∙ h))

    -- Under the same conditions: adding a peer succeeds, its key was free, and the file holds the
    -- config with the peer of that key and the name, the addresses and the keepalive of the spec
    -- behind the peers of before, or it returns an error and the file reads as before.
    pub add_peer_with-Settles :
        (key : Text) (spec : PeerSpec) (present : Error) (w : World)
        → file w ≡ some raw
        → Settles raw (IsAdded (parse_conf raw) key spec) (add_peer_with host present o key spec w)
    add_peer_with-Settles key spec present w h =
        unfold add_peer_with in
        checked _ (valid_name spec.name) (valid_allowed_ips spec.allowed_ips)
          (add_to host o key spec present (read w)) w h
          (add_to-Settles key spec present (read w).0 (read w).1 (read-raw host reliable raw w h)
            (host.file-read w ∙ h))
