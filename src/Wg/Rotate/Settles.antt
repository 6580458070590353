-- ===== src/Wg/Rotate/Settles.antt =====
-- What RotatePeerKey of internal/vpn/wgfamily/provider.go leaves behind in the config file.
use protean.Prelude.{
  [], ◌∷◌, ◌++◌, map, ◌≡◌, ◌≢◌, refl, sym, ap, subst, ◌∙◌, Bool, true, false, Option, none, some,
  if◌then◌else◌, is_some, ltb,
}
use protean.Strings.{Text, codes, split, trim_space, is_empty, join}
use protean.Strings.Decimal.{itoa}
use protean.Conf.{ConfPeer, ConfFile, parse_conf, render, newline}
use protean.Conf.Options.{get_opt}
use protean.Conf.Peers.{public_key, without, find_peer, add_peer, remove_peer}
use protean.Conf.Lines.{parse_conf-newline}
use protean.Wg.{
  Host, key_collision, remove_live_failed, Options, has_delimiter, remove_command, peer_of,
  after_write, write_conf,
}
use protean.Wg.Rollback.{
  Settled, kept, IsReliable, read-raw, live-Settled, conf-Settled, file-roll_back,
}
use protean.Wg.Settles.{Settles, was_kept, Settled-Settles, peer_of-IsPeer, is_none}
use protean.Wg.Rotate.{
  kept_ips, kept_keepalive, kept_spec, rotated, after_removal, rotate_live, rotate_peer, rotate_in,
  rotate_peer_key,
}

module _ (host : Host) where
  open host use {World, file, read, live}

  -- The addresses as they are written anew: with a comma and a blank between them.
  abbrev pub respaced : Option Text → Text
  respaced none = []
  respaced (some v) = join (map trim_space (split v b',')) (codes ", ")

  -- The new key was free, the peer of the old key is taken out, and behind the others stands, under
  -- the new key, a peer with the name, the addresses and the keepalive of the old one.
  pub record IsRotated (conf : ConfFile) (old_key key : Text) (old : ConfPeer) (new : ConfFile)
      : Type 0 where
    pub the_peer : ConfPeer
    pub named : the_peer.name ≡ old.name
    pub keyed : public_key the_peer ≡ some key
    pub addressed :
        get_opt the_peer.opts (codes "AllowedIPs")
        ≡ some (respaced (get_opt old.opts (codes "AllowedIPs")))
    pub kept_alive : get_opt the_peer.opts (codes "PersistentKeepalive") ≡ (
        let seconds = kept_keepalive (get_opt old.opts (codes "PersistentKeepalive")) in
        if ltb 0 seconds then some (itoa seconds) else none)
    pub free : find_peer conf key ≡ none
    pub moved : new.peers ≡ without conf.peers old_key ++ the_peer ∷ []
    pub same_interface : new.interface_opts ≡ conf.interface_opts

  join-kept_ips : (v : Option Text) → join (kept_ips v) (codes ", ") ≡ respaced v
  unfolding kept_ips join split is_empty trim_space
  join-kept_ips none = refl
  join-kept_ips (some []) = refl
  join-kept_ips (some (c ∷ v)) = refl

  kept_spec-IsRotated :
      (conf : ConfFile) (old_key key : Text) (old : ConfPeer)
      → is_some (find_peer conf key) ≡ false
      → IsRotated conf old_key key old (rotated host conf old_key key (kept_spec old))
  unfolding rotated add_peer remove_peer kept_spec
  kept_spec-IsRotated conf old_key key old away =
      let p = peer_of-IsPeer host key (kept_spec old) in
      record {
        the_peer = peer_of host key (kept_spec old);
        named = p.named;
        keyed = p.keyed;
        addressed = p.addressed ∙ ap some (join-kept_ips (get_opt old.opts (codes "AllowedIPs")));
        kept_alive = p.kept_alive ∙ no_extra;
        free = is_none host (find_peer conf key) away;
        moved = refl;
        same_interface = refl;
      }
    where
      no_extra :
          (if ltb 0 (kept_spec old).keepalive
            then some (itoa (kept_spec old).keepalive)
            else get_opt [] (codes "PersistentKeepalive"))
          ≡ (if ltb 0 (kept_spec old).keepalive
              then some (itoa (kept_spec old).keepalive)
              else none)
      no_extra = unfold get_opt in refl

  module _ (reliable : IsReliable host) (o : Options) (raw : Text) (nonempty : raw ≢ [])
      (plain : has_delimiter (split raw b'\n') ≡ false) where
    removal-Settled :
        (new : ConfFile) (cmd : Text) (b : Bool) (w : World)
        → file w ≡ some (render new ++ newline)
        → Settled host raw new (after_removal host cmd raw (b, w))
    removal-Settled new cmd true w h =
        unfold after_removal in
        live-Settled host reliable o raw nonempty plain new cmd (live cmd w).0 (live cmd w).1
          (host.file-live cmd w ∙ h)
    removal-Settled new cmd false w h =
        unfold after_removal in
        kept remove_live_failed (raw ++ newline) refl
          (file-roll_back host reliable raw w nonempty plain) (parse_conf-newline raw)

    -- Where every read of the config file succeeds and the host stores what it is told to store, the
    -- file is not empty and holds no line with the heredoc's delimiter, and the old key is that of a
    -- peer: the rotation succeeds, the new key was free, and the file holds a config in which a peer
    -- under the new key, with the name, the addresses and the keepalive of the old one, stands behind
    -- the other peers, or it returns an error and the file reads as before.
    pub rotate_peer_key-Settles :
        (old_key key : Text) (old : ConfPeer) (w : World)
        → file w ≡ some raw
        → find_peer (parse_conf raw) old_key ≡ some old
        → Settles host raw
            (IsRotated (parse_conf raw) old_key key old)
            (rotate_peer_key host o old_key key w)
    rotate_peer_key-Settles old_key key old w h found =
        unfold rotate_peer_key in
        with_read (read w).0 (read w).1 (read-raw host reliable raw w h) (host.file-read w ∙ h)
      where
        Becomes : ConfFile → Type 0
        Becomes = IsRotated (parse_conf raw) old_key key old

        new : ConfFile
        new = rotated host (parse_conf raw) old_key key (kept_spec old)

        pick :
            (b : Bool) (w' : World)
            → is_some (find_peer (parse_conf raw) key) ≡ b
            → file w' ≡ some raw
            → Settles host raw Becomes (
                if b
                then (some key_collision, w')
                else after_write host
                    (rotate_live host o old_key key (kept_spec old))
                    (write_conf host new w'))
        pick true w' e h' = was_kept key_collision raw refl h' refl
        pick false w' e h' =
            Settled-Settles host raw Becomes new _
              (kept_spec-IsRotated (parse_conf raw) old_key key old e)
              (conf-Settled host reliable o raw nonempty plain new
                (rotate_live host o old_key key (kept_spec old))
                (λ w'' h''.
                  unfold rotate_live in
                  removal-Settled new _ (live (remove_command o old_key) w'').0
                    (live (remove_command o old_key) w'').1
                    (host.file-live (remove_command o old_key) w'' ∙ h''))
                w' h')

        with_peer :
            (p : Option ConfPeer) (w' : World)
            → p ≡ some old
            → file w' ≡ some raw
            → Settles host raw Becomes (rotate_peer host o old_key key (parse_conf raw) p w')
        with_peer none w' e h' = cc
        with_peer (some old') w' e h' =
            let same_peer : old' ≡ old = cc in
            subst
              (λ p.
                Settles host raw Becomes
                  (rotate_peer host o old_key key (parse_conf raw) (some p) w'))
              (sym same_peer)
              (unfold rotate_peer in pick (is_some (find_peer (parse_conf raw) key)) w' refl h')

        with_read :
            (cur : Option Text) (w' : World)
            → cur ≡ some raw
            → file w' ≡ some raw
            → Settles host raw Becomes (rotate_in host o old_key key (cur, w'))
        with_read none w' e h' = cc
        with_read (some raw') w' e h' =
            let same_raw : raw' ≡ raw = cc in
            subst (λ t. Settles host raw Becomes (rotate_in host o old_key key (some t, w')))
              (sym same_raw)
              (unfold rotate_in in with_peer (find_peer (parse_conf raw) old_key) w' found h')
