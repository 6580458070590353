-- ===== src/Tests/Peers.antt =====
-- The peer operations against a concrete host, and a quoted argument.
use protean.Prelude.{
  List, [], ◌∷◌, ◌++◌, map, true, false, ◌≡◌, ◌≢◌, refl, none, some, if◌then◌else◌,
}
use protean.Strings.{Text, codes, same, split}
use protean.Conf.{ConfPeer, ConfFile, parse_conf, newline}
use protean.Conf.Peers.{find_in, find_peer, AreDistinct}
use protean.Wg.Rotate.{rotated, rotate_peer_key, find_peer-rotated}
use protean.Wg.Rotate.Settles.{IsRotated, rotate_peer_key-Settles}
use protean.Wg.{
  Host, Options, PeerSpec, already_present, has_delimiter, shell_quote, peer_of, update_peer,
  add_peer_with,
}
use protean.Wg.Rollback.{IsReliable}
use protean.Wg.Settles.{Settles, IsUpdated, IsAdded, update_peer-Settles, add_peer_with-Settles}
use protean.Wg.Dump.{DumpPeer, ok, parse_peers}
use protean.Wg.Dump.Peers.{line_keys, parse_peers-keys}
use protean.Wg.Quote.{outside, read_word, read_word-shell_quote}

-- A host that does what it is asked, but for the live commands, and keeps no backup.
abbrev host : Host
host = record {
  World = Text;
  file = λ w. some w;
  read = λ w. (some w, w);
  store = λ t w. (true, t ++ newline);
  live = λ cmd w. (false, w);
  save_backup = λ t w. w;
  read-file = λ w t e. e;
  file-read = λ w. refl;
  file-store = λ t w e. refl;
  file-live = λ cmd w. refl;
  file-save_backup = λ t w. refl;
}

abbrev reliable : IsReliable host
reliable = record { reads = λ w. refl; stores = λ t w. refl }

abbrev o : Options
o = record { binary = codes "wg"; interface_name = codes "wg0" }

abbrev raw : Text
raw =
    codes "[Interface]\nListenPort = 51820\n\n[Peer]\nPublicKey = aaa=\nAllowedIPs = 10.9.0.2/32\n"

abbrev spec : PeerSpec
spec = record {
  name = codes "phone";
  allowed_ips = codes "10.9.0.3/32" ∷ [];
  keepalive = 25;
  extra = [];
}

plain : has_delimiter (split raw b'\n') ≡ false
unfolding has_delimiter split protean.Strings.same protean.Wg.trim_right_cr
plain = refl

nonempty : raw ≢ []
nonempty e = cc

update_example :
    Settles host raw
      (IsUpdated (parse_conf raw) (codes "aaa=") spec)
      (update_peer host o (codes "aaa=") spec raw)
update_example = update_peer-Settles host reliable o raw nonempty plain (codes "aaa=") spec raw refl

add_example :
    Settles host raw
      (IsAdded (parse_conf raw) (codes "bbb=") spec)
      (add_peer_with host already_present o (codes "bbb=") spec raw)
add_example =
    add_peer_with-Settles host reliable o raw nonempty plain (codes "bbb=") spec already_present raw
      refl

quote_example :
    read_word outside (shell_quote (codes "it's; rm -rf /") ++ (0x20 ∷ codes "x"))
    ≡ some (codes "it's; rm -rf /", 0x20 ∷ codes "x")
quote_example = read_word-shell_quote (codes "it's; rm -rf /") (codes "x")

abbrev laptop : ConfPeer
laptop = record {
  name = [];
  opts =
      record { key = codes "PublicKey"; value = codes "aaa=" }
      ∷ record { key = codes "AllowedIPs"; value = codes "10.9.0.2/32" }
      ∷ [];
}

found : find_peer (parse_conf raw) (codes "aaa=") ≡ some laptop
unfolding find_peer parse_conf find_in split protean.Strings.is_empty protean.Strings.trim_space
    protean.Strings.has_prefix same protean.Strings.cut protean.Conf.Peers.has_key
    protean.Conf.Peers.public_key protean.Conf.Options.get_opt protean.Conf.Options.equal_fold
found = refl

rotate_example :
    Settles host raw
      (IsRotated host (parse_conf raw) (codes "aaa=") (codes "ccc=") laptop)
      (rotate_peer_key host o (codes "aaa=") (codes "ccc=") raw)
rotate_example =
    rotate_peer_key-Settles host reliable o raw nonempty plain (codes "aaa=") (codes "ccc=") laptop
      raw refl found

abbrev conf : ConfFile
conf = record { interface_opts = []; peers = laptop ∷ [] }

no_other : find_peer conf (codes "ccc=") ≡ none
unfolding find_peer find_in protean.Conf.Peers.has_key protean.Conf.Peers.public_key
    protean.Conf.Options.get_opt protean.Conf.Options.equal_fold same
no_other = refl

distinct : AreDistinct conf.peers
distinct = ((λ key e. unfold find_in in refl), tt)

rotated_example :
    find_peer (rotated host conf (codes "aaa=") (codes "ccc=") spec) (codes "aaa=") ≡ (
      if same (codes "ccc=") (codes "aaa=")
      then some (peer_of host (codes "ccc=") spec)
      else if same (codes "aaa=") (codes "aaa=")
      then none
      else find_peer conf (codes "aaa="))
rotated_example =
    find_peer-rotated host conf (codes "aaa=") (codes "ccc=") (codes "aaa=") spec distinct no_other

abbrev dump_lines : List Text
dump_lines =
    codes "aaa=\t(none)\t203.0.113.7:4000\t10.9.0.2/32\t1700000000\t10\t20\toff"
    ∷ []
    ∷ codes "bbb=\t(none)\t(none)\t10.9.0.3/32\t0\t0\t0\t25"
    ∷ []

abbrev dump_peers : List DumpPeer
dump_peers =
    record {
      public_key = codes "aaa=";
      preshared_key = [];
      endpoint = codes "203.0.113.7:4000";
      allowed_ips = codes "10.9.0.2/32" ∷ [];
      latest_handshake = 1700000000;
      rx_bytes = 10;
      tx_bytes = 20;
      keepalive = 0;
    }
    ∷ record {
      public_key = codes "bbb=";
      preshared_key = [];
      endpoint = [];
      allowed_ips = codes "10.9.0.3/32" ∷ [];
      latest_handshake = 0;
      rx_bytes = 0;
      tx_bytes = 0;
      keepalive = 25;
    }
    ∷ []

dumped : parse_peers dump_lines ≡ ok dump_peers
unfolding parse_peers protean.Strings.is_empty protean.Strings.trim_space split same
dumped = refl

dump_example : map (λ p. p.public_key) dump_peers ≡ line_keys dump_lines
dump_example = parse_peers-keys dump_lines dump_peers dumped
