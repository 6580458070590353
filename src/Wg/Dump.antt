-- ===== src/Wg/Dump.antt =====
-- internal/vpn/wgfamily/dump.go: the output of `wg show <interface> dump`. The time of a handshake is
-- its Unix time, 0 where there was none.
pub mod Peers
use protean.Prelude.{
  ℕ, ◌+◌, ◌-◌, ◌*◌, List, [], ◌∷◌, map, Bool, true, false, not, ◌&&◌, ◌≡◌, refl, sym, ap, ap₂, ◌∙◌,
  arith, Option, none, some, if◌then◌else◌, ◌>>=◌, guard, ltb, leb, ◌==◌, Bool-cases, inl, inr,
}
use protean.Strings.{Text, codes, same, is_empty, trim_space, split}
use protean.Strings.Decimal.{parse_uint, parse_int}

-- DumpInterface
pub record DumpInterface : Type 0 where
  pub private_key : Text
  pub public_key : Text
  pub listen_port : ℕ
  pub fw_mark : Text

-- DumpPeer
pub record DumpPeer : Type 0 where
  pub public_key : Text
  pub preshared_key : Text
  pub endpoint : Text
  pub allowed_ips : List Text
  pub latest_handshake : ℕ
  pub rx_bytes : ℕ
  pub tx_bytes : ℕ
  pub keepalive : ℕ

pub data DumpError : Type 0 where
  empty_dump bad_interface bad_port bad_peer bad_handshake bad_rx bad_tx bad_keepalive : DumpError

pub data Result (A : Type 0) : Type 0 where
  ok : A → Result A
  failed : DumpError → Result A

-- an option's value, or the error
abbrev pub or_fail : {A B : Type 0} → Option A → DumpError → (A → Result B) → Result B
or_fail none e next = failed e
or_fail (some a) e next = next a

abbrev pub behind : {A B : Type 0} → Result A → (A → Result B) → Result B
behind (failed e) next = failed e
behind (ok a) next = next a

-- noneEmpty
unfoldable pub none_empty : Text → Text
none_empty s = if same s (codes "(none)") then [] else s

-- `strings.TrimRight(output, "\n")`
unfoldable pub trim_right_newlines : Text → Text
trim_right_newlines [] = []
trim_right_newlines (c ∷ s) =
    let rest = trim_right_newlines s in if is_empty rest && c == b'\n' then [] else c ∷ rest

unfoldable pub dump_ips : Text → List Text
dump_ips aip = if is_empty aip then [] else split aip b','

-- the persistent keepalive, where `off` is 0
unfoldable pub dump_keepalive : Text → Option ℕ
unfolding parse_int
dump_keepalive f = if same f (codes "off") then some 0 else parse_int f

-- one peer, from the fields of its line
unfoldable pub parse_fields : List Text → Result DumpPeer
unfolding none_empty parse_int dump_ips dump_keepalive
parse_fields (key ∷ psk ∷ endpoint ∷ ips ∷ handshake ∷ rx ∷ tx ∷ keepalive ∷ more) =
    or_fail (parse_int handshake) bad_handshake (λ hs.
      or_fail (parse_uint 18_446_744_073_709_551_616 rx) bad_rx (λ received.
        or_fail (parse_uint 18_446_744_073_709_551_616 tx) bad_tx (λ sent.
          or_fail (dump_keepalive keepalive) bad_keepalive (λ alive. ok (record {
            public_key = key;
            preshared_key = none_empty psk;
            endpoint = none_empty endpoint;
            allowed_ips = dump_ips (none_empty ips);
            latest_handshake = hs;
            rx_bytes = received;
            tx_bytes = sent;
            keepalive = alive;
          })))))
parse_fields _ = failed bad_peer

-- the loop over the lines of the peers
unfoldable pub parse_peers : List Text → Result (List DumpPeer)
unfolding parse_fields
parse_peers [] = ok []
parse_peers (line ∷ lines) =
    let rest = parse_peers lines in
    if is_empty (trim_space line)
    then rest
    else behind (parse_fields (split line b'\t')) (λ p. behind rest (λ ps. ok (p ∷ ps)))

unfoldable pub parse_interface : List Text → Result DumpInterface
unfolding none_empty parse_int
parse_interface (private_key ∷ public_key ∷ port ∷ mark ∷ more) =
    or_fail (parse_int port) bad_port (λ n. ok (record {
      private_key = none_empty private_key;
      public_key = none_empty public_key;
      listen_port = n;
      fw_mark = mark;
    }))
parse_interface _ = failed bad_interface

unfoldable pub parse_dump_lines : List Text → Result (DumpInterface × List DumpPeer)
unfolding parse_interface parse_peers
parse_dump_lines [] = failed empty_dump
parse_dump_lines (head ∷ lines) =
    if is_empty (trim_space head)
    then failed empty_dump
    else behind (parse_interface (split head b'\t'))
        (λ i. behind (parse_peers lines) (λ ps. ok (i, ps)))

-- ParseDump
unfoldable pub parse_dump : Text → Result (DumpInterface × List DumpPeer)
unfolding parse_dump_lines trim_right_newlines
parse_dump output = parse_dump_lines (split (trim_right_newlines output) b'\n')
