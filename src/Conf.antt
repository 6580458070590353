-- ===== src/Conf.antt =====
-- internal/vpn/wgfamily/conf.go: the wg-quick config file, parsed, printed and edited.
-- Keys are compared as `strings.EqualFold` does for the ASCII keys that the program passes: of the
-- other letters only the two that fold to an ASCII letter are folded.
pub mod Options
pub mod Peers
pub mod Managed
pub mod Lines
pub mod OptionLines
pub mod RoundTrip
use protean.Prelude.{
  ℕ, ◌+◌, List, [], ◌∷◌, ◌++◌, map, Bool, true, false, not, ◌&&◌, ◌||◌, Option, none, some, leb,
  ◌==◌, if◌then◌else◌, is_some, ◌≡◌, refl,
}
use protean.Strings.{
  Text, codes, same, is_empty, trim_space, cut, cut_prefix, has_prefix, split, contains,
  replace_all,
}

-- KV, ConfPeer and ConfFile
pub record Kv : Type 0 where
  pub key : Text
  pub value : Text

pub record ConfPeer : Type 0 where
  pub name : Text
  pub opts : List Kv

pub record ConfFile : Type 0 where
  pub interface_opts : List Kv
  pub peers : List ConfPeer

abbrev pub empty_conf : ConfFile
empty_conf = record { interface_opts = []; peers = [] }

-- `section`, in the closure `flush`
pub data Section : Type 0 where
  no_section interface peer : Section

-- the variables of `ParseConf`
pub record Parser : Type 0 where
  pub conf : ConfFile
  pub section : Section
  pub opts : List Kv
  pub name : Text
  pub next_name : Text

abbrev pub start_parser : Parser
start_parser = record {
  conf = empty_conf;
  section = no_section;
  opts = [];
  name = [];
  next_name = [];
}

unfoldable pub flushed : Section → ConfFile → Text → List Kv → ConfFile
flushed no_section cf name opts = cf
flushed interface cf name opts = record cf { interface_opts = cf.interface_opts ++ opts }
flushed peer cf name opts = record cf {
  peers = cf.peers ++ record { name = name; opts = opts } ∷ [];
}

-- flush
unfoldable pub flush : Parser → Parser
unfolding flushed
flush p = record p { conf = flushed p.section p.conf p.name p.opts; opts = [] }

-- a comment line: only the "# Name:" convention is read
unfoldable pub parse_comment : Parser → Text → Parser
parse_comment p line = elim (cut_prefix line (codes "# Name:")) [
  | none ↦ p
  | some n ↦ record p { next_name = trim_space n }
]

unfoldable pub parse_option : Parser → Option (Text × Text) → Parser
parse_option p none = p
parse_option p (some (key, value)) = record p {
  opts = p.opts ++ record { key = trim_space key; value = trim_space value } ∷ [];
}

-- one round of the loop, on a trimmed line
unfoldable pub parse_line : Parser → Text → Parser
unfolding parse_comment flush parse_option
parse_line p line =
    if is_empty line
    then p
    else if has_prefix line (codes "#")
    then parse_comment p line
    else if same line (codes "[Interface]")
    then record (flush p) { section = interface; name = [] }
    else if same line (codes "[Peer]")
    then record (flush p) { section = peer; name = p.next_name; next_name = [] }
    else parse_option p (cut line b'=')

unfoldable pub parse_lines : Parser → List Text → Parser
unfolding parse_line
parse_lines p [] = p
parse_lines p (raw ∷ lines) = parse_lines (parse_line p (trim_space raw)) lines

-- ParseConf
unfoldable pub parse_conf : Text → ConfFile
unfolding parse_lines flush
parse_conf content = (flush (parse_lines start_parser (split content b'\n'))).conf

abbrev pub newline : Text
newline = b'\n' ∷ []

-- `fmt.Fprintf(&b, "%s = %s\n", kv.Key, kv.Value)`
unfoldable pub render_opts : List Kv → Text
render_opts [] = []
render_opts (kv ∷ kvs) = kv.key ++ (codes " = " ++ (kv.value ++ (newline ++ render_opts kvs)))

-- `safeName`
unfoldable pub safe_name : Text → Text
safe_name name = replace_all (replace_all name b'\n' (codes " ")) b'\r' (codes " ")

-- the comment line in front of a block, if there is a name
unfoldable pub render_name : Text → Text
unfolding safe_name
render_name name = if is_empty name then [] else codes "# Name: " ++ (safe_name name ++ newline)

unfoldable pub render_peers : List ConfPeer → Text
unfolding render_name render_opts
render_peers [] = []
render_peers (p ∷ ps) =
    newline ++ (render_name p.name ++ (codes "[Peer]\n" ++ (render_opts p.opts ++ render_peers ps)))

-- Render
unfoldable pub render : ConfFile → Text
unfolding render_opts render_peers
render cf = codes "[Interface]\n" ++ (render_opts cf.interface_opts ++ render_peers cf.peers)

abbrev sample : ConfFile
sample = record {
  interface_opts = record { key = codes "Address"; value = codes "10.0.0.1/24" } ∷ [];
  peers =
      record {
        name = codes "laptop 1";
        opts = record { key = codes "PublicKey"; value = codes "abc=" } ∷ [];
      }
      ∷ record { name = []; opts = record { key = codes "PublicKey"; value = codes "def=" } ∷ [] }
      ∷ [];
}

sample_read_back : parse_conf (render sample) ≡ sample
unfolding parse_conf render split trim_space same is_empty has_prefix cut replace_all
sample_read_back = refl
