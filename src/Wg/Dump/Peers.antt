-- ===== src/Wg/Dump/Peers.antt =====
-- What a dump that parses says of its lines.
use protean.Prelude.{
  ℕ, List, [], ◌∷◌, map, Bool, true, false, ◌≡◌, refl, subst, ap₂, Option, none, some,
  if◌then◌else◌,
}
use protean.Strings.{Text, is_empty, trim_space, split}
use protean.Strings.Decimal.{parse_uint, parse_int}
use protean.Wg.Dump.{
  DumpPeer, Result, ok, failed, or_fail, behind, bad_handshake, bad_rx, bad_tx, bad_keepalive,
  parse_fields, parse_peers, dump_keepalive, none_empty, dump_ips,
}

abbrev pub first_field : List Text → Text
first_field [] = []
first_field (f ∷ fs) = f

-- the first fields of the lines that are not blank
abbrev pub line_keys : List Text → List Text
line_keys [] = []
line_keys (line ∷ lines) =
    if is_empty (trim_space line)
    then line_keys lines
    else first_field (split line b'\t') ∷ line_keys lines

abbrev HasKey : Text → Result DumpPeer → Type 0
HasKey key (ok p) = p.public_key ≡ key
HasKey key (failed e) = Unit

parse_fields-HasKey : (fs : List Text) → HasKey (first_field fs) (parse_fields fs)
unfolding parse_fields
parse_fields-HasKey [] = tt
parse_fields-HasKey (a ∷ []) = tt
parse_fields-HasKey (a ∷ b ∷ []) = tt
parse_fields-HasKey (a ∷ b ∷ c ∷ []) = tt
parse_fields-HasKey (a ∷ b ∷ c ∷ d ∷ []) = tt
parse_fields-HasKey (a ∷ b ∷ c ∷ d ∷ e ∷ []) = tt
parse_fields-HasKey (a ∷ b ∷ c ∷ d ∷ e ∷ f ∷ []) = tt
parse_fields-HasKey (a ∷ b ∷ c ∷ d ∷ e ∷ f ∷ g ∷ []) = tt
parse_fields-HasKey (a ∷ b ∷ c ∷ d ∷ e ∷ f ∷ g ∷ h ∷ more) =
    pick (parse_int e) (parse_uint 18_446_744_073_709_551_616 f)
      (parse_uint 18_446_744_073_709_551_616 g) (dump_keepalive h)
  where
    pick :
        (hs rx tx alive : Option ℕ)
        → HasKey a (
            or_fail hs bad_handshake (λ handshake. or_fail rx bad_rx (λ received.
              or_fail tx bad_tx (λ sent. or_fail alive bad_keepalive (λ n. ok (record {
                public_key = a;
                preshared_key = none_empty b;
                endpoint = none_empty c;
                allowed_ips = dump_ips (none_empty d);
                latest_handshake = handshake;
                rx_bytes = received;
                tx_bytes = sent;
                keepalive = n;
              }))))))
    pick none rx tx alive = tt
    pick (some _) none tx alive = tt
    pick (some _) (some _) none alive = tt
    pick (some _) (some _) (some _) none = tt
    pick (some _) (some _) (some _) (some _) = refl

abbrev HasKeys : List Text → Result (List DumpPeer) → Type 0
HasKeys keys (ok ps) = map (λ p. p.public_key) ps ≡ keys
HasKeys keys (failed e) = Unit

behind-HasKeys :
    (key : Text) (keys : List Text) (p : Result DumpPeer) (rest : Result (List DumpPeer))
    → HasKey key p
    → HasKeys keys rest
    → HasKeys (key ∷ keys) (behind p (λ q. behind rest (λ qs. ok (q ∷ qs))))
behind-HasKeys key keys (failed e) rest h hs = tt
behind-HasKeys key keys (ok p) (failed e) h hs = tt
behind-HasKeys key keys (ok p) (ok ps) h hs = ap₂ (λ k ks. k ∷ ks) h hs

parse_peers-HasKeys : (lines : List Text) → HasKeys (line_keys lines) (parse_peers lines)
unfolding parse_peers
parse_peers-HasKeys [] = refl
parse_peers-HasKeys (line ∷ lines) = pick (is_empty (trim_space line)) (parse_peers-HasKeys lines)
  where
    pick :
        (b : Bool)
        → HasKeys (line_keys lines) (parse_peers lines)
        → HasKeys
            (if b then line_keys lines else first_field (split line b'\t') ∷ line_keys lines)
            (if b
              then parse_peers lines
              else behind
                  (parse_fields (split line b'\t'))
                  (λ p. behind (parse_peers lines) (λ ps. ok (p ∷ ps))))
    pick true hs = hs
    pick false hs =
        behind-HasKeys (first_field (split line b'\t')) (line_keys lines)
          (parse_fields (split line b'\t')) (parse_peers lines)
          (parse_fields-HasKey (split line b'\t')) hs

-- The peers of a dump that parses are those of its lines that are not blank: one for each, in their
-- order, each with the key that is the first field of its line.
pub parse_peers-keys :
    (lines : List Text) (ps : List DumpPeer)
    → parse_peers lines ≡ ok ps
    → map (λ p. p.public_key) ps ≡ line_keys lines
parse_peers-keys lines ps e = subst (HasKeys (line_keys lines)) e (parse_peers-HasKeys lines)
