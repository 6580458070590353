-- ===== src/Tests/PeerIds.antt =====
-- Identifiers of peers, with a standard encoding that puts an A in front.
use protean.Prelude.{[], ◌∷◌, ◌≡◌, sym, ap, Option, none, some, some_inj, ◌==◌, if◌then◌else◌}
use protean.Strings.{Text, codes}
use protean.PeerId.{Base64, encode_peer_id, decode_peer_id}
use protean.PeerId.Laws.{OldLink, decode_peer_id-encode_peer_id}
use protean.Tests.Tokens.{shifted, unshifted, unshifted-shifted, shifted-Lacks}

abbrev marked : Text → Option Text
marked [] = none
marked (c ∷ s) = if c == b'A' then some s else none

abbrev base64 : Base64
base64 = record {
  std_encode = λ raw. b'A' ∷ raw;
  std_decode = marked;
  url_encode = shifted;
  url_decode = λ s. some (unshifted s);
  url_decode-url_encode = λ raw. ap some (unshifted-shifted raw);
  url_encode-Lacks = shifted-Lacks;
}

public_key_example :
    (decode_peer_id base64 (encode_peer_id base64 (codes "Ak=")) ≡ some (codes "Ak="))
    × OldLink base64 (codes "Ak=") (some (codes "k="))
public_key_example =
    decode_peer_id-encode_peer_id base64 (codes "Ak=")
      (λ raw e. ap (λ s. b'A' ∷ s) (sym (some_inj e)))
