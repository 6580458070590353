-- ===== src/PeerId.antt =====
-- internal/api/peerid.go: the identifier of a peer as a segment of a URL. The two encodings of Go's
-- package encoding/base64 are a parameter.
pub mod Laws
use protean.Prelude.{ℕ, List, [], ◌∷◌, ◌++◌, ◌≡◌, Option, none, some, if◌then◌else◌}
use protean.Strings.{Text, codes, same, cut}
use protean.Strings.Laws.{Lacks}

-- `base64.StdEncoding` and `base64.RawURLEncoding`; a decoder answers `none` where Go's returns an error
pub record Base64 : Type 0 where
  pub std_encode : Text → Text
  pub std_decode : Text → Option Text
  pub url_encode : Text → Text
  pub url_decode : Text → Option Text
  pub url_decode-url_encode : (raw : Text) → url_decode (url_encode raw) ≡ some raw
  pub url_encode-Lacks : (raw : Text) → Lacks b'.' (url_encode raw)

module _ (base64 : Base64) where
  open base64 use {std_encode, std_decode, url_encode, url_decode}

  abbrev pub encode_raw : Text → Option Text → Text
  encode_raw public_key none = codes "s." ++ url_encode public_key
  encode_raw public_key (some raw) = codes "b." ++ url_encode raw

  -- encodePeerID
  unfoldable pub encode_peer_id : Text → Text
  encode_peer_id public_key = encode_raw public_key (std_decode public_key)

  -- the switch on the scheme
  unfoldable pub decode_raw : Text → Option Text → Option Text
  decode_raw scheme none = none
  decode_raw scheme (some raw) =
      if same scheme (codes "b")
      then some (std_encode raw)
      else if same scheme (codes "s")
      then some raw
      else none

  -- a link without a dot is an old one, all of it in the scheme `b`
  unfoldable pub decode_cut : Text → Option (Text × Text) → Option Text
  unfolding decode_raw
  decode_cut url_id none = decode_raw (codes "b") (url_decode url_id)
  decode_cut url_id (some (scheme, rest)) = decode_raw scheme (url_decode rest)

  -- decodePeerID
  unfoldable pub decode_peer_id : Text → Option Text
  unfolding decode_cut
  decode_peer_id url_id = decode_cut url_id (cut url_id b'.')
