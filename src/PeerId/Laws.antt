-- ===== src/PeerId/Laws.antt =====
-- The identifier of a peer is read back from its URL, and from the URLs of before the schemes.
use protean.Prelude.{◌++◌, ◌≡◌, refl, ap, ◌∙◌, Option, none, some}
use protean.Strings.{Text, codes, same, cut}
use protean.Strings.Laws.{cut-none}
use protean.PeerId.{Base64, encode_raw, encode_peer_id, decode_raw, decode_cut, decode_peer_id}

module _ (base64 : Base64) where
  open base64 use {
    std_encode, std_decode, url_encode, url_decode, url_decode-url_encode, url_encode-Lacks,
  }

  -- Where the key is base64 of some bytes, the link without a scheme is read as the key.
  abbrev pub OldLink : Text → Option Text → Type 0
  OldLink key none = Unit
  OldLink key (some raw) = decode_peer_id base64 (url_encode raw) ≡ some key

  decode_peer_id-string :
      (key : Text) → decode_peer_id base64 (codes "s." ++ url_encode key) ≡ some key
  unfolding decode_peer_id cut same
  decode_peer_id-string key = ap (decode_raw base64 (codes "s")) (url_decode-url_encode key)

  decode_peer_id-binary :
      (raw : Text) → decode_peer_id base64 (codes "b." ++ url_encode raw) ≡ some (std_encode raw)
  unfolding decode_peer_id cut same
  decode_peer_id-binary raw = ap (decode_raw base64 (codes "b")) (url_decode-url_encode raw)

  decode_peer_id-old : (raw : Text) → decode_peer_id base64 (url_encode raw) ≡ some (std_encode raw)
  unfolding decode_peer_id same
  decode_peer_id-old raw =
      ap (decode_cut base64 (url_encode raw))
        (cut-none (url_encode raw) b'.' (url_encode-Lacks raw))
      ∙ ap (decode_raw base64 (codes "b")) (url_decode-url_encode raw)

  encoded :
      (key : Text) (decoded : Option Text)
      → ((raw : Text) → decoded ≡ some raw → std_encode raw ≡ key)
      → (decode_peer_id base64 (encode_raw base64 key decoded) ≡ some key) × OldLink key decoded
  encoded key none canonical = (decode_peer_id-string key, tt)
  encoded key (some raw) canonical = (
    decode_peer_id-binary raw ∙ ap some (canonical raw refl),
    decode_peer_id-old raw ∙ ap some (canonical raw refl),
  )

  -- A key that, where it is standard base64 of some bytes, is the encoding of those bytes is read back
  -- from its URL; where it is such base64, it is read back from the link without a scheme as well.
  pub decode_peer_id-encode_peer_id :
      (key : Text)
      → ((raw : Text) → std_decode key ≡ some raw → std_encode raw ≡ key)
      → (decode_peer_id base64 (encode_peer_id base64 key) ≡ some key)
        × OldLink key (std_decode key)
  unfolding encode_peer_id
  decode_peer_id-encode_peer_id key canonical = encoded key (std_decode key) canonical
