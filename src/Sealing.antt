-- ===== src/Sealing.antt =====
-- internal/auth/crypto.go: a blob is a nonce and behind it what AES-256-GCM makes of the text. The
-- cipher under its key is a parameter.
use protean.Prelude.{
  ℕ, [], ◌∷◌, ◌++◌, ◌≡◌, refl, Option, none, some, ltb, length, take, drop, if◌then◌else◌, arith,
  length-append, sym, ◌<◌, ◌>>=◌, false,
}
use protean.Strings.{Text}

-- Encryptor, by its `cipher.AEAD`
pub record Encryptor : Type 0 where
  pub nonce_size : ℕ
  pub seal_gcm : Text → Text → Text
  pub open_gcm : Text → Text → Option Text

-- Seal; `nonce` is what the random source gives
unfoldable pub seal : Encryptor → Option Text → Text → Option Text
seal enc none plaintext = none
seal enc (some nonce) plaintext = some (nonce ++ enc.seal_gcm nonce plaintext)

-- Open
unfoldable pub open_blob : Encryptor → Text → Option Text
open_blob enc blob =
    if ltb (length blob) enc.nonce_size
    then none
    else enc.open_gcm (take enc.nonce_size blob) (drop enc.nonce_size blob)

-- What is relied on of the cipher: it opens what it sealed under the same nonce.
abbrev pub Decrypts : Encryptor → Type 0
Decrypts enc = (nonce p : Text) → enc.open_gcm nonce (enc.seal_gcm nonce p) ≡ some p

take-length : (s t : Text) → take (length s) (s ++ t) ≡ s
take-length [] t = refl
take-length (c ∷ s) t = rw (take-length s t)

drop-length : (s t : Text) → drop (length s) (s ++ t) ≡ t
drop-length [] t = refl
drop-length (c ∷ s) t = drop-length s t

sealed_fits : (nonce c : Text) (n : ℕ) → length nonce ≡ n → ltb (length (nonce ++ c)) n ≡ false
sealed_fits nonce c n size = ground (arith, length-append nonce c)

-- A text that was sealed with a nonce of the cipher's size opens again as the same text.
pub open_blob-seal :
    (enc : Encryptor) (nonce p : Text)
    → Decrypts enc
    → length nonce ≡ enc.nonce_size
    → (seal enc (some nonce) p >>= open_blob enc) ≡ some p
unfolding seal open_blob
open_blob-seal enc nonce p law size =
    rw (sealed_fits nonce (enc.seal_gcm nonce p) enc.nonce_size size) (
      rw (sym size) (
        rw (take-length nonce (enc.seal_gcm nonce p))
          (rw (drop-length nonce (enc.seal_gcm nonce p)) (law nonce p))))

pub open_blob-empty : (enc : Encryptor) → 0 < enc.nonce_size → open_blob enc [] ≡ none
unfolding open_blob
open_blob-empty enc h = ground arith
