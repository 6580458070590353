-- ===== src/Tests/Rotations.antt =====
-- The rotation of keys at concrete inputs.
use protean.Prelude.{
  ℕ, List, [], ◌∷◌, ◌++◌, Bool, false, ◌≡◌, refl, Option, none, some, take, drop, length,
  if◌then◌else◌, ◌<◌, arith, ◌>>=◌, ◌==◌,
}
use protean.Prelude.Effects.{ok}
use protean.Strings.{Text, codes, same}
use protean.Sealing.{Encryptor, seal, open_blob, Decrypts, open_blob-seal}
use protean.Rotation.{Row, Column, ColumnReport, committed, unacknowledged, find_blob, rotate}
use protean.Rotation.Atomic.{AreAllKeyed, Promise, rotate-Promise}
use protean.Rotation.Completes.{AllRead, Succeeds, rotate-Succeeds}
use protean.Rotation.Detect.{detect, AllOpen, detect-rotate}

abbrev tag : ℕ → Text
tag k = k ∷ k ∷ k ∷ k ∷ k ∷ k ∷ k ∷ k ∷ k ∷ k ∷ k ∷ k ∷ k ∷ k ∷ k ∷ k ∷ []

-- a toy cipher with a nonce of 12 bytes and a tag of 16
abbrev toy : ℕ → Encryptor
toy k = record {
  nonce_size = 12;
  seal_gcm = λ nonce p. tag k ++ p;
  open_gcm = λ nonce c. if same (take 16 c) (tag k) then some (drop 16 c) else none;
}

abbrev zeros : Text
zeros = codes "000000000000"

toy-Decrypts : Decrypts (toy 2)
unfolding same
toy-Decrypts nonce p = refl

toy_nonce_size : length zeros ≡ (toy 2).nonce_size
toy_nonce_size = refl

seal_example :
    (seal (toy 2) (some zeros) (codes "secret") >>= open_blob (toy 2)) ≡ some (codes "secret")
seal_example = open_blob-seal (toy 2) zeros (codes "secret") toy-Decrypts toy_nonce_size

abbrev sealed_row : Row
sealed_row = record { key = codes "wg0 A"; blob = some (zeros ++ (tag 1 ++ codes "private")) }

abbrev unset_row : Row
unset_row = record { key = codes "wg0 B"; blob = some [] }

abbrev null_row : Row
null_row = record { key = codes "wg0 C"; blob = none }

abbrev columns : List Column
columns =
    record {
      table = codes "peer_secrets";
      column = codes "encrypted_private_key";
      rows = sealed_row ∷ unset_row ∷ null_row ∷ [];
    }
    ∷ record { table = codes "servers"; column = codes "enc_key_pem"; rows = [] }
    ∷ []

columns_keyed : AreAllKeyed columns
unfolding find_blob same
columns_keyed = ((refl, (refl, (refl, tt))), (tt, tt))

nonce_positive : 0 < (toy 2).nonce_size
nonce_positive = omega arith

abbrev sixth : ℕ → Bool
sixth n = n == 6

abbrev never : ℕ → Bool
never n = false

abbrev zero_nonce : ℕ → Option Text
zero_nonce n = some zeros

columns_read : AllRead never zero_nonce (toy 1) (toy 2) columns
unfolding same open_blob
columns_read = (((λ _. (codes "private", refl)), ((λ h. cc), (tt, tt))), (tt, tt))

key_rotation_example :
    Promise sixth zero_nonce
      (toy 1)
      (toy 2)
      false
      columns
      (rotate sixth zero_nonce (toy 1) (toy 2) unacknowledged false columns)
key_rotation_example =
    rotate-Promise sixth zero_nonce (toy 1) (toy 2) unacknowledged false columns columns_keyed
      nonce_positive

completion_example :
    Succeeds never zero_nonce
      (toy 1)
      (toy 2)
      columns
      (rotate never zero_nonce (toy 1) (toy 2) committed false columns)
completion_example =
    rotate-Succeeds never zero_nonce (toy 1) (toy 2) columns (λ n. refl) (λ n. (zeros, refl, refl))
      toy-Decrypts nonce_positive columns_keyed columns_read

abbrev rotated_columns : List Column
rotated_columns = (rotate never zero_nonce (toy 1) (toy 2) committed false columns).1

-- the reports, as the rotation gives them
abbrev reports : List ColumnReport
reports =
    record {
      table = codes "peer_secrets";
      column = codes "encrypted_private_key";
      rewritten = 1;
      skipped_empty = 1;
      skipped_null = 1;
    }
    ∷ record {
      table = codes "servers";
      column = codes "enc_key_pem";
      rewritten = 0;
      skipped_empty = 0;
      skipped_null = 0;
    }
    ∷ []

rotates :
    rotate never zero_nonce (toy 1) (toy 2) committed false columns ≡ (ok reports, rotated_columns)
unfolding rotate open_blob same seal
rotates = refl

detect_example : AllOpen (detect never (toy 2) rotated_columns 0)
detect_example =
    detect-rotate never zero_nonce (toy 1) (toy 2) committed columns rotated_columns reports 0
      columns_keyed nonce_positive rotates
