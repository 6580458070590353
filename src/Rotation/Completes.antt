-- ===== src/Rotation/Completes.antt =====
-- A rotation where nothing goes wrong.
use protean.Prelude.{
  none-some, ℕ, ◌<◌, List, Bool, true, false, ◌≡◌, sym, ◌∙◌, Option, none, some, All, All-map,
  length, ap, subst, ◌>>=◌,
}
use protean.Prelude.Effects.{Except, ok, failed, Ends}
use protean.Strings.{Text}
use protean.Sealing.{Encryptor, Decrypts, seal, open_blob, open_blob-seal, open_blob-empty}
use protean.Rotation.{
  Row, Column, ColumnReport, RotateError, committed, commit, finish, rotate, rotate_columns,
}
use protean.Rotation.Scanning.{Faulty, Reads}
use protean.Rotation.Writing.{Sound}
use protean.Rotation.Atomic.{AreAllKeyed, AreRotated, rotate_columns-Ends}

module _ (fails : ℕ → Bool) (random : ℕ → Option Text) (old new : Encryptor) where
  -- The random source answers, with as many bytes as a nonce has.
  abbrev pub Supplies : Type 0
  Supplies = (n : ℕ) → (nonce : Text) × (random n ≡ some nonce) × (length nonce ≡ new.nonce_size)

  -- Every blob long enough to be sealed opens with the old key.
  abbrev pub AllRead : List Column → Type 0
  AllRead = All (λ c. All (λ r. Reads fails random old new r.blob) c.rows)

  -- the rotation went through, and the database is rotated
  abbrev pub Succeeds : List Column → Except RotateError (List ColumnReport) × List Column → Type 0
  Succeeds columns (ok reports, db) = AreRotated fails random old new columns reports db
  Succeeds columns (failed e, db) = ⊥

  sound : Decrypts new → Supplies → Sound fails random old new
  sound law supply n p b h =
      let (nonce, given, size) : (nonce : Text) × (random n ≡ some nonce)
          × (length nonce ≡ new.nonce_size) =
        supply n in
      sym (ap (λ o. o >>= open_blob new) h)
      ∙ ap (λ o. seal new o p >>= open_blob new) given
      ∙ open_blob-seal new nonce p law size

  no_call : ((n : ℕ) → fails n ≡ false) → (n : ℕ) (e : RotateError) → fails n ≡ true → ⊥
  no_call never n e h = let up : fails n ≡ false = never n in cc

  always_seals : Supplies → (n : ℕ) (p key : Text) → seal new (random n) p ≡ none → ⊥
  unfolding seal
  always_seals supply n p key h =
      let (nonce, given, size) : (nonce : Text) × (random n ≡ some nonce)
          × (length nonce ≡ new.nonce_size) =
        supply n in
      let e : seal new (some nonce) p ≡ none = sym (ap (λ o. seal new o p) given) ∙ h in cc

  readable :
      (F : RotateError → Type 0) (call_fault : (n : ℕ) (e : RotateError) → fails n ≡ true → F e)
      (r : Row)
      → Reads fails random old new r.blob
      → Faulty fails random old new F call_fault r
  readable F call_fault r h blob at long unread =
      let opens : (p : Text) × (open_blob old blob ≡ some p) =
        subst (Reads fails random old new) at h long in
      absurd (none-some (sym unread ∙ opens.1))

  finish-Succeeds :
      (columns : List Column) (r : Except RotateError (List ColumnReport) × List Column)
      → Ends (λ _. ⊥) (AreRotated fails random old new columns) r
      → Succeeds columns (finish fails random old new committed false columns r)
  unfolding finish commit
  finish-Succeeds columns (failed e, db) h = h
  finish-Succeeds columns (ok reports, db) h = h

  -- Where no call of the database fails, the random source answers, the cipher opens what it sealed,
  -- the rows of each column have distinct keys, and every sealed blob opens with the old key, the
  -- rotation succeeds and every column is rotated.
  pub rotate-Succeeds :
      (columns : List Column)
      → ((n : ℕ) → fails n ≡ false)
      → Supplies
      → Decrypts new
      → 0 < new.nonce_size
      → AreAllKeyed columns
      → AllRead columns
      → Succeeds columns (rotate fails random old new committed false columns)
  unfolding rotate
  rotate-Succeeds columns never supply law nonce keyed reads = rw (never 0) (
      finish-Succeeds columns (rotate_columns fails random old new columns 1) (
        rotate_columns-Ends fails random old new (λ _. ⊥) (no_call never) (always_seals supply)
          (λ e no. no (sound law supply)) (open_blob-empty new nonce) columns 1 keyed
          (All-map columns (λ c. All-map c.rows (readable (λ _. ⊥) (no_call never))) reads)))
