-- ===== src/Rotation/Atomic.antt =====
-- `Rotate` as one step: the whole database is rotated, or nothing changes.
use protean.Prelude.{
  ℕ, ◌<◌, List, [], ◌∷◌, Bool, true, false, ◌≡◌, refl, ◌⊎◌, inl, inr, Option, none, All, Bool-cases,
}
use protean.Prelude.Effects.{Except, ok, failed, Ends}
use protean.Strings.{Text}
use protean.Sealing.{Encryptor, seal, open_blob, open_blob-empty}
use protean.Rotation.{
  Row, Tx, Column, ColumnReport, RotateError, begin_failed, commit_failed, seal_failed, Commit,
  committed, refused, unacknowledged, rotate_column, rotate_columns, with_column, join_column,
  commit, finish, rotate,
}
use protean.Rotation.Scanning.{AreKeyed, Faulty}
use protean.Rotation.Writing.{Sound}
use protean.Rotation.Columns.{Rotated, rotate_column-Ends}

-- The columns have primary keys.
abbrev pub AreAllKeyed : List Column → Type 0
AreAllKeyed = All (λ c. AreKeyed c.rows)

module _ (fails : ℕ → Bool) (random : ℕ → Option Text) (old new : Encryptor) where
  -- Each column is rotated, under its name, and the report has an entry for each.
  abbrev pub AreRotated : List Column → List ColumnReport → List Column → Type 0
  AreRotated [] [] [] = Unit
  AreRotated (c ∷ cs) (report ∷ reports) (c' ∷ cs') =
      (c'.table ≡ c.table)
      × (c'.column ≡ c.column)
      × Rotated fails random old new c.rows c'.rows report
      × AreRotated cs reports cs'
  AreRotated _ _ _ = ⊥

  -- What `Rotate` promises of its result and of the database it leaves.
  abbrev pub Promise :
      Bool → List Column → Except RotateError (List ColumnReport) × List Column → Type 0
  Promise true columns (ok reports, db) =
      (db ≡ columns) × ((rotated : List Column) × AreRotated columns reports rotated)
  Promise false columns (ok reports, db) = AreRotated columns reports db
  Promise true columns (failed e, db) = db ≡ columns
  Promise false columns (failed e, db) =
      (db ≡ columns)
      ⊎ ((e ≡ commit_failed) × ((reports : List ColumnReport) × AreRotated columns reports db))

  join_column-Ends :
      (F : RotateError → Type 0) (c : Column) (cs : List Column) (rows' : List Row)
      (report : ColumnReport) (rest : Except RotateError (List ColumnReport) × List Column)
      → Rotated fails random old new c.rows rows' report
      → Ends F (AreRotated cs) rest
      → Ends F (AreRotated (c ∷ cs)) (join_column (record c { rows = rows' }) report rest)
  join_column-Ends F c cs rows' report (failed e, db) h k = k
  join_column-Ends F c cs rows' report (ok reports, db) h k = (refl, refl, h, k)

  with_column-Ends :
      (F : RotateError → Type 0) (c : Column) (cs : List Column)
      (r : Except RotateError ColumnReport × Tx)
      (rest : ℕ → Except RotateError (List ColumnReport) × List Column)
      → Ends F (λ report tx. Rotated fails random old new c.rows tx.rows report) r
      → ((n : ℕ) → Ends F (AreRotated cs) (rest n))
      → Ends F (AreRotated (c ∷ cs)) (with_column fails random old new c r rest)
  with_column-Ends F c cs (failed e, tx) rest h k = h
  with_column-Ends F c cs (ok report, tx) rest h k =
      join_column-Ends F c cs tx.rows report (rest tx.calls) h (k tx.calls)

  unchanged :
      (e : RotateError) (dry_run : Bool) (columns : List Column)
      → Promise dry_run columns (failed e, columns)
  unchanged e true columns = refl
  unchanged e false columns = inl refl

  module _ (F : RotateError → Type 0)
      (call_fault : (n : ℕ) (e : RotateError) → fails n ≡ true → F e)
      (seal_fault : (n : ℕ) (p key : Text) → seal new (random n) p ≡ none → F (seal_failed key))
      (doubt : (e : RotateError) → (Sound fails random old new → ⊥) → F e)
      (empty : open_blob new [] ≡ none) where
    pub rotate_columns-Ends :
        (columns : List Column) (n : ℕ)
        → AreAllKeyed columns
        → All (λ c. All (Faulty fails random old new F call_fault) c.rows) columns
        → Ends F (AreRotated columns) (rotate_columns fails random old new columns n)
    unfolding rotate_columns
    rotate_columns-Ends [] n keyed faulty = tt
    rotate_columns-Ends (c ∷ cs) n keyed faulty =
        with_column-Ends F c cs
          (rotate_column fails random old new c.table c.column
            (record { rows = c.rows; calls = n }))
          (rotate_columns fails random old new cs)
          (rotate_column-Ends fails random old new F call_fault seal_fault doubt empty c.table
            c.column (record { rows = c.rows; calls = n }) keyed.0 faulty.0)
          (λ m. rotate_columns-Ends cs m keyed.1 faulty.1)

  finish-Promise :
      (how : Commit) (dry_run : Bool) (columns : List Column)
      (r : Except RotateError (List ColumnReport) × List Column)
      → Ends (λ _. Unit) (AreRotated columns) r
      → Promise dry_run columns (finish fails random old new how dry_run columns r)
  unfolding finish commit
  finish-Promise how true columns (failed e, db) h = refl
  finish-Promise how false columns (failed e, db) h = inl refl
  finish-Promise how true columns (ok reports, db) h = (refl, (db, h))
  finish-Promise committed false columns (ok reports, db) h = h
  finish-Promise refused false columns (ok reports, db) h = inl refl
  finish-Promise unacknowledged false columns (ok reports, db) h = inr (refl, (reports, h))

  row-Faulty : (rows : List Row) → All (Faulty fails random old new (λ _. Unit) (λ _ _ _. tt)) rows
  row-Faulty [] = tt
  row-Faulty (r ∷ rs) = ((λ _ _ _ _. tt), row-Faulty rs)

  rows-Faulty :
      (columns : List Column)
      → All (λ c. All (Faulty fails random old new (λ _. Unit) (λ _ _ _. tt)) c.rows) columns
  rows-Faulty [] = tt
  rows-Faulty (c ∷ cs) = (row-Faulty c.rows, rows-Faulty cs)

  -- Where the rows of each column have distinct keys and a nonce is not empty, whatever calls of the
  -- database fail: a rotation that succeeds leaves every column rotated; one that fails leaves the
  -- database as it was, or rotated where only the commit's acknowledgement was lost; and a dry run
  -- leaves it as it was.
  pub rotate-Promise :
      (how : Commit) (dry_run : Bool) (columns : List Column)
      → AreAllKeyed columns
      → 0 < new.nonce_size
      → Promise dry_run columns (rotate fails random old new how dry_run columns)
  unfolding rotate
  rotate-Promise how dry_run columns keyed nonce = elim (Bool-cases (fails 0)) [
    | inl down ↦ rw down (unchanged begin_failed dry_run columns)
    | inr up ↦ rw up (
        finish-Promise how dry_run columns (rotate_columns fails random old new columns 1) (
          rotate_columns-Ends (λ _. Unit) (λ _ _ _. tt) (λ _ _ _ _. tt) (λ _ _. tt)
            (open_blob-empty new nonce) columns 1 keyed (rows-Faulty columns)))
  ]
