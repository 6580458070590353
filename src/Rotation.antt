-- ===== src/Rotation.antt =====
-- internal/keyrotate/keyrotate.go: every sealed secret is read with the old key and written back
-- with the new one, in one transaction. A sealed column is a list of rows, a row its primary key as
-- one text and its blob, where `none` is NULL. Whether a call of the database answers with an error
-- is a function of the number of calls made before it, and so are the random bytes for a nonce.
pub mod Scanning
pub mod Writing
pub mod Verifying
pub mod Columns
pub mod Atomic
pub mod Completes
pub mod Detect
use protean.Prelude.{
  ℕ, suc, ◌+◌, List, [], ◌∷◌, ◌++◌, Bool, true, false, not, Option, none, some, ltb, length,
  if◌then◌else◌,
}
use protean.Prelude.Effects.{Except, ok, failed, Action, pure, after, ◌>>=◌, ◌>>◌, each}
use protean.Strings.{Text, same}
use protean.Sealing.{Encryptor, seal, open_blob}

pub record Row : Type 0 where
  pub key : Text
  pub blob : Option Text

-- a column of `sealedColumns` with what the database holds in it
pub record Column : Type 0 where
  pub table : Text
  pub column : Text
  pub rows : List Row

pub record ColumnReport : Type 0 where
  pub table : Text
  pub column : Text
  pub rewritten : ℕ
  pub skipped_empty : ℕ
  pub skipped_null : ℕ

-- TotalRewritten
unfoldable pub total_rewritten : List ColumnReport → ℕ
total_rewritten [] = 0
total_rewritten (c ∷ cs) = c.rewritten + total_rewritten cs

pub data RotateError : Type 0 where
  begin_failed select_failed scan_failed rows_failed commit_failed : RotateError
  open_failed seal_failed update_failed verify_select_failed verify_open_failed verify_mismatch :
      Text → RotateError

-- what a commit comes to: an error may be the loss of the acknowledgement alone
pub data Commit : Type 0 where
  committed refused unacknowledged : Commit

-- pendingRow
pub record PendingRow : Type 0 where
  pub key : Text
  pub plaintext : Text

-- `pending` and the two counters of the report
pub record Scan : Type 0 where
  pub pending : List PendingRow
  pub skipped_empty : ℕ
  pub skipped_null : ℕ

-- a column inside the transaction, and the number of the calls made so far
pub record Tx : Type 0 where
  pub rows : List Row
  pub calls : ℕ

abbrev pub min_sealed_blob_len : ℕ
min_sealed_blob_len = 12 + 16

abbrev pub empty_scan : Scan
empty_scan = record { pending = []; skipped_empty = 0; skipped_null = 0 }

abbrev pub add_null : Scan → Scan
add_null sc = record sc { skipped_null = suc sc.skipped_null }

abbrev pub add_empty : Scan → Scan
add_empty sc = record sc { skipped_empty = suc sc.skipped_empty }

abbrev pub add_pending : PendingRow → Scan → Scan
add_pending p sc = record sc { pending = p ∷ sc.pending }

-- `UPDATE ... SET column = $1 WHERE key`
unfoldable pub put_blob : Text → Text → List Row → List Row
put_blob key blob [] = []
put_blob key blob (r ∷ rs) =
    (if same r.key key then record r { blob = some blob } else r) ∷ put_blob key blob rs

-- `SELECT column ... WHERE key`: `none` where there is no row
unfoldable pub find_blob : Text → List Row → Option (Option Text)
find_blob key [] = none
find_blob key (r ∷ rs) = if same r.key key then some r.blob else find_blob key rs

-- a call of the database
unfoldable pub call : (ℕ → Bool) → RotateError → Action Tx RotateError (Unit {0})
call fails e tx =
    let tx' = record tx { calls = suc tx.calls } in
    if fails tx.calls then (failed e, tx') else (ok tt, tx')

-- the report with `cr.Rewritten = len(pending)`
abbrev pub report_of : Text → Text → Scan → ColumnReport
report_of table column sc = record {
  table = table;
  column = column;
  rewritten = length sc.pending;
  skipped_empty = sc.skipped_empty;
  skipped_null = sc.skipped_null;
}

abbrev pub join_column :
    Column
    → ColumnReport
    → Except RotateError (List ColumnReport) × List Column
    → Except RotateError (List ColumnReport) × List Column
join_column c report (failed e, cs) = (failed e, cs)
join_column c report (ok reports, cs) = (ok (report ∷ reports), c ∷ cs)

module _ (fails : ℕ → Bool) (random : ℕ → Option Text) (old new : Encryptor) where
  -- `oldEnc.Open(blob)`
  unfoldable pub opened_blob :
      Text → Option Text → Action Tx RotateError Scan → Action Tx RotateError Scan
  opened_blob key none rest tx = (failed (open_failed key), tx)
  opened_blob key (some plaintext) rest tx =
      after (rest tx) (λ sc. pure (add_pending (record { key = key; plaintext = plaintext }) sc))

  unfoldable pub scan_blob :
      Text → Option Text → Action Tx RotateError Scan → Action Tx RotateError Scan
  unfolding opened_blob
  scan_blob key none rest tx = after (rest tx) (λ sc. pure (add_null sc))
  scan_blob key (some blob) rest tx =
      if ltb (length blob) min_sealed_blob_len
      then after (rest tx) (λ sc. pure (add_empty sc))
      else opened_blob key (open_blob old blob) rest tx

  -- the loop over `rows`, and `rows.Err()` behind it
  unfoldable pub scan_rows : List Row → Action Tx RotateError Scan
  unfolding scan_blob call
  scan_rows [] = call fails rows_failed >> pure empty_scan
  scan_rows (r ∷ rs) = call fails scan_failed >> scan_blob r.key r.blob (scan_rows rs)

  unfoldable pub put_sealed : Text → Option Text → Action Tx RotateError (Unit {0})
  unfolding put_blob call
  put_sealed key none tx = (failed (seal_failed key), tx)
  put_sealed key (some blob) tx =
      after (call fails (update_failed key) tx)
        (λ _ tx'. (ok tt, record tx' { rows = put_blob key blob tx'.rows }))

  -- the body of the loop that rewrites
  unfoldable pub write_row : PendingRow → Action Tx RotateError (Unit {0})
  unfolding put_sealed
  write_row p tx = put_sealed p.key (seal new (random tx.calls) p.plaintext) tx

  unfoldable pub compare_plaintext : PendingRow → Option Text → Action Tx RotateError (Unit {0})
  compare_plaintext p none tx = (failed (verify_open_failed p.key), tx)
  compare_plaintext p (some got) tx =
      if not (same got p.plaintext) then (failed (verify_mismatch p.key), tx) else (ok tt, tx)

  -- what the verifying SELECT found; a NULL is scanned as the empty blob
  unfoldable pub verify_blob : PendingRow → Option (Option Text) → Action Tx RotateError (Unit {0})
  unfolding compare_plaintext
  verify_blob p none tx = (failed (verify_select_failed p.key), tx)
  verify_blob p (some none) tx = compare_plaintext p (open_blob new []) tx
  verify_blob p (some (some blob)) tx = compare_plaintext p (open_blob new blob) tx

  -- the body of the verify pass
  unfoldable pub verify_row : PendingRow → Action Tx RotateError (Unit {0})
  unfolding call verify_blob find_blob
  verify_row p =
      call fails (verify_select_failed p.key) >> λ tx. verify_blob p (find_blob p.key tx.rows) tx

  -- the two loops over `pending`
  unfoldable pub rewrite_pending : Text → Text → Scan → Action Tx RotateError ColumnReport
  unfolding write_row verify_row
  rewrite_pending table column sc = do
    each write_row sc.pending
    each verify_row sc.pending
    pure (report_of table column sc)

  -- rotateColumn
  unfoldable pub rotate_column : Text → Text → Action Tx RotateError ColumnReport
  unfolding call scan_rows rewrite_pending
  rotate_column table column = do
    call fails select_failed
    sc ← λ tx. scan_rows tx.rows tx
    rewrite_pending table column sc

  abbrev pub with_column :
      Column
      → Except RotateError ColumnReport × Tx
      → (ℕ → Except RotateError (List ColumnReport) × List Column)
      → Except RotateError (List ColumnReport) × List Column
  with_column c (failed e, tx) rest = (failed e, [])
  with_column c (ok report, tx) rest =
      join_column (record c { rows = tx.rows }) report (rest tx.calls)

  -- the loop over `sealedColumns`: the report, and the columns as the transaction has them
  unfoldable pub rotate_columns :
      List Column → ℕ → Except RotateError (List ColumnReport) × List Column
  unfolding rotate_column
  rotate_columns [] calls = (ok [], [])
  rotate_columns (c ∷ cs) calls =
      with_column c (rotate_column c.table c.column (record { rows = c.rows; calls = calls }))
        (rotate_columns cs)

  -- the commit of the changed columns
  unfoldable pub commit :
      Commit
      → List ColumnReport
      → List Column
      → List Column
      → Except RotateError (List ColumnReport) × List Column
  commit committed report changed columns = (ok report, changed)
  commit refused report changed columns = (failed commit_failed, columns)
  commit unacknowledged report changed columns = (failed commit_failed, changed)

  -- the end of `Rotate`: an error or a dry run rolls back
  unfoldable pub finish :
      Commit
      → Bool
      → List Column
      → Except RotateError (List ColumnReport) × List Column
      → Except RotateError (List ColumnReport) × List Column
  unfolding commit
  finish how dry_run columns (failed e, changed) = (failed e, columns)
  finish how true columns (ok report, changed) = (ok report, columns)
  finish how false columns (ok report, changed) = commit how report changed columns

  -- Rotate: what it returns, and the database after it; `how` is what a commit would come to
  unfoldable pub rotate :
      Commit → Bool → List Column → Except RotateError (List ColumnReport) × List Column
  unfolding rotate_columns finish
  rotate how dry_run columns =
      if fails 0
      then (failed begin_failed, columns)
      else finish how dry_run columns (rotate_columns columns 1)
