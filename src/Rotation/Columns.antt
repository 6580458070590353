-- ===== src/Rotation/Columns.antt =====
-- What `rotateColumn` does to one column.
use protean.Prelude.{
  ℕ, ◌+◌, List, [], ◌∷◌, Bool, true, false, ◌≡◌, refl, sym, ap, ◌∙◌, Option, none, some, length,
  map, arith, inl, inr, Bool-cases, All, ltb, subst, ◌⊎◌,
}
use protean.Prelude.Effects.{each, Ends, Ends-after}
use protean.Strings.{Text, same}
use protean.Strings.Laws.{same_iff}
use protean.Sealing.{Encryptor, seal, open_blob}
use protean.Rotation.{
  Row, Scan, PendingRow, Tx, ColumnReport, RotateError, seal_failed, select_failed, call, find_blob,
  scan_rows, write_row, verify_row, rewrite_pending, rotate_column, min_sealed_blob_len,
}
use protean.Rotation.Scanning.{
  awaits, noted, count_sealed, AreKeyed, Scanned, Reads, Faulty, call-Ends, scan_rows-Ends,
}
use protean.Rotation.Verifying.{Verified, verify_rows-Ends}
use protean.Rotation.Writing.{Sound, Written, row_key, write_rows-Ends}

find_blob-cases :
    (key : Text) (r : Row) (rs : List Row) (v : Option Text)
    → find_blob key (r ∷ rs) ≡ some v
    → (r.blob ≡ v) ⊎ (find_blob key rs ≡ some v)
unfolding find_blob
find_blob-cases key r rs v h = ground arith

awaits-cases :
    (key p : Text) (q : PendingRow) (qs : List PendingRow)
    → awaits key (q ∷ qs) ≡ some p
    → ((q.key ≡ key) × (q.plaintext ≡ p)) ⊎ (awaits key qs ≡ some p)
unfolding awaits
awaits-cases key p q qs h = elim (Bool-cases (same q.key key)) [
  | inl e ↦ ground (arith, (same_iff q.key key).0 e)
  | inr e ↦ ground arith
]

module _ (fails : ℕ → Bool) (random : ℕ → Option Text) (old new : Encryptor) where
  -- what becomes of a blob, by whether it is too short to be sealed
  abbrev pub Resealed : Bool → Text → Option (Option Text) → Type 0
  Resealed true blob after_it = after_it ≡ some (some blob)
  Resealed false blob after_it =
      (p : Text) × (b : Text) × (open_blob old blob ≡ some p)
      × (after_it ≡ some (some b))
      × (open_blob new b ≡ some p)

  -- What becomes of the value under a key: no row and NULL stay, a blob too short to be sealed stays,
  -- and a sealed one is replaced by one that opens with the new key as it did with the old one.
  abbrev pub Fate : Option (Option Text) → Option (Option Text) → Type 0
  Fate none after_it = after_it ≡ none
  Fate (some none) after_it = after_it ≡ some none
  Fate (some (some blob)) after_it = Resealed (ltb (length blob) min_sealed_blob_len) blob after_it

  -- The column is rotated, and the report counts its rows.
  pub record Rotated (rows rows' : List Row) (report : ColumnReport) : Type 0 where
    pub fate : (key : Text) → Fate (find_blob key rows) (find_blob key rows')
    pub keys : map row_key rows' ≡ map row_key rows
    pub rewritten : report.rewritten ≡ count_sealed rows
    pub counts : report.rewritten + report.skipped_empty + report.skipped_null ≡ length rows

  find_blob-Reads :
      (key : Text) (rows : List Row) (blob : Text)
      → All (λ r. Reads fails random old new r.blob) rows
      → find_blob key rows ≡ some (some blob)
      → Reads fails random old new (some blob)
  unfolding find_blob
  find_blob-Reads key [] blob h e = cc
  find_blob-Reads key (r ∷ rs) blob h e = elim (find_blob-cases key r rs (some blob) e) [
    | inl hit ↦ subst (Reads fails random old new) hit h.0
    | inr later ↦ find_blob-Reads key rs blob h.1 later
  ]

  awaits-Verified :
      (key p : Text) (rows : List Row) (ps : List PendingRow)
      → All (Verified fails random old new rows) ps
      → awaits key ps ≡ some p
      → Verified fails random old new rows (record { key = key; plaintext = p })
  unfolding awaits
  awaits-Verified key p rows [] h e = cc
  awaits-Verified key p rows (q ∷ qs) h e = elim (awaits-cases key p q qs e) [
    | inl hit ↦ (h.0.0, ap (λ k. find_blob k rows) (sym hit.0) ∙ h.0.1, h.0.2 ∙ ap some hit.1)
    | inr later ↦ awaits-Verified key p rows qs h.1 later
  ]

  find_blob-Fate :
      (key : Text) (rows rows' : List Row) (ps : List PendingRow)
      → All (λ r. Reads fails random old new r.blob) rows
      → Written fails random old new ps rows rows'
      → All (Verified fails random old new rows') ps
      → awaits key ps ≡ noted fails random old new (find_blob key rows)
      → (found : Option (Option Text)) → find_blob key rows ≡ found
      → Fate found (find_blob key rows')
  unfolding noted
  find_blob-Fate key rows rows' ps reads w v note none e =
      w.untouched key (note ∙ ap (noted fails random old new) e) ∙ e
  find_blob-Fate key rows rows' ps reads w v note (some none) e =
      w.untouched key (note ∙ ap (noted fails random old new) e) ∙ e
  find_blob-Fate key rows rows' ps reads w v note (some (some blob)) e =
      elim (Bool-cases (ltb (length blob) min_sealed_blob_len)) [
        | inl short ↦
            rw short
              (w.untouched key (note ∙ ap (noted fails random old new) e ∙ rw short refl) ∙ e)
        | inr long ↦
            let (p, opens) : (p : Text) × (open_blob old blob ≡ some p) =
              find_blob-Reads key rows blob reads e long in
            let held : Verified fails random old new rows' (record { key = key; plaintext = p }) =
              awaits-Verified key p rows' ps v
                (note ∙ ap (noted fails random old new) e ∙ rw long opens) in
            rw long (p, held.0, opens, held.1, held.2)
      ]

  All-unheld :
      (F : RotateError → Type 0) (P : PendingRow → Type 0)
      → ((e : RotateError) → (Sound fails random old new → ⊥) → F e)
      → (ps : List PendingRow) → (Sound fails random old new → All P ps)
      → All (λ p. ¬ P p → (e : RotateError) → F e) ps
  All-unheld F P doubt [] h = tt
  All-unheld F P doubt (p ∷ ps) h =
      (λ no e. doubt e (λ s. no (h s).0), All-unheld F P doubt ps (λ s. (h s).1))

  module _ (F : RotateError → Type 0)
      (call_fault : (n : ℕ) (e : RotateError) → fails n ≡ true → F e)
      (seal_fault : (n : ℕ) (p key : Text) → seal new (random n) p ≡ none → F (seal_failed key))
      (doubt : (e : RotateError) → (Sound fails random old new → ⊥) → F e)
      (empty : open_blob new [] ≡ none) where
    rewrite_pending-Ends :
        (table column : Text) (rows : List Row) (sc : Scan) (tx : Tx)
        → Scanned fails random old new rows rows sc tx
        → Ends F
            (λ report tx'. Rotated rows tx'.rows report)
            (rewrite_pending fails random old new table column sc tx)
    unfolding rewrite_pending
    rewrite_pending-Ends table column rows sc tx s =
        Ends-after F (λ _ tx'. Written fails random old new sc.pending rows tx'.rows)
          (λ report tx'. Rotated rows tx'.rows report)
          (each (write_row fails random old new) sc.pending tx) _
          (write_rows-Ends fails random old new F call_fault seal_fault sc.pending rows tx s.kept)
          (λ _ tx' w.
            Ends-after F
              (λ _ tx''.
                (tx''.rows ≡ tx'.rows) × All (Verified fails random old new tx'.rows) sc.pending)
              (λ report tx''. Rotated rows tx''.rows report)
              (each (verify_row fails random old new) sc.pending tx') _
              (verify_rows-Ends fails random old new F call_fault sc.pending tx'.rows tx' refl empty
                (All-unheld F (Verified fails random old new tx'.rows) doubt sc.pending
                  (λ sound. w.holds sound s.distinct s.present)))
              (λ _ tx'' v. rw v.0 (record {
                fate = λ k.
                    find_blob-Fate k rows tx'.rows sc.pending s.reads w v.1 (s.notes k)
                      (find_blob k rows) refl;
                keys = w.keys;
                rewritten = s.sealed;
                counts = s.counts;
              })))

    pub rotate_column-Ends :
        (table column : Text) (tx : Tx)
        → AreKeyed tx.rows
        → All (Faulty fails random old new F call_fault) tx.rows
        → Ends F
            (λ report tx'. Rotated tx.rows tx'.rows report)
            (rotate_column fails random old new table column tx)
    unfolding rotate_column
    rotate_column-Ends table column tx keyed faulty =
        Ends-after F (λ _ tx'. tx'.rows ≡ tx.rows) (λ report tx'. Rotated tx.rows tx'.rows report)
          (call fails select_failed tx) _
          (call-Ends fails random old new F call_fault select_failed tx)
          (λ _ tx' e.
            Ends-after F (Scanned fails random old new tx.rows tx.rows)
              (λ report tx''. Rotated tx.rows tx''.rows report)
              (scan_rows fails random old new tx'.rows tx') _
              (subst
                (λ rs.
                  Ends F (Scanned fails random old new tx.rows tx.rows)
                    (scan_rows fails random old new rs tx'))
                (sym e)
                (subst
                  (λ rs.
                    Ends F (Scanned fails random old new tx.rows rs)
                      (scan_rows fails random old new tx.rows tx'))
                  e (scan_rows-Ends fails random old new F call_fault tx.rows tx' keyed faulty)))
              (λ sc tx'' s. rewrite_pending-Ends table column tx.rows sc tx'' s))
