-- ===== src/Rotation/Scanning.antt =====
-- What the first loop of `rotateColumn` collects.
use protean.Prelude.{
  ℕ, ◌+◌, List, [], ◌∷◌, Bool, true, false, ◌≡◌, refl, Option, none, some, ltb, length, arith,
  if◌then◌else◌, inl, inr, Bool-cases, All, All-map, is_some, not, ap, sym, ◌∙◌,
}
use protean.Prelude.Effects.{Except, pure, Ends, Ends-after}
use protean.Strings.{Text, same}
use protean.Strings.Laws.{same_iff, same_refl}
use protean.Sealing.{Encryptor, open_blob}
use protean.Rotation.{
  Row, Scan, PendingRow, Tx, RotateError, scan_failed, rows_failed, open_failed, call, scan_blob,
  opened_blob, scan_rows, find_blob, min_sealed_blob_len, add_pending, add_null, add_empty,
  empty_scan,
}

-- No two rows have one primary key.
abbrev pub AreKeyed : List Row → Type 0
AreKeyed [] = Unit
AreKeyed (r ∷ rs) = (find_blob r.key rs ≡ none) × AreKeyed rs

-- the plaintext that is kept for a row
unfoldable pub awaits : Text → List PendingRow → Option Text
awaits key [] = none
awaits key (p ∷ ps) = if same p.key key then some p.plaintext else awaits key ps

-- No two pending secrets have one key.
abbrev pub AreDistinct : List PendingRow → Type 0
AreDistinct [] = Unit
AreDistinct (p ∷ ps) = (awaits p.key ps ≡ none) × AreDistinct ps

abbrev pub ArePresent : List Row → List PendingRow → Type 0
ArePresent rows = All (λ p. is_some (find_blob p.key rows) ≡ true)

-- a blob that is long enough to be sealed
unfoldable pub is_sealed : Option Text → Bool
is_sealed none = false
is_sealed (some blob) = not (ltb (length blob) min_sealed_blob_len)

unfoldable pub count_sealed : List Row → ℕ
count_sealed [] = 0
count_sealed (r ∷ rs) = (if is_sealed r.blob then 1 else 0) + count_sealed rs

present-cons :
    (r : Row) (rows : List Row) (ps : List PendingRow)
    → ArePresent rows ps
    → ArePresent (r ∷ rows) ps
unfolding find_blob
present-cons r rows ps = All-map ps (λ p h. ground (arith, h))

module _ (fails : ℕ → Bool) (random : ℕ → Option Text) (old new : Encryptor) where
  -- the plaintext that the row's blob asks for
  unfoldable pub noted : Option (Option Text) → Option Text
  noted none = none
  noted (some none) = none
  noted (some (some blob)) =
      if ltb (length blob) min_sealed_blob_len then none else open_blob old blob

  -- A blob that is long enough opens with the old key.
  abbrev pub Reads : Option Text → Type 0
  Reads none = Unit
  Reads (some blob) =
      ltb (length blob) min_sealed_blob_len ≡ false → (p : Text) × (open_blob old blob ≡ some p)

  pub record Scanned (rows here : List Row) (sc : Scan) (tx : Tx) : Type 0 where
    pub notes : (key : Text) → awaits key sc.pending ≡ noted (find_blob key rows)
    pub sealed : length sc.pending ≡ count_sealed rows
    pub counts : length sc.pending + sc.skipped_empty + sc.skipped_null ≡ length rows
    pub reads : All (λ r. Reads r.blob) rows
    pub distinct : AreDistinct sc.pending
    pub present : ArePresent rows sc.pending
    pub kept : tx.rows ≡ here

  awaits-passed :
      (key : Text) (blob : Option Text) (rows : List Row) (pending : List PendingRow) (k : Text)
      → find_blob key rows ≡ none
      → noted (some blob) ≡ none
      → awaits k pending ≡ noted (find_blob k rows)
      → awaits k pending ≡ noted (find_blob k (record { key = key; blob = blob } ∷ rows))
  unfolding find_blob noted
  awaits-passed key blob rows pending k fresh skipped h = elim (Bool-cases (same key k)) [
    | inl e ↦ rw e (
        h
        ∙ ap (λ x. noted (find_blob x rows)) (sym ((same_iff key k).0 e))
        ∙ ap noted fresh
        ∙ sym skipped)
    | inr e ↦ rw e h
  ]

  module _ (F : RotateError → Type 0)
      (call_fault : (n : ℕ) (e : RotateError) → fails n ≡ true → F e) where
    abbrev pub Faulty : Row → Type 0
    Faulty r =
        (blob : Text)
        → r.blob ≡ some blob
        → ltb (length blob) min_sealed_blob_len ≡ false
        → open_blob old blob ≡ none
        → F (open_failed r.key)

    pub call-Ends :
        (e : RotateError) (tx : Tx) → Ends F (λ _ tx'. tx'.rows ≡ tx.rows) (call fails e tx)
    unfolding call
    call-Ends e tx = elim (Bool-cases (fails tx.calls)) [
      | inl h ↦ rw h (call_fault tx.calls e h)
      | inr h ↦ rw h refl
    ]

    opened_blob-Ends :
        (key blob : Text) (rows here : List Row) (rest : Tx → Except RotateError Scan × Tx)
        (tx : Tx)
        → Faulty (record { key = key; blob = some blob })
        → find_blob key rows ≡ none
        → Ends F (Scanned rows here) (rest tx)
        → ltb (length blob) min_sealed_blob_len ≡ false
        → (o : Option Text) → open_blob old blob ≡ o
        → Ends F
            (Scanned (record { key = key; blob = some blob } ∷ rows) here)
            (opened_blob fails random old new key o rest tx)
    unfolding opened_blob count_sealed is_sealed noted awaits find_blob
    opened_blob-Ends key blob rows here rest tx faulty fresh h long none o = faulty blob refl long o
    opened_blob-Ends key blob rows here rest tx faulty fresh h long (some plaintext) o =
        Ends-after F (Scanned rows here)
          (Scanned (record { key = key; blob = some blob } ∷ rows) here) (rest tx)
          (λ sc. pure (add_pending (record { key = key; plaintext = plaintext }) sc)) h
          (λ sc tx' hs. record {
            notes = λ k. elim (Bool-cases (same key k)) [
              | inl e ↦ rw e (rw long (sym o))
              | inr e ↦ rw e (hs.notes k)
            ];
            sealed = rw long (omega (arith, hs.sealed));
            counts = omega (arith, hs.counts);
            reads = ((λ _. (plaintext, o)), hs.reads);
            distinct = (hs.notes key ∙ ap noted fresh, hs.distinct);
            present = (
              rw (same_refl key),
              present-cons (record { key = key; blob = some blob }) rows sc.pending hs.present,
            );
            kept = hs.kept;
          })

    scan_blob-Ends :
        (key : Text) (blob : Option Text) (rows here : List Row)
        (rest : Tx → Except RotateError Scan × Tx) (tx : Tx)
        → Faulty (record { key = key; blob = blob })
        → find_blob key rows ≡ none
        → Ends F (Scanned rows here) (rest tx)
        → Ends F
            (Scanned (record { key = key; blob = blob } ∷ rows) here)
            (scan_blob fails random old new key blob rest tx)
    unfolding scan_blob count_sealed is_sealed noted
    scan_blob-Ends key none rows here rest tx faulty fresh h =
        Ends-after F (Scanned rows here) (Scanned (record { key = key; blob = none } ∷ rows) here)
          (rest tx) (λ sc. pure (add_null sc)) h
          (λ sc tx' hs. record {
            notes = λ k. awaits-passed key none rows sc.pending k fresh refl (hs.notes k);
            sealed = omega (arith, hs.sealed);
            counts = omega (arith, hs.counts);
            reads = (tt, hs.reads);
            distinct = hs.distinct;
            present = present-cons (record { key = key; blob = none }) rows sc.pending hs.present;
            kept = hs.kept;
          })
    scan_blob-Ends key (some blob) rows here rest tx faulty fresh h =
        elim (Bool-cases (ltb (length blob) min_sealed_blob_len)) [
          | inl short ↦ rw short (
              Ends-after F (Scanned rows here)
                (Scanned (record { key = key; blob = some blob } ∷ rows) here) (rest tx)
                (λ sc. pure (add_empty sc)) h
                (λ sc tx' hs. record {
                  notes = λ k.
                      awaits-passed key (some blob) rows sc.pending k fresh (rw short refl)
                        (hs.notes k);
                  sealed = rw short (omega (arith, hs.sealed));
                  counts = omega (arith, hs.counts);
                  reads = (λ long. cc, hs.reads);
                  distinct = hs.distinct;
                  present =
                      present-cons (record { key = key; blob = some blob }) rows sc.pending
                        hs.present;
                  kept = hs.kept;
                }))
          | inr long ↦ rw long (
              opened_blob-Ends key blob rows here rest tx faulty fresh h long (open_blob old blob)
                refl)
        ]

    pub scan_rows-Ends :
        (rows : List Row) (tx : Tx)
        → AreKeyed rows
        → All Faulty rows
        → Ends F (Scanned rows tx.rows) (scan_rows fails random old new rows tx)
    unfolding scan_rows awaits noted find_blob count_sealed
    scan_rows-Ends [] tx keyed faulty =
        Ends-after F (λ _ tx'. tx'.rows ≡ tx.rows) (Scanned [] tx.rows) (call fails rows_failed tx)
          (λ _ tx'. pure empty_scan tx') (call-Ends rows_failed tx)
          (λ _ tx' e. record {
            notes = λ key. refl;
            sealed = refl;
            counts = refl;
            reads = tt;
            distinct = tt;
            present = tt;
            kept = e;
          })
    scan_rows-Ends (r ∷ rows) tx keyed faulty =
        Ends-after F (λ _ tx'. tx'.rows ≡ tx.rows) (Scanned (r ∷ rows) tx.rows)
          (call fails scan_failed tx)
          (λ _. scan_blob fails random old new r.key r.blob (scan_rows fails random old new rows))
          (call-Ends scan_failed tx)
          (λ _ tx' e.
            scan_blob-Ends r.key r.blob rows tx.rows (scan_rows fails random old new rows) tx'
              faulty.0 keyed.0 (rw (sym e) (scan_rows-Ends rows tx' keyed.1 faulty.1)))
