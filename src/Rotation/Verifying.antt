-- ===== src/Rotation/Verifying.antt =====
-- The second loop of `rotateColumn` over the pending secrets, which reads them again.
use protean.Prelude.{
  ℕ, List, [], ◌∷◌, Bool, true, false, ◌≡◌, refl, sym, ap, ◌∙◌, Option, none, some, inl, inr,
  Bool-cases, All,
}
use protean.Prelude.Effects.{each, Ends, Ends-after, Ends-weaken}
use protean.Strings.{Text, same}
use protean.Strings.Laws.{same_iff, same_refl}
use protean.Sealing.{Encryptor, open_blob}
use protean.Rotation.{
  Row, PendingRow, Tx, RotateError, verify_select_failed, verify_open_failed, verify_mismatch, call,
  find_blob, verify_row, verify_blob, compare_plaintext,
}
use protean.Rotation.Scanning.{call-Ends}

same-absurd : (s t : Text) → same s t ≡ false → some s ≡ some t → ⊥
same-absurd s t e h = let r : same s s ≡ true = same_refl s in cc

module _ (fails : ℕ → Bool) (random : ℕ → Option Text) (old new : Encryptor) where
  -- The row of a pending secret holds it, sealed with the new key.
  abbrev pub Verified : List Row → PendingRow → Type 0
  Verified rows p =
      (b : Text) × (find_blob p.key rows ≡ some (some b)) × (open_blob new b ≡ some p.plaintext)

  module _ (F : RotateError → Type 0)
      (call_fault : (n : ℕ) (e : RotateError) → fails n ≡ true → F e) where
    abbrev pub Kept : Tx → {A : Type 0} → A → Tx → Type 0
    Kept tx _ tx' = tx'.rows ≡ tx.rows

    compare-Ends :
        (p : PendingRow) (b : Text) (tx : Tx)
        → (¬ (open_blob new b ≡ some p.plaintext) → (e : RotateError) → F e)
        → (got : Option Text) → open_blob new b ≡ got
        → Ends F
            (λ _ tx'. (tx'.rows ≡ tx.rows) × (open_blob new b ≡ some p.plaintext))
            (compare_plaintext fails random old new p got tx)
    unfolding compare_plaintext
    compare-Ends p b tx fault none o = fault (λ h. cc) (verify_open_failed p.key)
    compare-Ends p b tx fault (some got) o = elim (Bool-cases (same got p.plaintext)) [
      | inl e ↦ rw e (refl, o ∙ ap some ((same_iff got p.plaintext).0 e))
      | inr e ↦
          rw e (fault (λ h. same-absurd got p.plaintext e (sym o ∙ h)) (verify_mismatch p.key))
    ]

    verify_blob-Ends :
        (p : PendingRow) (tx : Tx)
        → open_blob new [] ≡ none
        → (¬ Verified tx.rows p → (e : RotateError) → F e)
        → (found : Option (Option Text)) → find_blob p.key tx.rows ≡ found
        → Ends F
            (λ _ tx'. (tx'.rows ≡ tx.rows) × Verified tx.rows p)
            (verify_blob fails random old new p found tx)
    unfolding verify_blob compare_plaintext
    verify_blob-Ends p tx empty fault none e = fault (λ (b, at, _). cc) (verify_select_failed p.key)
    verify_blob-Ends p tx empty fault (some none) e =
        rw empty (fault (λ (b, at, _). cc) (verify_open_failed p.key))
    verify_blob-Ends p tx empty fault (some (some b)) e =
        Ends-weaken F _ (λ _ tx'. (tx'.rows ≡ tx.rows) × Verified tx.rows p)
          (compare_plaintext fails random old new p (open_blob new b) tx)
          (compare-Ends p b tx (λ wrong. fault (λ (b', at, opens). wrong (cc))) (open_blob new b)
            refl)
          (λ _ _ (kept, opens). (kept, (b, e, opens)))

    -- The rows stay as they are, and the pending secret is verified.
    pub verify_row-Ends :
        (p : PendingRow) (rows : List Row) (tx : Tx)
        → tx.rows ≡ rows
        → open_blob new [] ≡ none
        → (¬ Verified rows p → (e : RotateError) → F e)
        → Ends F
            (λ _ tx'. (tx'.rows ≡ rows) × Verified rows p)
            (verify_row fails random old new p tx)
    unfolding verify_row
    verify_row-Ends p rows tx here empty fault =
        Ends-after F (Kept tx) (λ _ tx'. (tx'.rows ≡ rows) × Verified rows p)
          (call fails (verify_select_failed p.key) tx)
          (λ _ tx'. verify_blob fails random old new p (find_blob p.key tx'.rows) tx')
          (call-Ends fails random old new F call_fault (verify_select_failed p.key) tx)
          (λ _ tx' e. rw (sym (e ∙ here)) (
            verify_blob-Ends p tx' empty (λ no. fault (rw (sym (e ∙ here)) no))
              (find_blob p.key tx'.rows) refl))

    -- The rows stay as they are, and every pending secret is verified.
    pub verify_rows-Ends :
        (ps : List PendingRow) (rows : List Row) (tx : Tx)
        → tx.rows ≡ rows
        → open_blob new [] ≡ none
        → All (λ p. ¬ Verified rows p → (e : RotateError) → F e) ps
        → Ends F
            (λ _ tx'. (tx'.rows ≡ rows) × All (Verified rows) ps)
            (each (verify_row fails random old new) ps tx)
    verify_rows-Ends [] rows tx here empty fault = (here, tt)
    verify_rows-Ends (p ∷ ps) rows tx here empty fault =
        Ends-after F (λ _ tx'. (tx'.rows ≡ rows) × Verified rows p)
          (λ _ tx'. (tx'.rows ≡ rows) × All (Verified rows) (p ∷ ps))
          (verify_row fails random old new p tx) (λ _. each (verify_row fails random old new) ps)
          (verify_row-Ends p rows tx here empty fault.0)
          (λ _ tx' h.
            Ends-weaken F (λ _ tx''. (tx''.rows ≡ rows) × All (Verified rows) ps)
              (λ _ tx''. (tx''.rows ≡ rows) × All (Verified rows) (p ∷ ps))
              (each (verify_row fails random old new) ps tx')
              (verify_rows-Ends ps rows tx' h.0 empty fault.1) (λ _ tx'' k. (k.0, (h.1, k.1))))
