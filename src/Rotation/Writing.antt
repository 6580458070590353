-- ===== src/Rotation/Writing.antt =====
-- The first loop of `rotateColumn` over the pending secrets, which writes them with the new key.
use protean.Prelude.{
  ℕ, List, [], ◌∷◌, Bool, true, false, ◌≡◌, refl, sym, ◌∙◌, Option, none, some, is_some, map, arith,
  All, All-map,
}
use protean.Prelude.Effects.{ok, each, Ends, Ends-after, Ends-weaken}
use protean.Strings.{Text, same}
use protean.Strings.Laws.{same_iff}
use protean.Sealing.{Encryptor, seal, open_blob}
use protean.Rotation.{
  Row, PendingRow, Tx, RotateError, update_failed, seal_failed, call, find_blob, put_blob,
  put_sealed, write_row,
}
use protean.Rotation.Scanning.{awaits, AreDistinct, ArePresent, call-Ends}
use protean.Rotation.Verifying.{Verified}

find_blob-put_blob_self :
    (key blob : Text) (rows : List Row)
    → is_some (find_blob key rows) ≡ true
    → find_blob key (put_blob key blob rows) ≡ some (some blob)
unfolding find_blob put_blob
find_blob-put_blob_self key blob [] h = cc
find_blob-put_blob_self key blob (r ∷ rs) h = ground (arith, find_blob-put_blob_self key blob rs)

find_blob-put_blob_other :
    (key blob : Text) (rows : List Row) (k : Text)
    → same key k ≡ false
    → find_blob k (put_blob key blob rows) ≡ find_blob k rows
unfolding find_blob put_blob
find_blob-put_blob_other key blob [] k h = refl
find_blob-put_blob_other key blob (r ∷ rs) k h =
    ground (arith, find_blob-put_blob_other key blob rs k h, (same_iff r.key key).0)

abbrev pub row_key : Row → Text
row_key r = r.key

map-put_blob :
    (key blob : Text) (rows : List Row) → map row_key (put_blob key blob rows) ≡ map row_key rows
unfolding put_blob
map-put_blob key blob [] = refl
map-put_blob key blob (r ∷ rs) = ground (arith, map-put_blob key blob rs)

is_some-put_blob :
    (key blob : Text) (rows : List Row) (k : Text)
    → is_some (find_blob k rows) ≡ true
    → is_some (find_blob k (put_blob key blob rows)) ≡ true
unfolding find_blob put_blob
is_some-put_blob key blob [] k h = h
is_some-put_blob key blob (r ∷ rs) k h = ground (arith, is_some-put_blob key blob rs k)

awaits-none :
    (p : PendingRow) (ps : List PendingRow) (k : Text)
    → awaits k (p ∷ ps) ≡ none
    → (same p.key k ≡ false) × (awaits k ps ≡ none)
unfolding awaits
awaits-none p ps k h = ground arith

module _ (fails : ℕ → Bool) (random : ℕ → Option Text) (old new : Encryptor) where
  -- What the new key seals, it opens again.
  abbrev pub Sound : Type 0
  Sound = (n : ℕ) (p b : Text) → seal new (random n) p ≡ some b → open_blob new b ≡ some p

  pub record Written (ps : List PendingRow) (rows rows' : List Row) : Type 0 where
    pub untouched : (k : Text) → awaits k ps ≡ none → find_blob k rows' ≡ find_blob k rows
    pub keys : map row_key rows' ≡ map row_key rows
    pub present :
        (k : Text) → is_some (find_blob k rows) ≡ true → is_some (find_blob k rows') ≡ true
    pub holds :
        Sound → AreDistinct ps → ArePresent rows ps → All (Verified fails random old new rows') ps

  put_blob-Written :
      (p : PendingRow) (rows : List Row) (n : ℕ) (blob : Text)
      → seal new (random n) p.plaintext ≡ some blob
      → Written (p ∷ []) rows (put_blob p.key blob rows)
  unfolding awaits
  put_blob-Written p rows n blob e = record {
    untouched = λ k free. find_blob-put_blob_other p.key blob rows k (awaits-none p [] k free).0;
    keys = map-put_blob p.key blob rows;
    present = is_some-put_blob p.key blob rows;
    holds = λ sound _ here.
        ((blob, find_blob-put_blob_self p.key blob rows here.0, sound n p.plaintext blob e), tt);
  }

  Written-after :
      (p : PendingRow) (ps : List PendingRow) (a b c : List Row)
      → Written (p ∷ []) a b
      → Written ps b c
      → Written (p ∷ ps) a c
  unfolding awaits
  Written-after p ps a b c first rest = record {
    untouched = λ k free.
        rest.untouched k (awaits-none p ps k free).1
        ∙ first.untouched k (rw (awaits-none p ps k free).0);
    keys = rest.keys ∙ first.keys;
    present = λ k h. rest.present k (first.present k h);
    holds = λ sound apart here. (
      (
        (first.holds sound (refl, tt) (here.0, tt)).0.0,
        rest.untouched p.key apart.0 ∙ (first.holds sound (refl, tt) (here.0, tt)).0.1,
        (first.holds sound (refl, tt) (here.0, tt)).0.2,
      ),
      rest.holds sound apart.1 (All-map ps (λ q. first.present q.key) here.1),
    );
  }

  module _ (F : RotateError → Type 0)
      (call_fault : (n : ℕ) (e : RotateError) → fails n ≡ true → F e)
      (seal_fault : (n : ℕ) (p key : Text)
        → seal new (random n) p ≡ none
        → F (seal_failed key)) where
    put_sealed-Ends :
        (p : PendingRow) (rows : List Row) (tx : Tx)
        → tx.rows ≡ rows
        → (n : ℕ) (o : Option Text) → seal new (random n) p.plaintext ≡ o
        → Ends F
            (λ _ tx'. Written (p ∷ []) rows tx'.rows)
            (put_sealed fails random old new p.key o tx)
    unfolding put_sealed
    put_sealed-Ends p rows tx here n none e = seal_fault n p.plaintext p.key e
    put_sealed-Ends p rows tx here n (some blob) e =
        Ends-after F (λ _ tx'. tx'.rows ≡ tx.rows) (λ _ tx'. Written (p ∷ []) rows tx'.rows)
          (call fails (update_failed p.key) tx)
          (λ _ tx'. (ok tt, record tx' { rows = put_blob p.key blob tx'.rows }))
          (call-Ends fails random old new F call_fault (update_failed p.key) tx)
          (λ _ tx' k. rw (k ∙ here) (put_blob-Written p rows n blob e))

    pub write_rows-Ends :
        (ps : List PendingRow) (rows : List Row) (tx : Tx)
        → tx.rows ≡ rows
        → Ends F (λ _ tx'. Written ps rows tx'.rows) (each (write_row fails random old new) ps tx)
    unfolding write_row
    write_rows-Ends [] rows tx here = rw (sym here) (record {
      untouched = λ k free. refl;
      keys = refl;
      present = λ k h. h;
      holds = λ sound apart h. tt;
    })
    write_rows-Ends (p ∷ ps) rows tx here =
        Ends-after F (λ _ tx'. Written (p ∷ []) rows tx'.rows)
          (λ _ tx'. Written (p ∷ ps) rows tx'.rows) (write_row fails random old new p tx)
          (λ _. each (write_row fails random old new) ps)
          (put_sealed-Ends p rows tx here tx.calls (seal new (random tx.calls) p.plaintext) refl)
          (λ _ tx' first.
            Ends-weaken F (λ _ tx''. Written ps tx'.rows tx''.rows)
              (λ _ tx''. Written (p ∷ ps) rows tx''.rows)
              (each (write_row fails random old new) ps tx') (write_rows-Ends ps tx'.rows tx' refl)
              (λ _ tx'' rest. Written-after p ps rows tx'.rows tx''.rows first rest))
