-- ===== src/Rotation/Detect.antt =====
-- `Detect`: which columns a key can open, and what it answers of the new key behind a rotation.
use protean.Prelude.{
  some_inj, ℕ, suc, ◌<◌, List, [], ◌∷◌, ◌++◌, Bool, true, false, ◌≡◌, refl, sym, ap, ◌∙◌, Option,
  none, some, is_some, All, length, ltb, map, inl, inr, subst, ap₂, Option-cases, arith,
  if◌then◌else◌, Bool-cases,
}
use protean.Prelude.Effects.{ok}
use protean.Strings.{Text, codes, same, member}
use protean.Strings.Laws.{same_iff, same_refl}
use protean.Sealing.{Encryptor, open_blob}
use protean.Rotation.{Row, Column, ColumnReport, Commit, find_blob, rotate, min_sealed_blob_len}
use protean.Rotation.Scanning.{AreKeyed}
use protean.Rotation.Writing.{row_key}
use protean.Rotation.Columns.{Fate, Resealed, Rotated}
use protean.Rotation.Atomic.{AreAllKeyed, AreRotated, Promise, rotate-Promise}

-- `SELECT column ... WHERE column IS NOT NULL LIMIT 1`, where the rows come in their order
unfoldable pub first_blob : List Row → Option Text
first_blob [] = none
first_blob (r ∷ rs) = if is_some r.blob then r.blob else first_blob rs

-- the rest of the loop's body: `none` where the column is passed over
unfoldable pub detect_blob : Encryptor → Option Text → Option Bool
detect_blob enc none = none
detect_blob enc (some blob) =
    if ltb (length blob) min_sealed_blob_len then none else some (is_some (open_blob enc blob))

abbrev pub enter : Text → Option Bool → List (Text × Bool) → List (Text × Bool)
enter key none result = result
enter key (some opens) result = (key, opens) ∷ result

abbrev pub enter_all :
    Text → Option Bool → Option (List (Text × Bool)) → Option (List (Text × Bool))
enter_all key entry none = none
enter_all key entry (some result) = some (enter key entry result)

-- Detect: `none` where a call of the database fails
unfoldable pub detect : (ℕ → Bool) → Encryptor → List Column → ℕ → Option (List (Text × Bool))
unfolding first_blob detect_blob
detect fails enc [] calls = some []
detect fails enc (c ∷ cs) calls =
    let rest = detect fails enc cs (suc calls) in
    if fails calls
    then none
    else enter_all (c.table ++ codes "." ++ c.column) (detect_blob enc (first_blob c.rows)) rest

-- Every entry says that the key opens the column.
abbrev pub AllOpen : Option (List (Text × Bool)) → Type 0
AllOpen none = Unit
AllOpen (some result) = All (λ entry. entry.1 ≡ true) result

is_some-find_blob :
    (key : Text) (rows : List Row) → is_some (find_blob key rows) ≡ member key (map row_key rows)
unfolding find_blob member
is_some-find_blob key [] = refl
is_some-find_blob key (r ∷ rs) = ground (arith, is_some-find_blob key rs)

is_some-none : {A : Type 0} {o : Option A} → is_some o ≡ false → o ≡ none
is_some-none {o = none} h = refl
is_some-none {o = some a} h = cc

AreKeyed-keys :
    (rows rows' : List Row) → map row_key rows' ≡ map row_key rows → AreKeyed rows → AreKeyed rows'
AreKeyed-keys rows [] e h = tt
AreKeyed-keys [] (r' ∷ rs') e h = cc
AreKeyed-keys (r ∷ rs) (r' ∷ rs') e h = (
  is_some-none (
      is_some-find_blob r'.key rs'
      ∙ ap₂ member (cc) (cc)
      ∙ sym (is_some-find_blob r.key rs)
      ∙ ap is_some h.0),
  AreKeyed-keys rs rs' (cc) h.1,
)

skip_row :
    (r : Row) (rs : List Row) (key : Text) (v : Option Text)
    → find_blob r.key rs ≡ none
    → find_blob key rs ≡ some v
    → find_blob key (r ∷ rs) ≡ some v
unfolding find_blob
skip_row r rs key v fresh found = elim (Bool-cases (same r.key key)) [
  | inl e ↦
      let again : find_blob key rs ≡ none =
        ap (λ k. find_blob k rs) (sym ((same_iff r.key key).0 e)) ∙ fresh in
      cc
  | inr e ↦ rw e found
]

first_none : (r : Row) (rs : List Row) → r.blob ≡ none → first_blob (r ∷ rs) ≡ first_blob rs
unfolding first_blob
first_none r rs e = rw e

first_some : (r : Row) (rs : List Row) (b : Text) → r.blob ≡ some b → first_blob (r ∷ rs) ≡ some b
unfolding first_blob
first_some r rs b e = rw e

first_blob-find_blob :
    (rows : List Row) (blob : Text)
    → AreKeyed rows
    → first_blob rows ≡ some blob
    → (key : Text) × (find_blob key rows ≡ some (some blob))
unfolding first_blob find_blob
first_blob-find_blob [] blob keyed h = cc
first_blob-find_blob (r ∷ rs) blob keyed h = elim (Option-cases r.blob) [
  | inl e ↦
      let (key, found) : (key : Text) × (find_blob key rs ≡ some (some blob)) =
        first_blob-find_blob rs blob keyed.1 (sym (first_none r rs e) ∙ h) in
      (key, skip_row r rs key (some blob) keyed.0 found)
  | inr (b, e) ↦ (r.key, rw (same_refl r.key) (ap some (e ∙ sym (first_some r rs b e) ∙ h)))
]

module _ (fails : ℕ → Bool) (random : ℕ → Option Text) (old new : Encryptor) where
  open_blob-Resealed :
      (short : Bool) (b blob : Text)
      → ltb (length b) min_sealed_blob_len ≡ short
      → Resealed fails random old new short b (some (some blob))
      → ltb (length blob) min_sealed_blob_len ≡ false
      → is_some (open_blob new blob) ≡ true
  open_blob-Resealed true b blob e fate long =
      let same_length : ltb (length blob) min_sealed_blob_len ≡ true =
        ap (λ c. ltb (length c) min_sealed_blob_len) (some_inj (some_inj fate)) ∙ e in
      cc
  open_blob-Resealed false b blob e (p, b', _, at, opens) long =
      ap (λ c. is_some (open_blob new c)) (some_inj (some_inj at)) ∙ ap is_some opens

  opens_after :
      (blob : Text) (before : Option (Option Text))
      → Fate fails random old new before (some (some blob))
      → ltb (length blob) min_sealed_blob_len ≡ false
      → is_some (open_blob new blob) ≡ true
  opens_after blob none fate long = cc
  opens_after blob (some none) fate long = cc
  opens_after blob (some (some b)) fate long =
      open_blob-Resealed (ltb (length b) min_sealed_blob_len) b blob refl fate long

  detect_blob-Opens :
      (rows rows' : List Row) (report : ColumnReport) (found : Option Text)
      → AreKeyed rows
      → Rotated fails random old new rows rows' report
      → first_blob rows' ≡ found
      → (opens : Bool) → detect_blob new found ≡ some opens
      → opens ≡ true
  unfolding detect_blob
  detect_blob-Opens rows rows' report none keyed h e opens d = cc
  detect_blob-Opens rows rows' report (some blob) keyed h e opens d =
      elim (Bool-cases (ltb (length blob) min_sealed_blob_len)) [
        | inl short ↦ let passed : detect_blob new (some blob) ≡ none = rw short in cc
        | inr long ↦
            let (key, found) : (key : Text) × (find_blob key rows' ≡ some (some blob)) =
              first_blob-find_blob rows' blob (AreKeyed-keys rows rows' h.keys keyed) e in
            let opened_by_new : is_some (open_blob new blob) ≡ true =
              opens_after blob (find_blob key rows)
                (subst (Fate fails random old new (find_blob key rows)) found (h.fate key)) long in
            let entry : detect_blob new (some blob) ≡ some true = rw long (rw opened_by_new) in
            some_inj (sym d ∙ entry)
      ]

  enter-AllOpen :
      (key : Text) (entry : Option Bool) (rest : Option (List (Text × Bool)))
      → ((opens : Bool) → entry ≡ some opens → opens ≡ true)
      → AllOpen rest
      → AllOpen (enter_all key entry rest)
  enter-AllOpen key entry none h k = tt
  enter-AllOpen key none (some result) h k = k
  enter-AllOpen key (some opens) (some result) h k = (h opens refl, k)

  detect-AllOpen :
      (columns rotated : List Column) (reports : List ColumnReport) (n : ℕ)
      → AreAllKeyed columns
      → AreRotated fails random old new columns reports rotated
      → AllOpen (detect fails new rotated n)
  unfolding detect
  detect-AllOpen [] [] [] n keyed h = tt
  detect-AllOpen [] [] (r ∷ rs) n keyed h = absurd h
  detect-AllOpen [] (c ∷ cs) [] n keyed h = absurd h
  detect-AllOpen [] (c ∷ cs) (r ∷ rs) n keyed h = absurd h
  detect-AllOpen (c ∷ cs) [] [] n keyed h = absurd h
  detect-AllOpen (c ∷ cs) [] (r ∷ rs) n keyed h = absurd h
  detect-AllOpen (c ∷ cs) (c' ∷ cs') [] n keyed h = absurd h
  detect-AllOpen (c ∷ cs) (c' ∷ cs') (r ∷ rs) n keyed (_, _, rotated, rest) =
      elim (Bool-cases (fails n)) [
        | inl down ↦ rw down tt
        | inr up ↦ rw up (
            enter-AllOpen (c'.table ++ codes "." ++ c'.column)
              (detect_blob new (first_blob c'.rows)) (detect fails new cs' (suc n))
              (detect_blob-Opens c.rows c'.rows r (first_blob c'.rows) keyed.0 rotated refl)
              (detect-AllOpen cs cs' rs (suc n) keyed.1 rest))
      ]

  -- Where the rows of each column have distinct keys and a nonce is not empty: behind a rotation that
  -- succeeded, Detect says of each column in its answer that the new key opens it.
  pub detect-rotate :
      (how : Commit) (columns db : List Column) (reports : List ColumnReport) (n : ℕ)
      → AreAllKeyed columns
      → 0 < new.nonce_size
      → rotate fails random old new how false columns ≡ (ok reports, db)
      → AllOpen (detect fails new db n)
  detect-rotate how columns db reports n keyed nonce h = detect-AllOpen columns db reports n keyed (
      subst (Promise fails random old new false columns) h
        (rotate-Promise fails random old new how false columns keyed nonce))
