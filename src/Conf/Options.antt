-- ===== src/Conf/Options.antt =====
-- Options of a section: `getOpt`, `setOpt`, `InterfaceGet`, `InterfaceSet` and `InterfaceUnset`.
use protean.Prelude.{
  ℕ, ◌+◌, List, [], ◌∷◌, map, Bool, true, ◌&&◌, ◌≡◌, refl, Option, none, some, arith, leb, ◌==◌,
  if◌then◌else◌,
}
use protean.Strings.{Text, same}
use protean.Strings.Laws.{same_iff}
use protean.Conf.{Kv, ConfFile}

-- one letter of an ASCII word in lower case, U+017F and U+212A included
unfoldable pub fold : ℕ → ℕ
fold c =
    if leb b'A' c && leb c b'Z'
    then c + 32
    else if c == 0x17f
    then b's'
    else if c == 0x212a
    then b'k'
    else c

-- `strings.EqualFold`
unfoldable pub equal_fold : Text → Text → Bool
unfolding fold
equal_fold s t = same (map fold s) (map fold t)

-- getOpt
unfoldable pub get_opt : List Kv → Text → Option Text
get_opt [] key = none
get_opt (kv ∷ kvs) key = if equal_fold kv.key key then some kv.value else get_opt kvs key

-- setOpt
unfoldable pub set_opt : List Kv → Text → Text → List Kv
set_opt [] key value = record { key = key; value = value } ∷ []
set_opt (kv ∷ kvs) key value =
    if equal_fold kv.key key then record kv { value = value } ∷ kvs else kv ∷ set_opt kvs key value

-- InterfaceGet, InterfaceSet
unfoldable pub interface_get : ConfFile → Text → Option Text
interface_get cf key = get_opt cf.interface_opts key

unfoldable pub interface_set : ConfFile → Text → Text → ConfFile
interface_set cf key value = record cf { interface_opts = set_opt cf.interface_opts key value }

unfoldable pub unset_opt : List Kv → Text → List Kv
unset_opt [] key = []
unset_opt (kv ∷ kvs) key =
    if equal_fold kv.key key then unset_opt kvs key else kv ∷ unset_opt kvs key

-- InterfaceUnset
unfoldable pub interface_unset : ConfFile → Text → ConfFile
unfolding unset_opt
interface_unset cf key = record cf { interface_opts = unset_opt cf.interface_opts key }

pub equal_fold_refl : (s : Text) → equal_fold s s ≡ true
unfolding equal_fold
equal_fold_refl s = (same_iff (map fold s) (map fold s)).1 refl

equal_fold→eq : (s t : Text) → equal_fold s t ≡ true → map fold s ≡ map fold t
unfolding equal_fold
equal_fold→eq s t h = (same_iff (map fold s) (map fold t)).0 h

-- Two keys that fold alike are found alike.
equal_fold_congr : (s t u : Text) → equal_fold s t ≡ true → equal_fold u s ≡ equal_fold u t
equal_fold_congr s t u h =
    let e = equal_fold→eq s t h in unfold equal_fold in λ i. same (map fold u) (e i)

equal_fold_left : (s t u : Text) → equal_fold s t ≡ true → equal_fold s u ≡ equal_fold t u
equal_fold_left s t u h =
    let e = equal_fold→eq s t h in unfold equal_fold in λ i. same (e i) (map fold u)

-- Reading after a write: the new value under every spelling of the key, and else what was there.
pub get_opt-set_opt :
    (kvs : List Kv) (key other value : Text)
    → get_opt (set_opt kvs key value) other
      ≡ (if equal_fold key other then some value else get_opt kvs other)
unfolding get_opt set_opt
get_opt-set_opt [] key other value = refl
get_opt-set_opt (kv ∷ kvs) key other value = ground (
  arith,
  equal_fold_left kv.key key other,
  equal_fold_congr key other kv.key,
  get_opt-set_opt kvs key other value,
)

-- A key that was removed is found under no spelling, and every other key is found as before.
pub get_opt-unset_opt :
    (kvs : List Kv) (key other : Text)
    → get_opt (unset_opt kvs key) other ≡ (if equal_fold key other then none else get_opt kvs other)
unfolding get_opt unset_opt
get_opt-unset_opt [] key other = ground arith
get_opt-unset_opt (kv ∷ kvs) key other = ground (
  arith,
  equal_fold_left kv.key key other,
  equal_fold_congr key other kv.key,
  get_opt-unset_opt kvs key other,
)
