-- ===== src/Conf/Peers.antt =====
-- Peers of a config file: `FindPeer`, `AddPeer`, `RemovePeer` and `ReplacePeer`.
use protean.Prelude.{
  List, [], ◌∷◌, ◌++◌, Bool, true, false, ◌≡◌, refl, ap, Option, none, some, arith, if◌then◌else◌,
  is_some,
}
use protean.Strings.{Text, codes, same}
use protean.Strings.Laws.{same_iff, same_refl}
use protean.Conf.{ConfPeer, ConfFile}
use protean.Conf.Options.{get_opt}

-- the key of a peer: the first `PublicKey` among its options
unfoldable pub public_key : ConfPeer → Option Text
public_key p = get_opt p.opts (codes "PublicKey")

-- the test of the four loops
unfoldable pub has_key : Text → Option Text → Bool
has_key key none = false
has_key key (some pk) = same pk key

unfoldable pub find_in : List ConfPeer → Text → Option ConfPeer
find_in [] key = none
find_in (p ∷ ps) key = if has_key key (public_key p) then some p else find_in ps key

-- FindPeer
unfoldable pub find_peer : ConfFile → Text → Option ConfPeer
find_peer cf key = find_in cf.peers key

-- AddPeer
unfoldable pub add_peer : ConfFile → ConfPeer → ConfFile
add_peer cf p = record cf { peers = cf.peers ++ p ∷ [] }

-- the loop of `RemovePeer`: the first peer with the key is taken out
unfoldable pub without : List ConfPeer → Text → List ConfPeer
without [] key = []
without (p ∷ ps) key = if has_key key (public_key p) then ps else p ∷ without ps key

-- RemovePeer: the file, and whether there was such a peer
unfoldable pub remove_peer : ConfFile → Text → ConfFile × Bool
remove_peer cf key = (record cf { peers = without cf.peers key }, is_some (find_in cf.peers key))

unfoldable pub replaced : List ConfPeer → Text → ConfPeer → List ConfPeer
replaced [] key new = []
replaced (p ∷ ps) key new = if has_key key (public_key p) then new ∷ ps else p ∷ replaced ps key new

-- ReplacePeer
unfoldable pub replace_peer : ConfFile → Text → ConfPeer → ConfFile × Bool
replace_peer cf key new =
    (record cf { peers = replaced cf.peers key new }, is_some (find_in cf.peers key))

-- No two peers have one key.
abbrev pub AreDistinct : List ConfPeer → Type 0
AreDistinct [] = Unit
AreDistinct (p ∷ ps) =
    ((key : Text) → has_key key (public_key p) ≡ true → find_in ps key ≡ none) × AreDistinct ps

-- A peer appended is found under its key, if the key was free, and the others as before.
pub find_in-append :
    (ps : List ConfPeer) (p : ConfPeer) (key : Text)
    → find_in (ps ++ p ∷ []) key
      ≡ (if is_some (find_in ps key) then find_in ps key else find_in (p ∷ []) key)
unfolding find_in
find_in-append [] p key = refl
find_in-append (q ∷ ps) p key = ground (arith, find_in-append ps p key)

not_found :
    (key : Text) (q : ConfPeer) (ps : List ConfPeer)
    → find_in (q ∷ ps) key ≡ none
    → find_in ps key ≡ none
unfolding find_in
not_found key q ps e = ground arith

not_both :
    (key : Text) (p q : ConfPeer) (ps : List ConfPeer)
    → has_key key (public_key q) ≡ true
    → (has_key key (public_key p) ≡ true → find_in (q ∷ ps) key ≡ none)
    → find_in ps key ≡ none
    → find_in (ps ++ p ∷ []) key ≡ none
unfolding find_in
not_both key p q ps e h n = ground (arith, find_in-append ps p key)

pub AreDistinct-append :
    (ps : List ConfPeer) (p : ConfPeer)
    → AreDistinct ps
    → ((key : Text) → has_key key (public_key p) ≡ true → find_in ps key ≡ none)
    → AreDistinct (ps ++ p ∷ [])
AreDistinct-append [] p d h = ((λ key e. unfold find_in in refl), tt)
AreDistinct-append (q ∷ ps) p d h = (
  (λ key e. apart key e (h key) (d.0 key e)),
  AreDistinct-append ps p d.1 (λ key e. behind key (h key e)),
)
  where
    apart :
        (key : Text)
        → has_key key (public_key q) ≡ true
        → (has_key key (public_key p) ≡ true → find_in (q ∷ ps) key ≡ none)
        → find_in ps key ≡ none
        → find_in (ps ++ p ∷ []) key ≡ none
    apart key e hk none_left = not_both key p q ps e hk none_left

    behind : (key : Text) → find_in (q ∷ ps) key ≡ none → find_in ps key ≡ none
    behind key e = not_found key q ps e

-- A peer with one key has another exactly if the two are one.
has_key_at : (o : Option Text) (a b : Text) → has_key a o ≡ true → has_key b o ≡ same a b
unfolding has_key
has_key_at none a b h = cc
has_key_at (some pk) a b h = ap (λ k. same k b) ((same_iff pk a).0 h)

-- In a file without two peers of one key, a removed key is found no more, and every other key is
-- found as before.
pub find_in-without :
    (ps : List ConfPeer) (key other : Text)
    → AreDistinct ps
    → find_in (without ps key) other ≡ (if same key other then none else find_in ps other)
unfolding find_in without
find_in-without [] key other d = ground arith
find_in-without (p ∷ ps) key other d = ground (
  arith,
  has_key_at (public_key p) key other,
  has_key_at (public_key p) other key,
  same_iff key other,
  same_iff other key,
  d.0 other,
  find_in-without ps key other d.1,
)

-- Peers of one key are replaced by one that has the key: it is found under the key, if a peer had it,
-- and every other key is found as before.
pub find_in-replaced :
    (ps : List ConfPeer) (key other : Text) (new : ConfPeer)
    → public_key new ≡ some key
    → find_in (replaced ps key new) other ≡ (
        if is_some (find_in ps key)
        then (if same key other then some new else find_in ps other)
        else find_in ps other)
unfolding find_in replaced
find_in-replaced [] key other new e = refl
find_in-replaced (p ∷ ps) key other new e =
    let own : has_key other (public_key new) ≡ same key other =
      has_key_at (public_key new) key other (rw e (unfold has_key in same_refl key)) in
    ground (
      arith,
      own,
      has_key_at (public_key p) key other,
      has_key_at (public_key p) other key,
      same_iff key other,
      same_iff other key,
      find_in-replaced ps key other new e,
    )
