-- ===== src/Firewall/Sorting.antt =====
-- internal/firewall/render.go: the order in which `Render` writes the ports of the baseline.
use mathlib.Core.List.{Permᴰ}
use mathlib.Core.List.Permᴰ
use protean.Prelude.{
  List, [], ◌∷◌, ◌≡◌, refl, Bool, true, false, not, ◌||◌, leb, if◌then◌else◌, arith, subst,
}
use protean.Strings.{Text, same}
use protean.Strings.Laws.{same_iff}
use protean.Firewall.{Port, less, comes_before, insert, sorted}

-- The protocols do not fall, and the numbers of one protocol do not.
pub record InOrder (a b : Port) : Type 0 where
  pub protos : less b.proto a.proto ≡ false
  pub numbers : (not (same a.proto b.proto) || leb a.number b.number) ≡ true

abbrev pub IsOrdered : List Port → Type 0
IsOrdered [] = Unit
IsOrdered (a ∷ []) = Unit
IsOrdered (a ∷ b ∷ cs) = InOrder a b × IsOrdered (b ∷ cs)

less_asym : (s t : Text) → less s t ≡ true → less t s ≡ false
unfolding less
less_asym [] [] h = refl
less_asym [] (d ∷ t) h = refl
less_asym (c ∷ s) [] h = cc
less_asym (c ∷ s) (d ∷ t) h = ground (arith, less_asym s t)

less_irrefl : (s : Text) → less s s ≡ false
unfolding less
less_irrefl [] = refl
less_irrefl (c ∷ s) = ground (arith, less_irrefl s)

same_not_less : (s t : Text) → same s t ≡ true → less s t ≡ false
same_not_less s t h = subst (λ u. less s u ≡ false) ((same_iff s t).0 h) (less_irrefl s)

same_sym : (s t : Text) → same s t ≡ same t s
unfolding same
same_sym [] [] = refl
same_sym [] (d ∷ t) = refl
same_sym (c ∷ s) [] = refl
same_sym (c ∷ s) (d ∷ t) = ground (arith, same_sym s t)

InOrder-after : (a b : Port) → comes_before b a ≡ true → InOrder b a
unfolding comes_before
InOrder-after a b h = record {
  protos =
      ground
        (arith, less_asym b.proto a.proto, same_not_less a.proto b.proto, same_sym a.proto b.proto);
  numbers = ground arith;
}

InOrder-before : (a b : Port) → comes_before b a ≡ false → InOrder a b
unfolding comes_before
InOrder-before a b h = record {
  protos = ground (arith, same_not_less b.proto a.proto);
  numbers = ground (arith, same_sym a.proto b.proto);
}

-- The list behind a port stays in order with one inserted that comes after the port.
insert_behind :
    (a b : Port) (cs : List Port) → InOrder b a → IsOrdered (b ∷ cs) → IsOrdered (b ∷ insert a cs)
unfolding insert
insert_behind a b [] h o = (h, tt)
insert_behind a b (c ∷ cs) h o =
    pick (comes_before c a) refl (λ e. insert_behind a c cs (InOrder-after a c e) o.1)
  where
    pick :
        (t : Bool)
        → comes_before c a ≡ t
        → (comes_before c a ≡ true → IsOrdered (c ∷ insert a cs))
        → IsOrdered (b ∷ (if t then c ∷ insert a cs else a ∷ c ∷ cs))
    pick true e more = (o.0, more e)
    pick false e more = (h, (InOrder-before a c e, o.1))

insert-IsOrdered : (a : Port) (cs : List Port) → IsOrdered cs → IsOrdered (insert a cs)
unfolding insert
insert-IsOrdered a [] o = tt
insert-IsOrdered a (c ∷ cs) o = pick (comes_before c a) refl
  where
    pick : (t : Bool) → comes_before c a ≡ t → IsOrdered (if t then c ∷ insert a cs else a ∷ c ∷ cs)
    pick true e = insert_behind a c cs (InOrder-after a c e) o
    pick false e = (InOrder-before a c e, o)

pub sorted-IsOrdered : (ps : List Port) → IsOrdered (sorted ps)
unfolding sorted
sorted-IsOrdered [] = tt
sorted-IsOrdered (a ∷ ps) = insert-IsOrdered a (sorted ps) (sorted-IsOrdered ps)

insert-Permᴰ : (a : Port) (cs : List Port) → Permᴰ (a ∷ cs) (insert a cs)
unfolding insert
insert-Permᴰ a [] = Permᴰ.refl (a ∷ [])
insert-Permᴰ a (c ∷ cs) = pick (comes_before c a) (insert-Permᴰ a cs)
  where
    pick :
        (t : Bool)
        → Permᴰ (a ∷ cs) (insert a cs)
        → Permᴰ (a ∷ c ∷ cs) (if t then c ∷ insert a cs else a ∷ c ∷ cs)
    pick true more = Permᴰ.trans (Permᴰ.swap refl refl) (Permᴰ.cons refl more)
    pick false more = Permᴰ.refl (a ∷ c ∷ cs)

pub sorted-Permᴰ : (ps : List Port) → Permᴰ ps (sorted ps)
unfolding sorted
sorted-Permᴰ [] = Permᴰ.refl []
sorted-Permᴰ (a ∷ ps) = Permᴰ.trans (Permᴰ.cons refl (sorted-Permᴰ ps)) (insert-Permᴰ a (sorted ps))
