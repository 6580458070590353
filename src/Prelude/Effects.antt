-- ===== src/Prelude/Effects.antt =====
-- Steps that change a state and may fail: what was written stays written.
use mathlib.Core.Path.{◌≡◌, refl}
use mathlib.Core.Bool.{Bool, true, false}
use mathlib.Core.List.{List, [], ◌∷◌}
use mathlib.Core.Option.{Option, none, some}

pub data Except (E A : Type 0) : Type 0 where
  ok : A → Except E A
  failed : E → Except E A

abbrev pub Action : Type 0 → Type 0 → Type 0 → Type 0
Action S E A = S → Except E A × S

module _ {S E A : Type 0} where
  abbrev pub pure : A → Action S E A
  pure a s = (ok a, s)

  abbrev pub raise : E → Action S E A
  raise e s = (failed e, s)

  abbrev pub gets : (S → A) → Action S E A
  gets f s = (ok (f s), s)

  abbrev pub from_except : Except E A → Action S E A
  from_except r s = (r, s)

  abbrev pub from_option : Option A → E → Action S E A
  from_option none e s = (failed e, s)
  from_option (some a) e s = (ok a, s)

module _ {S E : Type 0} where
  abbrev pub modify : (S → S) → Action S E (Unit {0})
  modify f s = (ok tt, f s)

  abbrev pub require : Bool → E → Action S E (Unit {0})
  require true e s = (ok tt, s)
  require false e s = (failed e, s)

-- what follows an outcome
abbrev pub after : {S E A B : Type 0} → Except E A × S → (A → Action S E B) → Except E B × S
after (ok a, s) f = f a s
after (failed e, s) f = (failed e, s)

infixl 5 ◌>>=◌ ◌>>◌
abbrev pub ◌>>=◌ : {S E A B : Type 0} → Action S E A → (A → Action S E B) → Action S E B
◌>>=◌ m f s = after (m s) f

abbrev pub ◌>>◌ : {S E A B : Type 0} → Action S E A → Action S E B → Action S E B
m >> k = m >>= λ _. k

-- a loop over a collection, up to the first error
abbrev pub each : {S E A : Type 0} → (A → Action S E (Unit {0})) → List A → Action S E (Unit {0})
each f [] s = (ok tt, s)
each f (x ∷ xs) s = after (f x s) (λ _. each f xs)

-- `Q` of the value and the state after a success, `F` of the error and the state after a failure.
abbrev pub Runs : {S E A : Type 0} → (E → S → Type 0) → (A → S → Type 0) → Except E A × S → Type 0
Runs F Q (ok a, s) = Q a s
Runs F Q (failed e, s) = F e s

pub Runs-after :
    {S E A B : Type 0} (F : E → S → Type 0) (P : A → S → Type 0) (Q : B → S → Type 0)
    (r : Except E A × S) (f : A → Action S E B)
    → Runs F P r
    → ((a : A) (s : S) → P a s → Runs F Q (f a s))
    → Runs F Q (after r f)
Runs-after F P Q (ok a, s) f h k = k a s h
Runs-after F P Q (failed e, s) f h k = h

pub Runs-weaken :
    {S E A : Type 0} (F : E → S → Type 0) (P Q : A → S → Type 0) (r : Except E A × S)
    → Runs F P r
    → ((a : A) (s : S) → P a s → Q a s)
    → Runs F Q r
Runs-weaken F P Q (ok a, s) h k = k a s h
Runs-weaken F P Q (failed e, s) h k = h

pub from_option-Runs :
    {S E A : Type 0} (F : E → S → Type 0) (o : Option A) (e : E) (s : S)
    → (o ≡ none → F e s)
    → Runs F (λ a s'. (o ≡ some a) × (s' ≡ s)) (from_option o e s)
from_option-Runs F none e s h = h refl
from_option-Runs F (some a) e s h = (refl, refl)

pub require-Runs :
    {S E : Type 0} (F : E → S → Type 0) (b : Bool) (e : E) (s : S)
    → (b ≡ false → F e s)
    → Runs F (λ _ s'. (b ≡ true) × (s' ≡ s)) (require b e s)
require-Runs F true e s h = (refl, refl)
require-Runs F false e s h = h refl

-- The error alone.
abbrev pub Ends : {S E A : Type 0} → (E → Type 0) → (A → S → Type 0) → Except E A × S → Type 0
Ends F Q r = Runs (λ e _. F e) Q r

pub Ends-after :
    {S E A B : Type 0} (F : E → Type 0) (P : A → S → Type 0) (Q : B → S → Type 0)
    (r : Except E A × S) (f : A → Action S E B)
    → Ends F P r
    → ((a : A) (s : S) → P a s → Ends F Q (f a s))
    → Ends F Q (after r f)
Ends-after F = Runs-after (λ e _. F e)

pub Ends-weaken :
    {S E A : Type 0} (F : E → Type 0) (P Q : A → S → Type 0) (r : Except E A × S)
    → Ends F P r
    → ((a : A) (s : S) → P a s → Q a s)
    → Ends F Q r
Ends-weaken F = Runs-weaken (λ e _. F e)

-- `Runs` with its arguments to be read off, for a sequence of steps.
pub record Does {S E A : Type 0} (F : E → S → Type 0) (Q : A → S → Type 0) (r : Except E A × S)
    : Type 0 where
  pub runs : Runs F Q r

pub Does-after :
    {S E A B : Type 0} {F : E → S → Type 0} {P : A → S → Type 0} {Q : B → S → Type 0}
    {r : Except E A × S} {f : A → Action S E B}
    → Does F P r
    → ((a : A) (s : S) → P a s → Does F Q (f a s))
    → Does F Q (after r f)
Does-after {F = F} {P = P} {Q = Q} {r = r} {f = f} h k = record {
  runs = Runs-after F P Q r f h.runs (λ a s p. (k a s p).runs);
}

pub Does-weaken :
    {S E A : Type 0} {F : E → S → Type 0} {P Q : A → S → Type 0} {r : Except E A × S}
    → Does F P r
    → ((a : A) (s : S) → P a s → Q a s)
    → Does F Q r
Does-weaken {F = F} {P = P} {Q = Q} {r = r} h k = record { runs = Runs-weaken F P Q r h.runs k }

pub require-Does :
    {S E : Type 0} {F : E → S → Type 0} (b : Bool) (e : E) (s : S)
    → (b ≡ false → F e s)
    → Does F (λ _ s'. (b ≡ true) × (s' ≡ s)) (require b e s)
require-Does {F = F} b e s h = record { runs = require-Runs F b e s h }

pub from_option-Does :
    {S E A : Type 0} {F : E → S → Type 0} (o : Option A) (e : E) (s : S)
    → (o ≡ none → F e s)
    → Does F (λ a s'. (o ≡ some a) × (s' ≡ s)) (from_option o e s)
from_option-Does {F = F} o e s h = record { runs = from_option-Runs F o e s h }
