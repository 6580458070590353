-- ===== src/Prelude/Tests.antt =====
-- Boolean tests on the native numbers, the conditional, and splits that keep the equation.
use Prim.Native.Nat.{ℕ, ◌≤◌, ◌<◌, compare, Ordering}
use mathlib.Core.Path.{◌≡◌, refl}
use mathlib.Core.Logic.{◌↔◌, ◌⊎◌, inl, inr}
use mathlib.Core.Bool.{Bool, true, false, ◌&&◌, ◌||◌}
use mathlib.Core.Option.{Option, none, some}
use native.Mathlib.Omega.{arith}

abbrev pub ltb : ℕ → ℕ → Bool
ltb a b = elim (compare a b) [ Ordering.lt ↦ true | _ ↦ false ]

abbrev pub leb : ℕ → ℕ → Bool
leb a b = elim (compare a b) [ Ordering.gt ↦ false | _ ↦ true ]

infix 50 ◌==◌
abbrev pub ◌==◌ : ℕ → ℕ → Bool
a == b = elim (compare a b) [ Ordering.eq ↦ true | _ ↦ false ]

infix 1 if◌then◌else◌
abbrev pub if◌then◌else◌ {ℓ} : {A : Type ℓ} → Bool → A → A → A
if true then x else y = x
if false then x else y = y

pub ltb→lt : (a b : ℕ) → ltb a b ≡ true → a < b
ltb→lt a b h = ground arith

pub lt→ltb : (a b : ℕ) → a < b → ltb a b ≡ true
lt→ltb a b h = ground arith

pub leb→le : (a b : ℕ) → leb a b ≡ true → a ≤ b
leb→le a b h = ground arith

pub ==_iff : (a b : ℕ) → ((a == b) ≡ true) ↔ (a ≡ b)
==_iff a b = ground arith

pub Bool-cases : (b : Bool) → (b ≡ true) ⊎ (b ≡ false)
Bool-cases true = inl refl
Bool-cases false = inr refl

pub Option-cases {ℓ} : {A : Type ℓ} (o : Option A) → (o ≡ none) ⊎ ((a : A) × (o ≡ some a))
Option-cases none = inl refl
Option-cases (some a) = inr (a, refl)

-- Two Booleans are equal when each is true whenever the other is.
pub Bool_ext : (a b : Bool) → (a ≡ true → b ≡ true) → (b ≡ true → a ≡ true) → a ≡ b
Bool_ext true b f g = ground (arith, f refl)
Bool_ext false true f g = g refl
Bool_ext false false f g = refl

pub both : {a b : Bool} → a && b ≡ true → (a ≡ true) × (b ≡ true)
both {a = true} {b = b} h = (refl, h)
both {a = false} {b = b} h = ground arith

pub some_inj {ℓ} : {A : Type ℓ} {a b : A} → some a ≡ some b → a ≡ b
some_inj h = cc

-- A test that gave a value held.
pub if_some {ℓ} :
    {A : Type ℓ} (b : Bool) (o : Option A) {x : A}
    → (if b then o else none) ≡ some x
    → (b ≡ true) × (o ≡ some x)
if_some true o h = (refl, h)
if_some false o h = cc

pub none-some {ℓ} : {A : Type ℓ} {a : A} → none ≡ some a → ⊥
none-some h = cc

-- Which branch gave the value.
pub if-cases {ℓ} :
    {A : Type ℓ} (b : Bool) (x y v : A)
    → (if b then x else y) ≡ v
    → ((b ≡ true) × (x ≡ v)) ⊎ ((b ≡ false) × (y ≡ v))
if-cases true x y v h = inl (refl, h)
if-cases false x y v h = inr (refl, h)

pub either : (a b : Bool) → a || b ≡ true → b ≡ false → a ≡ true
either true b h e = refl
either false b h e = cc
