-- ===== src/Prelude/Steps.antt =====
-- Steps that may panic, as values of `Option`, and what holds of every result.
use mathlib.Core.Path.{◌≡◌, refl, subst}
use mathlib.Core.Bool.{Bool, true, false}
use mathlib.Core.Option.{Option, none, some}
use jeangrey.Prelude.Tests.{if◌then◌else◌}

-- A step after another.
abbrev pub and_then : {A B : Type 0} → Option A → (A → Option B) → Option B
and_then none f = none
and_then (some a) f = f a

pub some-injective : {A : Type 0} {a b : A} → ◌≡◌ {A = Option A} (some a) (some b) → a ≡ b
some-injective e = cc

-- Inversion of a step after another.
pub and_then_inv {ℓ} :
    {A B : Type 0} {P : Type ℓ} {r : B} (o : Option A) (f : A → Option B)
    → and_then o f ≡ some r
    → ((a : A) → o ≡ some a → f a ≡ some r → P)
    → P
and_then_inv none f h p = absurd (cc)
and_then_inv (some a) f h p = p a refl h

-- Every result satisfies `P`.
pub record Yields {A : Type 0} (P : A → Type 0) (o : Option A) : Type 0 where
  pub result : (a : A) → o ≡ some a → P a

pub Yields-none : {A : Type 0} (P : A → Type 0) → Yields P none
Yields-none P = record { result = λ a h. absurd (cc) }

pub Yields-some : {A : Type 0} (P : A → Type 0) (a : A) → P a → Yields P (some a)
Yields-some P a p = record { result = λ b h. subst P (some-injective h) p }

pub Yields-and_then :
    {A B : Type 0} (P : B → Type 0) (o : Option A) (f : A → Option B)
    → ((a : A) → o ≡ some a → Yields P (f a))
    → Yields P (and_then o f)
Yields-and_then P none f y = Yields-none P
Yields-and_then P (some a) f y = y a refl

-- What holds of both branches.
pub if-both :
    {A : Type 0} (P : A → Type 0) (b : Bool) (x y : A) → P x → P y → P (if b then x else y)
if-both P true x y p q = p
if-both P false x y p q = q

pub if-each :
    {A : Type 0} (P : A → Type 0) (b : Bool) (x y : A)
    → (b ≡ true → P x)
    → (b ≡ false → P y)
    → P (if b then x else y)
if-each P true x y p q = p refl
if-each P false x y p q = q refl

pub Option-both :
    {A B : Type 0} (P : B → Type 0) (o : Option A) (y : B) (f : A → B)
    → (o ≡ none → P y)
    → ((a : A) → o ≡ some a → P (f a))
    → P (elim o [ none ↦ y | some a ↦ f a ])
Option-both P none y f p q = p refl
Option-both P (some a) y f p q = q a refl
