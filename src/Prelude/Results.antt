-- ===== src/Prelude/Results.antt =====
-- Rust's `Result`, its `?` as the bind of a `do` block, and early returns as guards.
use mathlib.Core.Path.{◌≡◌, refl}
use mathlib.Core.Bool.{Bool, true, false}
use mathlib.Core.Option.{Option, none, some}

pub data Result (E A : Type 0) : Type 0 where
  ok : A → Result E A
  err : E → Result E A

infixl 5 ◌>>=◌ ◌>>◌
abbrev pub ◌>>=◌ : {E A B : Type 0} → Result E A → (A → Result E B) → Result E B
ok a >>= f = f a
err e >>= f = err e

abbrev pub ◌>>◌ : {E B : Type 0} → Result E (Unit {0}) → Result E B → Result E B
m >> k = m >>= λ _. k

-- `if !test { return Err(e) }`
abbrev pub ensure : {E : Type 0} → Bool → E → Result E (Unit {0})
ensure true e = ok tt
ensure false e = err e

-- `o.ok_or(e)?`
abbrev pub ok_or : {E A : Type 0} → Option A → E → Result E A
ok_or (some a) e = ok a
ok_or none e = err e

abbrev pub is_none {ℓ} : {A : Type ℓ} → Option A → Bool
is_none none = true
is_none (some a) = false

pub ok-injective : {E A : Type 0} {a b : A} → ◌≡◌ {A = Result E A} (ok a) (ok b) → a ≡ b
ok-injective e = cc

-- Inversion of a successful block, one rule for each kind of step.
module _ {ℓ} {E B : Type 0} {P : Type ℓ} {r : B} where
  pub ensure_inv :
      (b : Bool) (e : E) (k : Result E B) → (ensure b e >> k) ≡ ok r → (b ≡ true → k ≡ ok r → P) → P
  ensure_inv true e k h p = p refl h
  ensure_inv false e k h p = absurd (cc)

  pub ok_or_inv :
      {A : Type 0} (o : Option A) (e : E) (k : A → Result E B)
      → (ok_or o e >>= k) ≡ ok r
      → ((a : A) → o ≡ some a → k a ≡ ok r → P)
      → P
  ok_or_inv (some a) e k h p = p a refl h
  ok_or_inv none e k h p = absurd (cc)

  pub >>=_inv :
      {A : Type 0} (m : Result E A) (k : A → Result E B)
      → (m >>= k) ≡ ok r
      → ((a : A) → m ≡ ok a → k a ≡ ok r → P)
      → P
  >>=_inv (ok a) k h p = p a refl h
  >>=_inv (err e) k h p = absurd (cc)

-- Inversion of a failed block.
module _ {ℓ} {E B : Type 0} {P : Type ℓ} {x : E} where
  pub ensure_err_inv :
      (b : Bool) (e : E) (k : Result E B)
      → (ensure b e >> k) ≡ err x
      → (b ≡ false → e ≡ x → P)
      → (b ≡ true → k ≡ err x → P)
      → P
  ensure_err_inv true e k h p q = q refl h
  ensure_err_inv false e k h p q = p refl (cc)

  pub ok_or_err_inv :
      {A : Type 0} (o : Option A) (e : E) (k : A → Result E B)
      → (ok_or o e >>= k) ≡ err x
      → (o ≡ none → e ≡ x → P)
      → ((a : A) → o ≡ some a → k a ≡ err x → P)
      → P
  ok_or_err_inv (some a) e k h p q = q a refl h
  ok_or_err_inv none e k h p q = p refl (cc)
