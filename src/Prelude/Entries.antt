-- ===== src/Prelude/Entries.antt =====
-- What one key, or every entry, of an association list becomes under its operations.
use mathlib.Core.Path.{◌≡◌, refl, ap}
use mathlib.Core.Bool.{Bool, true, ◌&&◌, not}
use mathlib.Core.Option.{Option, none, some}
use mathlib.Core.List.{List, [], ◌∷◌, ◌++◌}
use mathlib.Core.Logic.{inl, inr}
use Prim.Native.Nat.{◌≤◌}
use native.Mathlib.Omega.{arith}
use jeangrey.Prelude.Lists.{length}
use jeangrey.Prelude.Tests.{if◌then◌else◌, Bool-cases}
use jeangrey.Prelude.Maps.{
  EqLaws, find, delete, insert, adjust, member, find-delete, find-delete_other, find-adjust,
  find-adjust_other,
}

abbrev pub option_map : {A B : Type 0} → (A → B) → Option A → Option B
option_map f none = none
option_map f (some a) = some (f a)

abbrev pub retain : {A : Type 0} → (A → Bool) → List A → List A
retain test [] = []
retain test (x ∷ xs) = let others = retain test xs in if test x then x ∷ others else others

module _ {K V : Type 0} (eq : K → K → Bool) (laws : EqLaws eq) where
  pub find-delete_if :
      (j k : K) (entries : List (K × V))
      → find eq j (delete eq k entries) ≡ (if eq j k then none else find eq j entries)
  find-delete_if j k entries = elim (Bool-cases (eq j k)) [
    | inl same ↦ let e : j ≡ k = laws.eq→≡ j k same in rw (same, e) (find-delete eq k entries)
    | inr other ↦ rw (other) (find-delete_other eq laws j k entries other)
  ]

  pub find-insert_if :
      (j k : K) (v : V) (entries : List (K × V))
      → find eq j (insert eq k v entries) ≡ (if eq j k then some v else find eq j entries)
  find-insert_if j k v entries = elim (Bool-cases (eq j k)) [
    | inl same ↦ rw (same) refl
    | inr other ↦ rw (other) (find-delete_other eq laws j k entries other)
  ]

  find-adjust-none :
      (k : K) (change : V → V) (entries : List (K × V))
      → find eq k entries ≡ none
      → find eq k (adjust eq k change entries) ≡ none
  find-adjust-none k change [] h = refl
  find-adjust-none k change ((x, w) ∷ rest) h = elim (Bool-cases (eq k x)) [
    | inl same ↦ absurd (cc (h, same))
    | inr other ↦ rw (other, other) (find-adjust-none k change rest (rw (other) at h))
  ]

  pub find-adjust_if :
      (j k : K) (change : V → V) (entries : List (K × V))
      → find eq j (adjust eq k change entries)
        ≡ (if eq j k then option_map change (find eq j entries) else find eq j entries)
  find-adjust_if j k change entries = elim (Bool-cases (eq j k)) [
    | inl same ↦ let e : j ≡ k = laws.eq→≡ j k same in rw (same, e) (here (find eq k entries) refl)
    | inr other ↦ rw (other) (find-adjust_other eq laws j k change entries other)
  ]
    where
      here :
          (o : Option V)
          → find eq k entries ≡ o
          → find eq k (adjust eq k change entries) ≡ option_map change (find eq k entries)
      here none h = rw (h) (find-adjust-none k change entries h)
      here (some v) h = rw (h) (find-adjust eq laws k change v entries h)

module _ {A : Type 0} (eq : A → A → Bool) (laws : EqLaws eq) where
  pub member-retain_if :
      (a b : A) (xs : List A)
      → member eq a (retain (λ x. not (eq x b)) xs) ≡ (member eq a xs && not (eq a b))
  member-retain_if a b [] = refl
  member-retain_if a b (x ∷ xs) = elim (Bool-cases (eq a x)) [
    | inl same ↦
        let e : a ≡ x = laws.eq→≡ a x same in
        let f : eq a b ≡ eq x b = ap (λ z. eq z b) e in ground (arith, member-retain_if a b xs, f)
    | inr other ↦ ground (arith, member-retain_if a b xs)
  ]

-- Every entry satisfies `P`.
abbrev pub AllValues : {K V : Type 0} → (K → V → Type 0) → List (K × V) → Type 0
AllValues P [] = Unit {0}
AllValues P ((k, v) ∷ rest) = P k v × AllValues P rest

module _ {K V : Type 0} (eq : K → K → Bool) (P : K → V → Type 0) where
  pub AllValues-delete :
      (k : K) (entries : List (K × V)) → AllValues P entries → AllValues P (delete eq k entries)
  AllValues-delete k [] all = tt
  AllValues-delete k ((k', v) ∷ rest) all = elim (Bool-cases (eq k k')) [
    | inl same ↦ rw (same) (AllValues-delete k rest all.1)
    | inr other ↦ rw (other) (all.0, AllValues-delete k rest all.1)
  ]

  pub AllValues-insert :
      (k : K) (v : V) (entries : List (K × V))
      → P k v
      → AllValues P entries
      → AllValues P (insert eq k v entries)
  AllValues-insert k v entries p all = (p, AllValues-delete k entries all)

  pub AllValues-adjust :
      (k : K) (change : V → V) (entries : List (K × V))
      → ((j : K) (v : V) → P j v → P j (change v))
      → AllValues P entries
      → AllValues P (adjust eq k change entries)
  AllValues-adjust k change [] keep all = tt
  AllValues-adjust k change ((k', v) ∷ rest) keep all = elim (Bool-cases (eq k k')) [
    | inl same ↦ rw (same) (keep k' v all.0, AllValues-adjust k change rest keep all.1)
    | inr other ↦ rw (other) (all.0, AllValues-adjust k change rest keep all.1)
  ]

  pub AllValues-find :
      (k : K) (v : V) (entries : List (K × V))
      → AllValues P entries
      → find eq k entries ≡ some v
      → (j : K) × (eq k j ≡ true) × P j v
  AllValues-find k v [] all h = absurd (cc)
  AllValues-find k v ((j, w) ∷ rest) all h = elim (Bool-cases (eq k j)) [
    | inl same ↦ let e : w ≡ v = cc (h, same) in (j, same, rw (← e) all.0)
    | inr other ↦ AllValues-find k v rest all.1 (rw (other) at h)
  ]

-- Every element satisfies `P`.
abbrev pub Every : {A : Type 0} → (A → Type 0) → List A → Type 0
Every P [] = Unit {0}
Every P (x ∷ xs) = P x × Every P xs

pub Every-append_one :
    {A : Type 0} (P : A → Type 0) (xs : List A) (x : A)
    → Every P xs
    → P x
    → Every P (xs ++ (x ∷ []))
Every-append_one P [] x all p = (p, tt)
Every-append_one P (y ∷ ys) x all p = (all.0, Every-append_one P ys x all.1 p)

pub length-retain :
    {A : Type 0} (test : A → Bool) (xs : List A) → length (retain test xs) ≤ length xs
length-retain test [] = omega arith
length-retain test (x ∷ xs) = ground (arith, length-retain test xs)
