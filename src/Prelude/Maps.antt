-- ===== src/Prelude/Maps.antt =====
-- Rust's `HashMap` and `HashSet` as association lists and lists, with the key's equality test as an
-- argument. Where the source iterates over one, the order is the list's.
use mathlib.Core.Path.{◌≡◌, refl, sym, ◌∙◌, subst}
use mathlib.Core.Bool.{Bool, true, false, ◌||◌, false≢true}
use mathlib.Core.Option.{Option, none, some}
use mathlib.Core.List.{List, [], ◌∷◌, ◌++◌}
use mathlib.Core.Logic.{inl, inr}
use native.Mathlib.Omega.{arith}
use jeangrey.Prelude.Tests.{if◌then◌else◌, Bool-cases}

-- The test decides equality.
pub record EqLaws {A : Type 0} (eq : A → A → Bool) : Type 0 where
  pub eq→≡ : (a b : A) → eq a b ≡ true → a ≡ b
  pub eq_refl : (a : A) → eq a a ≡ true

-- Two keys that equal a third.
pub eq_trans :
    {A : Type 0} (eq : A → A → Bool) (laws : EqLaws eq) (a b x : A)
    → eq a x ≡ true
    → eq b x ≡ true
    → eq a b ≡ true
eq_trans eq laws a b x p q =
    subst (λ z. eq a z ≡ true) (laws.eq→≡ a x p ∙ sym (laws.eq→≡ b x q)) (laws.eq_refl a)

module _ {K V : Type 0} (eq : K → K → Bool) where
  abbrev pub find : K → List (K × V) → Option V
  find k [] = none
  find k ((k', v) ∷ rest) = if eq k k' then some v else find k rest

  abbrev pub delete : K → List (K × V) → List (K × V)
  delete k [] = []
  delete k ((k', v) ∷ rest) =
      let others = delete k rest in if eq k k' then others else (k', v) ∷ others

  abbrev pub insert : K → V → List (K × V) → List (K × V)
  insert k v entries = (k, v) ∷ delete k entries

  -- `get_mut`: the value of a key is changed where it stands.
  abbrev pub adjust : K → (V → V) → List (K × V) → List (K × V)
  adjust k change [] = []
  adjust k change ((k', v) ∷ rest) =
      let others = adjust k change rest in
      if eq k k' then (k', change v) ∷ others else (k', v) ∷ others

  -- A key is gone once it was deleted.
  pub find-delete : (k : K) (entries : List (K × V)) → find k (delete k entries) ≡ none
  find-delete k [] = refl
  find-delete k ((k', v) ∷ rest) = elim (Bool-cases (eq k k')) [
    | inl same ↦ rw (same) (find-delete k rest)
    | inr other ↦ rw (other, other) (find-delete k rest)
  ]

  module _ (laws : EqLaws eq) where
    -- The other keys keep their values.
    pub find-delete_other :
        (j k : K) (entries : List (K × V))
        → eq j k ≡ false
        → find j (delete k entries) ≡ find j entries
    find-delete_other j k [] ne = refl
    find-delete_other j k ((x, v) ∷ rest) ne = elim (Bool-cases (eq k x)) [
      | inl same ↦ elim (Bool-cases (eq j x)) [
        | inl both ↦ absurd (false≢true (sym ne ∙ eq_trans eq laws j k x both same))
        | inr apart ↦ rw (same, apart) (find-delete_other j k rest ne)
      ]
      | inr other ↦ elim (Bool-cases (eq j x)) [
        | inl both ↦ rw (other, both) refl
        | inr apart ↦ rw (other, apart) (find-delete_other j k rest ne)
      ]
    ]

    pub find-adjust_other :
        (j k : K) (change : V → V) (entries : List (K × V))
        → eq j k ≡ false
        → find j (adjust k change entries) ≡ find j entries
    find-adjust_other j k change [] ne = refl
    find-adjust_other j k change ((x, v) ∷ rest) ne = elim (Bool-cases (eq k x)) [
      | inl same ↦ elim (Bool-cases (eq j x)) [
        | inl both ↦ absurd (false≢true (sym ne ∙ eq_trans eq laws j k x both same))
        | inr apart ↦ rw (same, apart) (find-adjust_other j k change rest ne)
      ]
      | inr other ↦ elim (Bool-cases (eq j x)) [
        | inl both ↦ rw (other, both) refl
        | inr apart ↦ rw (other, apart) (find-adjust_other j k change rest ne)
      ]
    ]

    pub find-adjust :
        (k : K) (change : V → V) (v : V) (entries : List (K × V))
        → find k entries ≡ some v
        → find k (adjust k change entries) ≡ some (change v)
    find-adjust k change v [] here = absurd (cc)
    find-adjust k change v ((x, w) ∷ rest) here = elim (Bool-cases (eq k x)) [
      | inl same ↦ let e : w ≡ v = cc (here, same) in rw (same, same, e) refl
      | inr other ↦ rw (other, other) (find-adjust k change v rest (rw (other) at here))
    ]

module _ {A : Type 0} (eq : A → A → Bool) where
  abbrev pub member : A → List A → Bool
  member a [] = false
  member a (x ∷ xs) = eq a x || member a xs

  abbrev pub remove : A → List A → List A
  remove a [] = []
  remove a (x ∷ xs) = let others = remove a xs in if eq a x then others else x ∷ others

  -- `insert` of a set, and `push` behind a test for membership.
  abbrev pub add : A → List A → List A
  add a xs = if member a xs then xs else xs ++ (a ∷ [])

  pub member-append_one :
      (a b : A) (xs : List A) → member a (xs ++ (b ∷ [])) ≡ (member a xs || eq a b)
  member-append_one a b [] = ground arith
  member-append_one a b (x ∷ xs) = ground (arith, member-append_one a b xs)
