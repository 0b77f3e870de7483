-- ===== src/Prelude/Sort.antt =====
-- sort.SliceStable: elements that are not less than each other keep their order.
use mathlib.Core.Path.{◌≡◌, subst}
use mathlib.Core.Bool.{Bool, true, false}
use mathlib.Core.Logic.{inl, inr}
use mathlib.Core.List.{List, [], ◌∷◌, Perm}
use mathlib.Core.List.Perm
use package.stealthlink.Prelude.Tests.{if◌then◌else◌, Bool-cases}

module _ {ℓ} {A : Type ℓ} (less : A → A → Bool) where
  unfoldable pub place : A → List A → List A
  place x [] = x ∷ []
  place x (y ∷ ys) = let rest = place x ys in if less y x then y ∷ rest else x ∷ y ∷ ys

  unfoldable pub stable_sort : List A → List A
  unfolding place
  stable_sort [] = []
  stable_sort (x ∷ xs) = place x (stable_sort xs)

  -- No element is less than the one before it.
  pub data IsAscending : List A → Type ℓ where
    empty : IsAscending []
    single : {x : A} → IsAscending (x ∷ [])
    behind :
        {x y : A} {ys : List A} → less y x ≡ false → IsAscending (y ∷ ys) → IsAscending (x ∷ y ∷ ys)

  place-perm : (x : A) (xs : List A) → Perm (place x xs) (x ∷ xs)
  unfolding place
  place-perm x [] = Perm.rfl
  place-perm x (y ∷ ys) = elim (Bool-cases (less y x)) [
    | inl before ↦ rw before (Perm.trans (Perm.cons y (place-perm x ys)) (Perm.swap x y ys))
    | inr not_before ↦ rw not_before Perm.rfl
  ]

  pub stable_sort-perm : (xs : List A) → Perm (stable_sort xs) xs
  unfolding stable_sort
  stable_sort-perm [] = Perm.rfl
  stable_sort-perm (x ∷ xs) =
      Perm.trans (place-perm x (stable_sort xs)) (Perm.cons x (stable_sort-perm xs))

  module _ (asymmetric : (x y : A) → less x y ≡ true → less y x ≡ false) where
    place-IsAscending : (x : A) (xs : List A) → IsAscending xs → IsAscending (place x xs)
    unfolding place
    place-IsAscending x [] v = single
    place-IsAscending x (y ∷ []) v = elim (Bool-cases (less y x)) [
      | inl before ↦ rw before (behind (asymmetric y x before) single)
      | inr not_before ↦ rw not_before (behind not_before v)
    ]
    place-IsAscending x (y ∷ z ∷ zs) (behind e v) = elim (Bool-cases (less y x)) [
      | inr not_before ↦ rw not_before (behind not_before (behind e v))
      | inl before ↦ elim (Bool-cases (less z x)) [
        | inr stop ↦ rw (before, stop) (behind (asymmetric y x before) (behind stop v))
        | inl go ↦
            rw (before, go)
              (behind e (
                subst (λ (b : Bool). IsAscending (if b then z ∷ place x zs else x ∷ z ∷ zs)) go
                  (place-IsAscending x (z ∷ zs) v)))
      ]
    ]

    pub stable_sort-IsAscending : (xs : List A) → IsAscending (stable_sort xs)
    unfolding stable_sort
    stable_sort-IsAscending [] = empty
    stable_sort-IsAscending (x ∷ xs) =
        place-IsAscending x (stable_sort xs) (stable_sort-IsAscending xs)
