-- ===== src/Subscription/Ranking/Order.antt =====
-- All pairs of a sorted list, for the ranking of subscription.go.
use stealthlink.Prelude.{
  All, Bool, Bool-cases, IsAscending, behind, List, [], false, inl, inr, place, stable_sort, ◌∷◌,
  ◌≡◌,
}

abbrev pub Pairwise {ℓ κ} : {A : Type ℓ} → (A → A → Type κ) → List A → Type κ
Pairwise R [] = Unit
Pairwise R (x ∷ xs) = All (R x) xs × Pairwise R xs

module _ {ℓ} {A : Type ℓ} (less : A → A → Bool) where
  All-place {κ} : (P : A → Type κ) (x : A) (xs : List A) → P x → All P xs → All P (place less x xs)
  unfolding place
  All-place P x [] p ps = (p, tt)
  All-place P x (y ∷ ys) p (q, qs) = elim (Bool-cases (less y x)) [
    | inl before ↦ rw before (q, All-place P x ys p qs)
    | inr not_before ↦ rw not_before (p, (q, qs))
  ]

  pub All-stable_sort {κ} : (P : A → Type κ) (xs : List A) → All P xs → All P (stable_sort less xs)
  unfolding stable_sort
  All-stable_sort P [] ps = tt
  All-stable_sort P (x ∷ xs) (p, ps) =
      All-place P x (stable_sort less xs) p (All-stable_sort P xs ps)

  module _ {κ} (R : A → A → Type κ) (not_less : (x y : A) → less y x ≡ false → R x y)
      (chains : (x y z : A) → R x y → R y z → R x z) where
    All-chains : (x y : A) (zs : List A) → R x y → All (R y) zs → All (R x) zs
    All-chains x y [] r rs = tt
    All-chains x y (z ∷ zs) r (this, others) = (chains x y z r this, All-chains x y zs r others)

    pub IsAscending-Pairwise : (xs : List A) → IsAscending less xs → Pairwise R xs
    IsAscending-Pairwise [] v = tt
    IsAscending-Pairwise (x ∷ []) v = (tt, tt)
    IsAscending-Pairwise (x ∷ y ∷ ys) (behind e v) =
        let later = IsAscending-Pairwise (y ∷ ys) v in
        let first = not_less x y e in ((first, All-chains x y ys first later.0), later)
