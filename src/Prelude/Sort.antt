-- ===== src/Prelude/Sort.antt =====
-- Python's `sorted` and `list.sort`: a stable sort. `before x y` says that `x` may stand ahead of
-- `y`: `key(x) <= key(y)`, or `key(y) <= key(x)` with `reverse=True`, which is stable too.
use mathlib.Core.Path.{◌≡◌, refl}
use mathlib.Core.Logic.{inl, inr}
use mathlib.Core.Bool.{Bool, ◌&&◌}
use mathlib.Core.List.{List, [], ◌∷◌}
use native.Mathlib.Omega.{arith}
use csc512_distributed_syste.Prelude.Tests.{if◌then◌else◌, Bool-cases}
use csc512_distributed_syste.Prelude.Lists.{All, all}

module _ {ℓ} {A : Type ℓ} (before : A → A → Bool) where
  unfoldable pub insert_sorted : A → List A → List A
  insert_sorted x [] = x ∷ []
  insert_sorted x (y ∷ ys) =
      let rest = insert_sorted x ys in if before x y then x ∷ y ∷ ys else y ∷ rest

  unfoldable pub sorted : List A → List A
  unfolding insert_sorted
  sorted [] = []
  sorted (x ∷ xs) = insert_sorted x (sorted xs)

module _ {ℓ} {A : Type ℓ} (p : A → Bool) (before : A → A → Bool) where
  all-insert_sorted : (x : A) (ys : List A) → all p (insert_sorted before x ys) ≡ p x && all p ys
  unfolding insert_sorted all
  all-insert_sorted x [] = refl
  all-insert_sorted x (y ∷ ys) = ground (arith, all-insert_sorted x ys)

  pub all-sorted : (xs : List A) → all p (sorted before xs) ≡ all p xs
  unfolding sorted all
  all-sorted [] = refl
  all-sorted (x ∷ xs) = ground (arith, all-insert_sorted x (sorted before xs), all-sorted xs)

module _ {ℓ κ} {A : Type ℓ} (before : A → A → Bool) (P : A → Type κ) where
  All-of_insert : (x : A) (ys : List A) → All P (insert_sorted before x ys) → P x × All P ys
  unfolding insert_sorted
  All-of_insert x [] h = (h.0, tt)
  All-of_insert x (y ∷ ys) h = elim (Bool-cases (before x y)) [
    | inl p ↦ (rw p at h)
    | inr p ↦
        let tail : P y × All P (insert_sorted before x ys) = (rw p at h) in
        let rest = All-of_insert x ys tail.1 in (rest.0, (tail.0, rest.1))
  ]

  -- What all of a sorted list have, all have.
  pub All-of_sorted : (xs : List A) → All P (sorted before xs) → All P xs
  unfolding sorted
  All-of_sorted [] h = tt
  All-of_sorted (x ∷ xs) h =
      let parts = All-of_insert x (sorted before xs) h in (parts.0, All-of_sorted xs parts.1)

  All-insert : (x : A) (ys : List A) → P x → All P ys → All P (insert_sorted before x ys)
  unfolding insert_sorted
  All-insert x [] h k = (h, tt)
  All-insert x (y ∷ ys) h k = elim (Bool-cases (before x y)) [
    | inl p ↦ rw p (h, k)
    | inr p ↦ rw p (k.0, All-insert x ys h k.1)
  ]

  pub All-sorted : (xs : List A) → All P xs → All P (sorted before xs)
  unfolding sorted
  All-sorted [] h = tt
  All-sorted (x ∷ xs) h = All-insert x (sorted before xs) h.0 (All-sorted xs h.1)
