-- ===== src/Prelude/Sort.antt =====
-- `sorted(xs, key=...)`: a stable sort by an order on the keys, as insertion sort.
use Prim.Native.Nat.{suc}
use mathlib.Core.Path.{◌≡◌, refl}
use mathlib.Core.Bool.{Bool, true, false}
use mathlib.Core.List.{List, [], ◌∷◌}
use native.Mathlib.Omega.{arith}
use svc_lb_mux.Prelude.Tests.{if◌then◌else◌}
use svc_lb_mux.Prelude.Lists.{length, All}

module _ {ℓ} {A : Type ℓ} (le : A → A → Bool) where
  unfoldable pub insert : A → List A → List A
  insert x [] = x ∷ []
  insert x (y ∷ ys) = if le x y then x ∷ y ∷ ys else y ∷ insert x ys

  unfoldable pub sort : List A → List A
  unfolding insert
  sort [] = []
  sort (x ∷ xs) = insert x (sort xs)

  pub All-insert {κ} : (P : A → Type κ) (x : A) (xs : List A) → P x → All P xs → All P (insert x xs)
  unfolding insert
  All-insert P x [] px h = (px, tt)
  All-insert P x (y ∷ ys) px (py, h) =
      elim (le x y) as (λ b. All P (if b then x ∷ y ∷ ys else y ∷ insert x ys)) [
        | true ↦ (px, (py, h))
        | false ↦ (py, All-insert P x ys px h)
      ]

  -- What holds of all elements holds of all elements of the sorted list.
  pub All-sort {κ} : (P : A → Type κ) (xs : List A) → All P xs → All P (sort xs)
  unfolding sort
  All-sort P [] h = tt
  All-sort P (x ∷ xs) (px, h) = All-insert P x (sort xs) px (All-sort P xs h)

  length-insert : (x : A) (xs : List A) → length (insert x xs) ≡ suc (length xs)
  unfolding insert
  length-insert x [] = refl
  length-insert x (y ∷ ys) = ground (arith, length-insert x ys)

  pub length-sort : (xs : List A) → length (sort xs) ≡ length xs
  unfolding sort
  length-sort [] = refl
  length-sort (x ∷ xs) = omega (arith, length-insert x (sort xs), length-sort xs)

  All-insert_inv {κ} : (P : A → Type κ) (x : A) (xs : List A) → All P (insert x xs) → P x × All P xs
  unfolding insert
  All-insert_inv P x [] (px, _) = (px, tt)
  All-insert_inv P x (y ∷ ys) h = split_test (le x y) (All-insert_inv P x ys) h
    where
      split_test :
          (b : Bool)
          → (All P (insert x ys) → P x × All P ys)
          → All P (if b then x ∷ y ∷ ys else y ∷ insert x ys)
          → P x × (P y × All P ys)
      split_test true later h = h
      split_test false later (py, hs) = let (px, rest) = later hs in (px, (py, rest))

  -- What holds of all elements of the sorted list holds of all elements.
  pub All-sort_inv {κ} : (P : A → Type κ) (xs : List A) → All P (sort xs) → All P xs
  unfolding sort
  All-sort_inv P [] h = tt
  All-sort_inv P (x ∷ xs) h =
      let (px, rest) = All-insert_inv P x (sort xs) h in (px, All-sort_inv P xs rest)
