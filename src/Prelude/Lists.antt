-- ===== src/Prelude/Lists.antt =====
-- Lists measured by native numbers, Python's comprehensions, and predicates on all elements.
use Prim.Native.Nat.{ℕ, zero, suc, ◌+◌, ◌≤◌}
use mathlib.Core.Path.{◌≡◌, refl, ap}
use mathlib.Core.Bool.{Bool, true, false}
use mathlib.Core.List.{List, [], ◌∷◌, ◌++◌}
use native.Mathlib.Omega.{arith}
use mathlib.Core.Logic.{◌⊎◌, inl, inr}
use svc_lb_mux.Prelude.Tests.{if◌then◌else◌, Bool-cases}

module _ {ℓ} {A : Type ℓ} where
  abbrev pub length : List A → ℕ
  length [] = 0
  length (x ∷ xs) = suc (length xs)

  abbrev pub take : ℕ → List A → List A
  take zero xs = []
  take (suc n) [] = []
  take (suc n) (x ∷ xs) = x ∷ take n xs

  pub length-append : (xs ys : List A) → length (xs ++ ys) ≡ length xs + length ys
  length-append [] ys = omega arith
  length-append (x ∷ xs) ys = omega (arith, length-append xs ys)

  -- `[x for x in xs if p(x)]`
  abbrev pub filter : (A → Bool) → List A → List A
  filter p [] = []
  filter p (x ∷ xs) = let rest = filter p xs in if p x then x ∷ rest else rest

  abbrev pub any : (A → Bool) → List A → Bool
  any p [] = false
  any p (x ∷ xs) = let rest = any p xs in if p x then true else rest

  abbrev pub is_empty : List A → Bool
  is_empty [] = true
  is_empty (x ∷ xs) = false

module _ {ℓ κ} {A : Type ℓ} where
  abbrev pub map : {B : Type κ} → (A → B) → List A → List B
  map f [] = []
  map f (x ∷ xs) = f x ∷ map f xs

  abbrev pub All : (A → Type κ) → List A → Type κ
  All P [] = Unit
  All P (x ∷ xs) = P x × All P xs

  pub All-append : (P : A → Type κ) (xs ys : List A) → All P xs → All P ys → All P (xs ++ ys)
  All-append P [] ys _ hy = hy
  All-append P (x ∷ xs) ys (px, hx) hy = (px, All-append P xs ys hx hy)

module _ {ℓ} {A : Type ℓ} where
  -- Some element has the property.
  abbrev pub Some : (A → Type 0) → List A → Type 0
  Some P [] = ⊥
  Some P (x ∷ xs) = P x ⊎ Some P xs

  pub Some-map : {P Q : A → Type 0} (xs : List A) → ((x : A) → P x → Q x) → Some P xs → Some Q xs
  Some-map [] f h = h
  Some-map (x ∷ xs) f (inl p) = inl (f x p)
  Some-map (x ∷ xs) f (inr h) = inr (Some-map xs f h)

  -- A test that no element passes fails at each.
  pub any-Some : (p : A → Bool) (xs : List A) → any p xs ≡ true → Some (λ x. p x ≡ true) xs
  any-Some p [] h = cc
  any-Some p (x ∷ xs) h = elim (Bool-cases (p x)) [
    | inl passed ↦ inl passed
    | inr failed ↦ inr (any-Some p xs (rw failed at h))
  ]

  pub Some-any : (p : A → Bool) (xs : List A) → Some (λ x. p x ≡ true) xs → any p xs ≡ true
  Some-any p [] h = absurd h
  Some-any p (x ∷ xs) (inl h) = rw h
  Some-any p (x ∷ xs) (inr h) = elim (Bool-cases (p x)) [
    | inl passed ↦ rw passed
    | inr failed ↦ rw failed (Some-any p xs h)
  ]

  pub is_empty_nil : (xs : List A) → is_empty xs ≡ true → xs ≡ []
  is_empty_nil [] h = refl
  is_empty_nil (x ∷ xs) h = cc

module _ {ℓ κ μ} {A : Type ℓ} {P : A → Type κ} {Q : A → Type μ} where
  pub All-map : (xs : List A) → ((x : A) → P x → Q x) → All P xs → All Q xs
  All-map [] f h = tt
  All-map (x ∷ xs) f (p, h) = (f x p, All-map xs f h)

module _ {ℓ} {A : Type ℓ} where
  pub length-take : (n : ℕ) (xs : List A) → n ≤ length xs → length (take n xs) ≡ n
  length-take zero xs h = refl
  length-take (suc n) [] h = absurd (omega arith)
  length-take (suc n) (x ∷ xs) h = ap suc (length-take n xs (omega arith))

  -- Suffixes of the same length of the same list are the same.
  pub suffix-eq : (u v x y : List A) → u ++ x ≡ v ++ y → length x ≡ length y → x ≡ y
  suffix-eq [] [] x y h l = h
  suffix-eq [] (c ∷ v) x y h l = absurd (omega (arith, ap length h, length-append {ℓ} (c ∷ v) y))
  suffix-eq (c ∷ u) [] x y h l = absurd (omega (arith, ap length h, length-append {ℓ} (c ∷ u) x))
  suffix-eq (c ∷ u) (d ∷ v) x y h l = suffix-eq u v x y (cc h) l
