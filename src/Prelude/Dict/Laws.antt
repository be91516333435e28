-- ===== src/Prelude/Dict/Laws.antt =====
-- Lookups after each operation on a dict, and membership after each operation on a set.
use Prim.Native.Nat.{◌+◌, ◌≤◌}
use mathlib.Core.Path.{◌≡◌, refl, sym, subst}
use mathlib.Core.Bool.{Bool, true, false}
use mathlib.Core.List.{List, [], ◌∷◌, ◌++◌}
use mathlib.Core.Logic.{ite, ◌≢◌, if_pos, if_neg, inl, inr}
use mathlib.Core.Option.{Option, none, some}
use native.Mathlib.Omega.{arith}
use svc_lb_mux.Prelude.Tests.{if◌then◌else◌, Bool-cases}
use svc_lb_mux.Prelude.Lists.{length, length-append, All, All-append, Some}
use svc_lb_mux.Prelude.Dict.{
  Dict, keys, values, member, add, union, difference, get, put, remove, remove_all, setdefault,
}

module _ {ℓ} {K : Type ℓ} (dec : Discrete K) where
  pub member-append :
      (x : K) (s t : List K)
      → member dec x (s ++ t) ≡ (if member dec x s then true else member dec x t)
  unfolding member
  member-append x [] t = refl
  member-append x (y ∷ s) t = ground (arith, member-append x s t)

  pub member-add :
      (x y : K) (s : List K) → member dec x (add dec y s) ≡ ite (dec y x) true (member dec x s)
  unfolding add member
  member-add x y s = elim (Bool-cases (member dec y s)) [
    | inl old ↦ elim (dec y x) [
      | yes p ↦ rw (old, if_pos _ p) (rw (← p) old)
      | no p ↦ rw (old, if_neg _ p)
    ]
    | inr new ↦ rw (new, member-append x s (y ∷ [])) (ground arith)
  ]

  pub member-union :
      (x : K) (s t : List K)
      → member dec x (union dec s t) ≡ (if member dec x s then true else member dec x t)
  unfolding union member
  member-union x s [] = ground arith
  member-union x s (y ∷ t) = ground (arith, member-union x (add dec y s) t, member-add x y s)

  pub member-difference :
      (x : K) (s t : List K)
      → member dec x (difference dec s t) ≡ (if member dec x t then false else member dec x s)
  unfolding difference member
  member-difference x [] t = ground arith
  member-difference x (y ∷ s) t = ground (arith, member-difference x s t)

  pub length-add-le : (x : K) (s : List K) → length (add dec x s) ≤ length s + 1
  unfolding add
  length-add-le x s = ground (arith, length-append s (x ∷ []))

  pub length-union-le : (s t : List K) → length (union dec s t) ≤ length s + length t
  unfolding union
  length-union-le s [] = omega arith
  length-union-le s (x ∷ t) = omega (arith, length-union-le (add dec x s) t, length-add-le x s)

  -- What holds of every member.
  pub All-member {κ} : (P : K → Type κ) (x : K) (s : List K) → All P s → member dec x s ≡ true → P x
  unfolding member
  All-member P x [] h m = cc
  All-member P x (y ∷ s) (p, hs) m = elim (dec y x) [
    | yes e ↦ rw e at p
    | no e ↦ All-member P x s hs (rw (if_neg _ e) at m)
  ]

pub some_inj {ℓ} : {A : Type ℓ} {a b : A} → some a ≡ some b → a ≡ b
some_inj h = cc

pub none≢some {ℓ} : {A : Type ℓ} {a : A} → none ≢ some a
none≢some h = cc

×_path {ℓ κ} :
    {A : Type ℓ} {B : Type κ} {a c : A} {b d : B} → a ≡ c → b ≡ d → ◌≡◌ {A = A × B} (a, b) (c, d)
×_path p q = λ i. (p i, q i)

some≢none {ℓ} : {A : Type ℓ} {a : A} → some a ≢ none
some≢none h = cc

module _ {ℓ} {K V : Type ℓ} (dec : Discrete K) where
  pub get-put :
      (d : Dict K V) (k : K) (v : V) (j : K)
      → get dec (put dec d k v) j ≡ ite (dec k j) (some v) (get dec d j)
  unfolding get put
  get-put [] k v j = refl
  get-put ((i, w) ∷ d) k v j = ground (arith, get-put d k v j)

  pub get-put_self : (d : Dict K V) (k : K) (v : V) → get dec (put dec d k v) k ≡ some v
  get-put_self d k v = rw get-put (if_pos (dec k k) refl _ _)

  pub get-put_ne :
      (d : Dict K V) (k : K) (v : V) (j : K) → k ≢ j → get dec (put dec d k v) j ≡ get dec d j
  get-put_ne d k v j h = rw get-put (if_neg (dec k j) h _ _)

  pub get-remove :
      (d : Dict K V) (k j : K) → get dec (remove dec d k) j ≡ ite (dec k j) none (get dec d j)
  unfolding get remove
  get-remove [] k j = ground arith
  get-remove ((i, w) ∷ d) k j = ground (arith, get-remove d k j)

  pub get-remove_all :
      (d : Dict K V) (ks : List K) (j : K)
      → get dec (remove_all dec d ks) j ≡ (if member dec j ks then none else get dec d j)
  unfolding remove_all member
  get-remove_all d [] j = refl
  get-remove_all d (k ∷ ks) j =
      rw (get-remove_all (remove dec d k) ks j, get-remove d k j) (split_on_key (dec k j))
    where
      split_on_member : (b : Bool) → ◌≡◌ {A = Option V} (if b then none else none) none
      split_on_member true = refl
      split_on_member false = refl

      split_on_key :
          (o : Dec (k ≡ j))
          → (if member dec j ks then none else ite o none (get dec d j))
            ≡ (if ite o true (member dec j ks) then none else get dec d j)
      split_on_key (yes p) = split_on_member (member dec j ks)
      split_on_key (no p) = refl

  pub get-setdefault :
      (d : Dict K V) (k : K) (v : V) (j : K)
      → get dec (setdefault dec d k v) j
        ≡ elim (get dec d j) [ none ↦ ite (dec k j) (some v) none | some w ↦ some w ]
  unfolding setdefault
  get-setdefault d k v j = ground (arith, get-put d k v j)

  -- A key with a value is among the keys.
  pub member-keys :
      (d : Dict K V) (k : K) (v : V) → get dec d k ≡ some v → member dec k (keys d) ≡ true
  unfolding get member
  member-keys [] k v h = cc
  member-keys ((j, w) ∷ d) k v h = elim (dec j k) [
    | yes p ↦ rw (if_pos _ p)
    | no p ↦ rw (if_neg _ p) (member-keys d k v (rw (if_neg _ p) at h))
  ]

  pub member-keys-none : (d : Dict K V) (k : K) → get dec d k ≡ none → member dec k (keys d) ≡ false
  unfolding get member
  member-keys-none [] k h = refl
  member-keys-none ((j, w) ∷ d) k h = elim (dec j k) [
    | yes p ↦ absurd (some≢none (rw (if_pos _ p) at h))
    | no p ↦ rw (if_neg _ p) (member-keys-none d k (rw (if_neg _ p) at h))
  ]

module _ {ℓ} {K V : Type ℓ} (dec : Discrete K) where
  -- What a lookup returns is one of the entries.
  pub get-Some :
      (P : K × V → Type 0) (d : Dict K V) (k : K) (v : V)
      → get dec d k ≡ some v
      → P (k, v)
      → Some P d
  unfolding get
  get-Some P [] k v h p = absurd (none≢some h)
  get-Some P ((j, w) ∷ d) k v h p = elim (dec j k) [
    | yes e ↦ inl (subst P (×_path (sym e) (sym (some_inj (rw (if_pos _ e) at h)))) p)
    | no ne ↦ inr (get-Some P d k v (rw (if_neg _ ne) at h) p)
  ]

  pub get-Some-values :
      (P : V → Type 0) (d : Dict K V) (k : K) (v : V)
      → get dec d k ≡ some v
      → P v
      → Some P (values d)
  unfolding get
  get-Some-values P [] k v h p = absurd (none≢some h)
  get-Some-values P ((j, w) ∷ d) k v h p = elim (dec j k) [
    | yes e ↦ inl (subst P (sym (some_inj (rw (if_pos _ e) at h))) p)
    | no ne ↦ inr (get-Some-values P d k v (rw (if_neg _ ne) at h) p)
  ]

pub Some-values {ℓ} :
    {K V : Type ℓ} (P : V → Type 0) (d : Dict K V) → Some (λ e. P e.1) d → Some P (values d)
Some-values P [] h = h
Some-values P (e ∷ d) (inl p) = inl p
Some-values P (e ∷ d) (inr h) = inr (Some-values P d h)

module _ {ℓ} {K : Type ℓ} (dec : Discrete K) where
  pub All-add {κ} : (P : K → Type κ) (x : K) (s : List K) → P x → All P s → All P (add dec x s)
  unfolding add
  All-add P x s px h = elim (Bool-cases (member dec x s)) [
    | inl old ↦ rw old h
    | inr new ↦ rw new (All-append P s (x ∷ []) h (px, tt))
  ]

  pub All-union {κ} : (P : K → Type κ) (s t : List K) → All P s → All P t → All P (union dec s t)
  unfolding union
  All-union P s [] h _ = h
  All-union P s (x ∷ t) h (px, ht) = All-union P (add dec x s) t (All-add P x s px h) ht
