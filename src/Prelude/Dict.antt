-- ===== src/Prelude/Dict.antt =====
-- Python's `dict` in its order of insertion, and `set` as a list read by membership.
pub mod Laws
pub mod Unique
pub mod Drop
pub mod Entries
use Prim.Native.Nat.{ℕ, zero, suc, ◌+◌, ◌≤◌}
use mathlib.Core.Path.{◌≡◌, refl}
use mathlib.Core.Bool.{Bool, true, false, not, ◌&&◌, ◌||◌}
use mathlib.Core.List.{List, [], ◌∷◌, ◌++◌}
use mathlib.Core.Logic.{ite, ◌≢◌, if_pos, if_neg}
use mathlib.Core.Option.{Option, none, some}
use native.Mathlib.Omega.{arith}
use svc_lb_mux.Prelude.Tests.{if◌then◌else◌, Bool-cases}
use svc_lb_mux.Prelude.Lists.{map, filter}

abbrev pub Dict {ℓ} : Type ℓ → Type ℓ → Type ℓ
Dict K V = List (K × V)

module _ {ℓ} {K V : Type ℓ} where
  abbrev pub keys : Dict K V → List K
  keys d = map (λ e. e.0) d

  abbrev pub values : Dict K V → List V
  values d = map (λ e. e.1) d

module _ {ℓ} {K : Type ℓ} (dec : Discrete K) where
  -- `x in s`
  unfoldable pub member : K → List K → Bool
  member x [] = false
  member x (y ∷ ys) = ite (dec y x) true (member x ys)

  -- `s.add(x)`
  unfoldable pub add : K → List K → List K
  unfolding member
  add x s = if member x s then s else s ++ x ∷ []

  -- `s.update(t)`
  unfoldable pub union : List K → List K → List K
  unfolding add
  union s [] = s
  union s (x ∷ t) = union (add x s) t

  -- `s - t`
  unfoldable pub difference : List K → List K → List K
  unfolding member
  difference [] t = []
  difference (x ∷ s) t = let rest = difference s t in if member x t then rest else x ∷ rest

module _ {ℓ} {K V : Type ℓ} (dec : Discrete K) where
  -- `d.get(k)`
  unfoldable pub get : Dict K V → K → Option V
  get [] k = none
  get ((j, v) ∷ d) k = ite (dec j k) (some v) (get d k)

  -- `d[k] = v`: a new key goes to the end, an old one keeps its place.
  unfoldable pub put : Dict K V → K → V → Dict K V
  put [] k v = (k, v) ∷ []
  put ((j, w) ∷ d) k v = ite (dec j k) ((j, v) ∷ d) ((j, w) ∷ put d k v)

  -- `d.pop(k, None)`
  unfoldable pub remove : Dict K V → K → Dict K V
  remove [] k = []
  remove ((j, w) ∷ d) k = ite (dec j k) (remove d k) ((j, w) ∷ remove d k)

  -- `for k in ks: del d[k]`
  unfoldable pub remove_all : Dict K V → List K → Dict K V
  unfolding remove
  remove_all d [] = d
  remove_all d (k ∷ ks) = remove_all (remove d k) ks

  -- `d.setdefault(k, v)`
  unfoldable pub setdefault : Dict K V → K → V → Dict K V
  unfolding get put
  setdefault d k v = elim (get d k) [ none ↦ put d k v | some w ↦ d ]

  -- `d.update(e)`
  unfoldable pub update : Dict K V → Dict K V → Dict K V
  unfolding put
  update d [] = d
  update d ((k, v) ∷ e) = update (put d k v) e
