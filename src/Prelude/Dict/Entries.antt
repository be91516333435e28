-- ===== src/Prelude/Dict/Entries.antt =====
-- What holds of all entries of a dict, and unique keys, after writes and removals.
use mathlib.Core.Path.{◌≡◌}
use mathlib.Core.List.{List, [], ◌∷◌}
use mathlib.Core.Logic.{◌≢◌, if_pos, if_neg}
use svc_lb_mux.Prelude.Lists.{All}
use svc_lb_mux.Prelude.Dict.{Dict, put, remove, remove_all}
use svc_lb_mux.Prelude.Dict.Unique.{UniqueKeys}

module _ {K V : Type 0} (dec : Discrete K) where
  pub All-put :
      (P : K × V → Type 0) (d : Dict K V) (k : K) (v : V)
      → ((j : K) → j ≡ k → P (j, v))
      → All P d
      → All P (put dec d k v)
  unfolding put
  All-put P [] k v p h = (p k (λ i. k), tt)
  All-put P ((j, w) ∷ d) k v p (q, h) = elim (dec j k) [
    | yes e ↦ rw (if_pos (dec j k) e ((j, v) ∷ d) ((j, w) ∷ put dec d k v)) (p j e, h)
    | no ne ↦
        rw (if_neg (dec j k) ne ((j, v) ∷ d) ((j, w) ∷ put dec d k v)) (q, All-put P d k v p h)
  ]

  pub All-remove : (P : K × V → Type 0) (d : Dict K V) (k : K) → All P d → All P (remove dec d k)
  unfolding remove
  All-remove P [] k h = tt
  All-remove P ((j, w) ∷ d) k (q, h) = elim (dec j k) [
    | yes e ↦
        rw (if_pos (dec j k) e (remove dec d k) ((j, w) ∷ remove dec d k)) (All-remove P d k h)
    | no ne ↦
        rw (if_neg (dec j k) ne (remove dec d k) ((j, w) ∷ remove dec d k)) (q, All-remove P d k h)
  ]

  pub All-remove_all :
      (P : K × V → Type 0) (d : Dict K V) (ks : List K) → All P d → All P (remove_all dec d ks)
  unfolding remove_all
  All-remove_all P d [] h = h
  All-remove_all P d (k ∷ ks) h = All-remove_all P (remove dec d k) ks (All-remove P d k h)

  pub remove-UniqueKeys : (d : Dict K V) (k : K) → UniqueKeys d → UniqueKeys (remove dec d k)
  unfolding remove
  remove-UniqueKeys [] k h = tt
  remove-UniqueKeys ((j, w) ∷ d) k (lacks, h) = elim (dec j k) [
    | yes e ↦
        rw (if_pos (dec j k) e (remove dec d k) ((j, w) ∷ remove dec d k)) (remove-UniqueKeys d k h)
    | no ne ↦
        rw (if_neg (dec j k) ne (remove dec d k) ((j, w) ∷ remove dec d k))
          (All-remove (λ e. e.0 ≢ j) d k lacks, remove-UniqueKeys d k h)
  ]

  pub remove_all-UniqueKeys :
      (d : Dict K V) (ks : List K) → UniqueKeys d → UniqueKeys (remove_all dec d ks)
  unfolding remove_all
  remove_all-UniqueKeys d [] h = h
  remove_all-UniqueKeys d (k ∷ ks) h =
      remove_all-UniqueKeys (remove dec d k) ks (remove-UniqueKeys d k h)
