-- ===== src/Prelude/Dict/Drop.antt =====
-- Removing the keys of the entries that pass a test, from a dict whose keys are unique.
use mathlib.Core.Path.{◌≡◌, refl, sym, subst, ◌∙◌}
use mathlib.Core.Bool.{Bool, true, false}
use mathlib.Core.List.{[], ◌∷◌}
use mathlib.Core.Logic.{if_pos, if_neg, inl, inr}
use mathlib.Core.Option.{Option, none, some}
use svc_lb_mux.Prelude.Tests.{if◌then◌else◌, Bool-cases}
use svc_lb_mux.Prelude.Lists.{filter}
use svc_lb_mux.Prelude.Dict.{Dict, get, keys, member, remove_all}
use svc_lb_mux.Prelude.Dict.Laws.{get-remove_all}
use svc_lb_mux.Prelude.Dict.Unique.{LacksKey, UniqueKeys}

module _ {K V : Type 0} (dec : Discrete K) (p : K × V → Bool) where
  -- What the test says of the value of a key.
  abbrev pub passes : K → Option V → Bool
  passes j none = false
  passes j (some v) = p (j, v)

  abbrev pub kept : K → Option V → Option V
  kept j none = none
  kept j (some v) = if p (j, v) then none else some v

  LacksKey-get : (d : Dict K V) (k : K) → LacksKey k d → get dec d k ≡ none
  unfolding get
  LacksKey-get [] k h = refl
  LacksKey-get ((i, w) ∷ d) k (ne, h) = if_neg (dec i k) ne _ _ ∙ LacksKey-get d k h

  pub member-keys-filter :
      (d : Dict K V) (j : K)
      → UniqueKeys d
      → member dec j (keys (filter p d)) ≡ passes j (get dec d j)
  unfolding get member
  member-keys-filter [] j h = refl
  member-keys-filter ((i, w) ∷ d) j (lacks, unique) =
      let later = member-keys-filter d j unique in
      elim (dec i j) [
        | yes e ↦
            let value = if_pos (dec i j) e (some w) (get dec d j) in
            elim (Bool-cases (p (i, w))) [
              | inl passed ↦
                  rw (value, passed, if_pos (dec i j) e true (member dec j (keys (filter p d))))
                    (sym (subst (λ k. p (k, w) ≡ true) e passed))
              | inr failed ↦
                  let gone = LacksKey-get d j (subst (λ k. LacksKey k d) e lacks) in
                  rw (value, failed, later, gone) (sym (subst (λ k. p (k, w) ≡ false) e failed))
            ]
        | no ne ↦
            let value = if_neg (dec i j) ne (some w) (get dec d j) in
            elim (Bool-cases (p (i, w))) [
              | inl passed ↦
                  rw (value, passed, if_neg (dec i j) ne true (member dec j (keys (filter p d))))
                    later
              | inr failed ↦ rw (value, failed) later
            ]
      ]

  pub get-remove_filter :
      (d : Dict K V) (j : K)
      → UniqueKeys d
      → get dec (remove_all dec d (keys (filter p d))) j ≡ kept j (get dec d j)
  get-remove_filter d j h =
      rw (get-remove_all dec d (keys (filter p d)) j, member-keys-filter d j h)
        (by_value (get dec d j))
    where
      by_value : (o : Option V) → (if passes j o then none else o) ≡ kept j o
      by_value none = refl
      by_value (some v) = refl
