-- ===== src/Prelude/Dict/Unique.antt =====
-- Dicts whose keys are unique, as those that are built by writes; and what `update` writes.
use mathlib.Core.Path.{◌≡◌, refl, sym, subst, ap, ◌∙◌}
use mathlib.Core.List.{[], ◌∷◌}
use mathlib.Core.Logic.{◌≢◌, if_pos, if_neg, ◌⊎◌, inl, inr}
use mathlib.Core.Option.{Option, none, some}
use svc_lb_mux.Prelude.Lists.{All, Some}
use svc_lb_mux.Prelude.Dict.{Dict, get, put, update}
use svc_lb_mux.Prelude.Dict.Laws.{get-put, get-Some, some_inj}

module _ {K V : Type 0} where
  -- `k` has the value `v` in an entry.
  abbrev pub HasEntry : K → V → Dict K V → Type 0
  HasEntry k v d = Some (λ e. (e.0 ≡ k) × (e.1 ≡ v)) d

  abbrev pub LacksKey : K → Dict K V → Type 0
  LacksKey k d = All (λ e. e.0 ≢ k) d

  abbrev pub UniqueKeys : Dict K V → Type 0
  UniqueKeys [] = Unit
  UniqueKeys ((k, v) ∷ d) = LacksKey k d × UniqueKeys d

  LacksKey-HasEntry : (k : K) (v : V) (d : Dict K V) → LacksKey k d → ¬ HasEntry k v d
  LacksKey-HasEntry k v [] h e = e
  LacksKey-HasEntry k v ((j, w) ∷ d) (ne, h) (inl (same, _)) = ne same
  LacksKey-HasEntry k v ((j, w) ∷ d) (ne, h) (inr there) = LacksKey-HasEntry k v d h there

module _ {K V : Type 0} (dec : Discrete K) where
  LacksKey-put :
      (i k : K) (v : V) (d : Dict K V) → k ≢ i → LacksKey i d → LacksKey i (put dec d k v)
  unfolding put
  LacksKey-put i k v [] ne h = (ne, tt)
  LacksKey-put i k v ((j, w) ∷ d) ne (hj, h) = elim (dec j k) [
    | yes e ↦ rw (if_pos (dec j k) e ((j, v) ∷ d) ((j, w) ∷ put dec d k v)) (hj, h)
    | no n ↦
        rw (if_neg (dec j k) n ((j, v) ∷ d) ((j, w) ∷ put dec d k v))
          (hj, LacksKey-put i k v d ne h)
  ]

  pub put-UniqueKeys : (d : Dict K V) (k : K) (v : V) → UniqueKeys d → UniqueKeys (put dec d k v)
  unfolding put
  put-UniqueKeys [] k v h = (tt, tt)
  put-UniqueKeys ((j, w) ∷ d) k v (hj, h) = elim (dec j k) [
    | yes e ↦ rw (if_pos (dec j k) e ((j, v) ∷ d) ((j, w) ∷ put dec d k v)) (hj, h)
    | no n ↦
        rw (if_neg (dec j k) n ((j, v) ∷ d) ((j, w) ∷ put dec d k v))
          (LacksKey-put j k v d (λ e. n (sym e)) hj, put-UniqueKeys d k v h)
  ]

  -- With unique keys the entries are what lookups return.
  pub get_of_HasEntry :
      (d : Dict K V) (k : K) (v : V) → UniqueKeys d → HasEntry k v d → get dec d k ≡ some v
  unfolding get
  get_of_HasEntry [] k v u h = absurd h
  get_of_HasEntry ((j, w) ∷ d) k v (lacks, u) (inl (same, val)) =
      if_pos (dec j k) same (some w) (get dec d k) ∙ ap some val
  get_of_HasEntry ((j, w) ∷ d) k v (lacks, u) (inr there) = elim (dec j k) [
    | yes same ↦ absurd (LacksKey-HasEntry k v d (subst (λ i. LacksKey i d) same lacks) there)
    | no other ↦ if_neg (dec j k) other (some w) (get dec d k) ∙ get_of_HasEntry d k v u there
  ]

  pub HasEntry-of_get : (d : Dict K V) (k : K) (v : V) → get dec d k ≡ some v → HasEntry k v d
  HasEntry-of_get d k v h = get-Some dec (λ e. (e.0 ≡ k) × (e.1 ≡ v)) d k v h (refl, refl)

module _ {K V : Type 0} (dec : Discrete K) where
  -- The last writer wins in `update`.
  abbrev or_old : Option V → Option V → Option V
  or_old none old = old
  or_old (some v) old = some v

  pub get-put_cases :
      (d : Dict K V) (k : K) (v : V) (j : K) (w : V)
      → get dec (put dec d k v) j ≡ some w
      → ((k ≡ j) × (v ≡ w)) ⊎ ((k ≢ j) × (get dec d j ≡ some w))
  get-put_cases d k v j w h = elim (dec k j) [
    | yes e ↦ inl (e, some_inj (sym (if_pos (dec k j) e _ _) ∙ sym (get-put dec d k v j) ∙ h))
    | no ne ↦ inr (ne, sym (if_neg (dec k j) ne _ _) ∙ sym (get-put dec d k v j) ∙ h)
  ]

  -- Each value after `update` was there before, or is one of the entries written.
  pub get-update-some :
      (d e : Dict K V) (k : K) (v : V)
      → get dec (update dec d e) k ≡ some v
      → (get dec d k ≡ some v) ⊎ Some (λ x. x.1 ≡ v) e
  unfolding update
  get-update-some d [] k v h = inl h
  get-update-some d ((j, w) ∷ e) k v h = elim (get-update-some (put dec d j w) e k v h) [
    | inl old ↦ elim (get-put_cases d j w k v old) [
      | inl (_, same) ↦ inr (inl same)
      | inr (_, there) ↦ inl there
    ]
    | inr new ↦ inr (inr new)
  ]

  -- A value on which both agree is there after `update`.
  pub get-update_agree :
      (d e : Dict K V) (k : K) (v : V)
      → get dec d k ≡ some v
      → ((w : V) → Some (λ x. (x.0 ≡ k) × (x.1 ≡ w)) e → w ≡ v)
      → get dec (update dec d e) k ≡ some v
  unfolding update
  get-update_agree d [] k v h agree = h
  get-update_agree d ((j, w) ∷ e) k v h agree =
      get-update_agree (put dec d j w) e k v
        (elim (dec j k) [
          | yes same ↦
              get-put dec d j w k ∙ if_pos (dec j k) same _ _ ∙ ap some (agree w (inl (same, refl)))
          | no other ↦ get-put dec d j w k ∙ if_neg (dec j k) other _ _ ∙ h
        ])
        (λ u there. agree u (inr there))

  -- A key that `update` writes, always with the same value, has this value.
  pub get-update_written :
      (d e : Dict K V) (k : K) (v : V)
      → Some (λ x. (x.0 ≡ k) × (x.1 ≡ v)) e
      → ((w : V) → Some (λ x. (x.0 ≡ k) × (x.1 ≡ w)) e → w ≡ v)
      → get dec (update dec d e) k ≡ some v
  unfolding update
  get-update_written d [] k v h agree = absurd h
  get-update_written d ((j, w) ∷ e) k v (inl (same, val)) agree =
      get-update_agree (put dec d j w) e k v
        (get-put dec d j w k ∙ if_pos (dec j k) same _ _ ∙ ap some val)
        (λ u there. agree u (inr there))
  get-update_written d ((j, w) ∷ e) k v (inr h) agree =
      get-update_written (put dec d j w) e k v h (λ u there. agree u (inr there))
