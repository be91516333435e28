-- ===== src/Reconcile/Previous.antt =====
-- The owner that `find_mux_port_conflicts` compares a channel with: the recovered one, or else the
-- one assigned before in the same call.
use svc_lb_mux.Prelude.{
  ◌≡◌, refl, sym, subst, ◌∙◌, true, false, Option, none, some, [], ◌∷◌, if_neg, Str, Str-discrete,
  is_empty, false≢true,
}
use svc_lb_mux.Prelude.Dict.{Dict, get}
use svc_lb_mux.Model.{PortKey, PortKey-discrete}
use svc_lb_mux.Reconcile.Owners.{owner_of}
use svc_lb_mux.Reconcile.Conflicts.{owner_or, is_other}

-- The port belongs to the owner; an empty text would be no owner.
abbrev pub Owns : Dict PortKey Str → PortKey → Str → Type 0
Owns owners x o = (get PortKey-discrete owners x ≡ some o) × (is_empty o ≡ false)

pub owner_of-ne-nil :
    (namespace name mux_name : Str) → is_empty (owner_of namespace name mux_name) ≡ false
unfolding owner_of
owner_of-ne-nil [] name mux_name = refl
owner_of-ne-nil (c ∷ namespace) name mux_name = refl

not_other : (owner v : Str) → is_empty v ≡ false → is_other owner (some v) ≡ false → v ≡ owner
not_other owner [] h f = cc
not_other owner (c ∷ v) h f = elim (Str-discrete (c ∷ v) owner) [
  | yes same ↦ same
  | no ne ↦ absurd (false≢true (sym (sym (if_neg (Str-discrete (c ∷ v) owner) ne false true) ∙ f)))
]

-- The owner that counts is the recovered one, or else the assigned one.
pub previous_recovered :
    (owner w : Str) (o other : Option Str)
    → o ≡ some w
    → is_empty w ≡ false
    → is_other owner (owner_or o other) ≡ false
    → w ≡ owner
previous_recovered owner [] o other e h f = cc
previous_recovered owner (c ∷ w) o other e h f =
    not_other owner (c ∷ w) h (subst (λ r. is_other owner (owner_or r other) ≡ false) e f)

pub previous_assigned :
    (owner v : Str) (o other : Option Str)
    → ((w : Str) → o ≡ some w → is_empty w ≡ false → w ≡ v)
    → other ≡ some v
    → is_empty v ≡ false
    → is_other owner (owner_or o other) ≡ false
    → v ≡ owner
previous_assigned owner v none other agree e h f =
    not_other owner v h (subst (λ r. is_other owner r ≡ false) e f)
previous_assigned owner v (some []) other agree e h f =
    not_other owner v h (subst (λ r. is_other owner r ≡ false) e f)
previous_assigned owner v (some (c ∷ w)) other agree e h f =
    sym (agree (c ∷ w) refl refl)
    ∙ previous_recovered owner (c ∷ w) (some (c ∷ w)) other refl refl f
