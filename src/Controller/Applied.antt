-- ===== src/Controller/Applied.antt =====
-- What the patches of the mux by `mux_daemon` of `src/controller.py` leave.
use svc_lb_mux.Prelude.{
  ◌≡◌, refl, sym, ◌∙◌, Bool, true, false, Option, none, some, List, [], ◌∷◌, if◌then◌else◌, if_pos,
  inl, inr, ◌↔◌, Str, Str-discrete, false≢true,
}
use svc_lb_mux.Prelude.Dict.{Dict, member, difference, get}
use svc_lb_mux.Model.{Annotations}
use svc_lb_mux.Prelude.Dict.Laws.{member-difference}
use svc_lb_mux.Controller.Publish.{
  same_annotations, patch_annotations, differ, OldEndpoints, Published, publish_to,
}
use svc_lb_mux.Prelude.{not, ◌&&◌, Bool-cases, is_empty, is_empty_nil}
use svc_lb_mux.Model.{MuxPort, MuxPort-discrete}
use svc_lb_mux.Reconcile.Endpoints.{Subset}
use svc_lb_mux.Controller.PublishLaws.{
  some≢none, merged, patch_annotations-merged, same_annotations-eq,
}

-- What the mux has under a key after the patch, if there is one.
abbrev pub after_patch : Option (Dict Str (Option Str)) → Annotations → Str → Option Str
after_patch none current k = get Str-discrete current k
after_patch (some patch) current k = merged (get Str-discrete patch k) (get Str-discrete current k)

-- The ports of the mux after the patch, if there is one.
abbrev pub ports_after : Option (List MuxPort) → List MuxPort → List MuxPort
ports_after none old_ports = old_ports
ports_after (some mux_ports) old_ports = mux_ports

-- Both have the same members.
abbrev pub SamePorts : List MuxPort → List MuxPort → Type 0
SamePorts s t = (x : MuxPort) → member MuxPort-discrete x s ≡ member MuxPort-discrete x t

empty_difference :
    (s t : List MuxPort)
    → is_empty (difference MuxPort-discrete s t) ≡ true
    → (x : MuxPort) → member MuxPort-discrete x s ≡ true
    → member MuxPort-discrete x t ≡ true
unfolding member
empty_difference s t h x there = elim (Bool-cases (member MuxPort-discrete x t)) [
  | inl in_t ↦ in_t
  | inr not_in ↦
      let found : member MuxPort-discrete x (difference MuxPort-discrete s t) ≡ true =
        member-difference MuxPort-discrete x s t ∙ rw (not_in, there) refl in
      let nothing : difference MuxPort-discrete s t ≡ [] =
        is_empty_nil (difference MuxPort-discrete s t) h in
      absurd (false≢true (rw nothing at found))
]

no_members : (s : List MuxPort) → ((x : MuxPort) → member MuxPort-discrete x s ≡ false) → s ≡ []
unfolding member
no_members [] h = refl
no_members (x ∷ s) h =
    absurd (
      false≢true
        (sym (h x) ∙ if_pos (MuxPort-discrete x x) refl true (member MuxPort-discrete x s)))

difference_nil : (s t : List MuxPort) → SamePorts s t → difference MuxPort-discrete s t ≡ []
difference_nil s t same = no_members (difference MuxPort-discrete s t) (λ x.
    member-difference MuxPort-discrete x s t
    ∙ rw (same x) (by_member (member MuxPort-discrete x t)))
  where
    by_member : (b : Bool) → (if b then false else b) ≡ false
    by_member true = refl
    by_member false = refl

differ-SamePorts : (s t : List MuxPort) → (differ MuxPort-discrete s t ≡ false) ↔ SamePorts s t
differ-SamePorts s t = (
  (λ h x.
      let (st, ts) = both_empty _ _ h in
      iff_eq (member MuxPort-discrete x s) (member MuxPort-discrete x t) (empty_difference s t st x)
        (empty_difference t s ts x)),
  (λ same. rw (difference_nil s t same, difference_nil t s (λ x. sym (same x))) refl),
)
  where
    both_empty : (p q : Bool) → not (p && q) ≡ false → (p ≡ true) × (q ≡ true)
    both_empty true true h = (refl, refl)
    both_empty true false h = cc
    both_empty false q h = cc

    iff_eq : (p q : Bool) → (p ≡ true → q ≡ true) → (q ≡ true → p ≡ true) → p ≡ q
    iff_eq true q f g = sym (f refl)
    iff_eq false true f g = g refl
    iff_eq false false f g = refl

-- `mux_daemon` leaves the annotations of the mux alone exactly if they agree with the desired ones under
-- every key, and else the merged patch leaves the desired value under every key; it leaves the
-- ports alone exactly if the old and the new ones are the same set, and else they become that set.
pub publish_to-applied :
    (dumps : List Str → Str) (current desired : Annotations) (summary : Str)
    (old_ports mux_ports : List MuxPort) (old : OldEndpoints) (metadata : Annotations × Annotations)
    (endpoints : List Subset)
    → let p : Published =
        publish_to dumps current desired summary old_ports mux_ports old metadata endpoints in
      ((p.annotations ≡ none)
        ↔ ((k : Str) → get Str-discrete current k ≡ get Str-discrete desired k))
      × ((k : Str) → after_patch p.annotations current k ≡ get Str-discrete desired k)
      × ((p.ports ≡ none) ↔ SamePorts old_ports mux_ports)
      × SamePorts (ports_after p.ports old_ports) mux_ports
unfolding publish_to
publish_to-applied dumps current desired summary old_ports mux_ports old metadata endpoints =
    let (agrees, patched) =
      by_annotations (same_annotations current desired) (same_annotations-eq current desired) in
    let (same_ports, become) =
      by_ports (differ MuxPort-discrete old_ports mux_ports)
        (differ-SamePorts old_ports mux_ports) in
    (agrees, patched, same_ports, become)
  where
    by_annotations :
        (b : Bool)
        → (b ≡ true) ↔ ((k : Str) → get Str-discrete current k ≡ get Str-discrete desired k)
        → let patch : Option (Dict Str (Option Str)) =
            if not b then some (patch_annotations current desired) else none in
          ((patch ≡ none) ↔ ((k : Str) → get Str-discrete current k ≡ get Str-discrete desired k))
          × ((k : Str) → after_patch patch current k ≡ get Str-discrete desired k)
    by_annotations true (to, from) = (((λ _. to refl), (λ _. refl)), to refl)
    by_annotations false (to, from) = (
      ((λ h. absurd (some≢none h)), (λ same. absurd (false≢true (from same)))),
      patch_annotations-merged current desired,
    )

    by_ports :
        (b : Bool)
        → (b ≡ false) ↔ SamePorts old_ports mux_ports
        → let patch : Option (List MuxPort) = if b then some mux_ports else none in
          ((patch ≡ none) ↔ SamePorts old_ports mux_ports)
          × SamePorts (ports_after patch old_ports) mux_ports
    by_ports false (to, from) = (((λ _. to refl), (λ _. refl)), to refl)
    by_ports true (to, from) = (
      ((λ h. absurd (some≢none h)), (λ same. absurd (false≢true (sym (from same))))),
      (λ x. refl),
    )
