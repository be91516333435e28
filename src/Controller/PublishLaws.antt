-- ===== src/Controller/PublishLaws.antt =====
-- What the patch of the annotations of the mux does, and when there is one.
use svc_lb_mux.Prelude.{
  ◌≡◌, refl, sym, ap, subst, ◌∙◌, Bool, true, false, Option, none, some, List, [], ◌∷◌, arith,
  if◌then◌else◌, ite, if_pos, if_neg, Option-cases, inl, inr, ◌⊎◌, ◌↔◌, Str, Str-discrete,
  false≢true,
}
use svc_lb_mux.Prelude.Dict.{Dict, keys, member, difference, get, put}
use svc_lb_mux.Model.{Annotations}
use svc_lb_mux.Prelude.Dict.Laws.{get-put, member-difference, member-keys, member-keys-none}
use svc_lb_mux.Controller.Publish.{
  same_value, agree_on, same_annotations, with_values, with_none, patch_annotations,
}
use svc_lb_mux.Prelude.{◌≢◌}

pub some≢none {ℓ} : {A : Type ℓ} {x : A} → some x ≢ none
some≢none h = cc

get-with_values :
    (d : Annotations) (k : Str)
    → get Str-discrete (with_values d) k
      ≡ elim (get Str-discrete d k) [ none ↦ none | some v ↦ some (some v) ]
unfolding with_values get
get-with_values [] k = refl
get-with_values ((j, v) ∷ d) k = ground (arith, get-with_values d k)

get-with_none :
    (d : Dict Str (Option Str)) (ks : List Str) (k : Str)
    → get Str-discrete (with_none d ks) k
      ≡ (if member Str-discrete k ks then some none else get Str-discrete d k)
unfolding with_none member
get-with_none d [] k = refl
get-with_none d (j ∷ ks) k =
    get-with_none (put Str-discrete d j none) ks k
    ∙ rw get-put (by_key (Str-discrete j k) (member Str-discrete k ks))
  where
    by_key :
        (o : Dec (j ≡ k)) (b : Bool)
        → (if b then some none else ite o (some none) (get Str-discrete d k))
          ≡ (if ite o true b then some none else get Str-discrete d k)
    by_key (yes e) true = refl
    by_key (yes e) false = refl
    by_key (no n) b = refl

-- What the merge of a patch leaves under a key, from the patch's value and the old one: `None` takes
-- the key away.
abbrev pub merged : Option (Option Str) → Option Str → Option Str
merged none old = old
merged (some value) old = value

get-patch :
    (current desired : Annotations) (k : Str)
    → get Str-discrete (patch_annotations current desired) k ≡ (
        if (if member Str-discrete k (keys desired)
          then false
          else member Str-discrete k (keys current))
        then some none
        else elim (get Str-discrete desired k) [ none ↦ none | some v ↦ some (some v) ])
unfolding patch_annotations
get-patch current desired k =
    get-with_none (with_values desired) (difference Str-discrete (keys current) (keys desired)) k
    ∙ rw (member-difference Str-discrete k (keys current) (keys desired), get-with_values desired k)
        refl

-- The patch of the annotations, merged into what the mux has, leaves under every key the desired value,
-- and nothing where there is none.
pub patch_annotations-merged :
    (current desired : Annotations) (k : Str)
    → merged (get Str-discrete (patch_annotations current desired) k) (get Str-discrete current k)
      ≡ get Str-discrete desired k
patch_annotations-merged current desired k = rw get-patch (
    by_value (Option-cases (get Str-discrete desired k))
      (Option-cases (get Str-discrete current k)))
  where
    by_value :
        (get Str-discrete desired k ≡ none) ⊎ ((v : Str) × (get Str-discrete desired k ≡ some v))
        → (get Str-discrete current k ≡ none) ⊎ ((v : Str) × (get Str-discrete current k ≡ some v))
        → merged
            (if (if member Str-discrete k (keys desired)
                then false
                else member Str-discrete k (keys current))
              then some none
              else elim (get Str-discrete desired k) [ none ↦ none | some v ↦ some (some v) ])
            (get Str-discrete current k)
          ≡ get Str-discrete desired k
    by_value (inr (v, at)) _ = rw (member-keys Str-discrete desired k v at, at) refl
    by_value (inl gone) (inl old) =
        rw
          (
            member-keys-none Str-discrete desired k gone,
            member-keys-none Str-discrete current k old,
            gone,
            old,
          )
          refl
    by_value (inl gone) (inr (v, old)) =
        rw
          (
            member-keys-none Str-discrete desired k gone,
            member-keys Str-discrete current k v old,
            gone,
          )
          refl

same_value_refl : (o : Option Str) → same_value o o ≡ true
same_value_refl none = refl
same_value_refl (some a) = if_pos (Str-discrete a a) refl true false

same_value-eq : (o p : Option Str) → same_value o p ≡ true → o ≡ p
same_value-eq none none h = refl
same_value-eq none (some b) h = cc
same_value-eq (some a) none h = cc
same_value-eq (some a) (some b) h = elim (Str-discrete a b) [
  | yes e ↦ ap some e
  | no n ↦ absurd (false≢true (sym (if_neg (Str-discrete a b) n true false) ∙ h))
]

agree_on-eq :
    (ks : List Str) (a b : Annotations) (k : Str)
    → agree_on ks a b ≡ true
    → member Str-discrete k ks ≡ true
    → get Str-discrete a k ≡ get Str-discrete b k
unfolding agree_on member
agree_on-eq [] a b k h m = cc
agree_on-eq (j ∷ ks) a b k h m = elim (Str-discrete j k) [
  | yes e ↦
      subst (λ l. get Str-discrete a l ≡ get Str-discrete b l) e
        (same_value-eq (get Str-discrete a j) (get Str-discrete b j) (ground arith))
  | no n ↦
      agree_on-eq ks a b k (ground arith)
        (sym (if_neg (Str-discrete j k) n true (member Str-discrete k ks)) ∙ m)
]

agree_on-all :
    (ks : List Str) (a b : Annotations)
    → ((k : Str) → get Str-discrete a k ≡ get Str-discrete b k)
    → agree_on ks a b ≡ true
unfolding agree_on
agree_on-all [] a b h = refl
agree_on-all (k ∷ ks) a b h =
    rw (h k, same_value_refl (get Str-discrete b k), agree_on-all ks a b h) refl

agree-everywhere :
    (a b : Annotations)
    → agree_on (keys a) a b ≡ true
    → agree_on (keys b) a b ≡ true
    → (k : Str) → get Str-discrete a k ≡ get Str-discrete b k
agree-everywhere a b ha hb k = elim (Option-cases (get Str-discrete a k)) [
  | inr (v, at) ↦ agree_on-eq (keys a) a b k ha (member-keys Str-discrete a k v at)
  | inl gone ↦ elim (Option-cases (get Str-discrete b k)) [
    | inr (w, at) ↦ agree_on-eq (keys b) a b k hb (member-keys Str-discrete b k w at)
    | inl none_too ↦ gone ∙ sym none_too
  ]
]

pub same_annotations-eq :
    (a b : Annotations)
    → (same_annotations a b ≡ true) ↔ ((k : Str) → get Str-discrete a k ≡ get Str-discrete b k)
unfolding same_annotations
same_annotations-eq a b = (
  (λ h. agree-everywhere a b (ground arith) (ground arith)),
  (λ h. rw (agree_on-all (keys a) a b h, agree_on-all (keys b) a b h) refl),
)
