-- ===== src/Muxdebug/PodLaws.antt =====
-- Which Endpoints have a pod, and which pods `_extract_pod_infos` of `tools/muxdebug/debugger.py` takes
-- from them.
use svc_lb_mux.Prelude.{
  ◌≡◌, refl, sym, ap, ◌∙◌, Bool, true, false, ◌&&◌, Option, none, some, List, [], ◌∷◌, ◌++◌,
  if◌then◌else◌, ite, if_pos, Bool-cases, inl, inr, ◌⊎◌, ◌↔◌, Some, any, Str, codes, Str-discrete,
  false≢true,
}
use svc_lb_mux.Debug.State.{is_pod}
use svc_lb_mux.Muxdebug.Routes.{PodAddress, PodSubset, PodInfo, pods_of, extract_pod_infos}
use svc_lb_mux.Muxdebug.Find.{is_target}

module _ {A : Type 0} (p : A → Bool) where
  -- A test that some element of an appended list passes.
  any-append : (xs ys : List A) → any p (xs ++ ys) ≡ (if any p xs then true else any p ys)
  any-append [] ys = refl
  any-append (x ∷ xs) ys = rw (any-append xs ys) (by_head (p x))
    where
      by_head :
          (b : Bool)
          → (if b then true else if any p xs then true else any p ys)
            ≡ (if (if b then true else any p xs) then true else any p ys)
      by_head true = refl
      by_head false = refl

or_cases : (p q : Bool) → (if p then true else q) ≡ true → (p ≡ true) ⊎ (q ≡ true)
or_cases true q h = inl refl
or_cases false q h = inr h

pub or_left : (p q : Bool) → p ≡ true → (if p then true else q) ≡ true
or_left p q h = rw h refl

or_right : (p q : Bool) → q ≡ true → (if p then true else q) ≡ true
or_right true q h = refl
or_right false q h = h

pub ite_true : {A : Type 0} (d : Dec A) → ite d true false ≡ true → A
ite_true (yes a) h = a
ite_true (no n) h = cc

module _ (pod_name namespace : Str) where
  -- The address belongs to the pod.
  abbrev pub IsPodAddress : PodAddress → Type 0
  IsPodAddress a =
      (a.target_kind ≡ some (codes "Pod"))
      × (a.target_name ≡ pod_name)
      × (a.target_namespace ≡ namespace)

  -- The Endpoints have an address of the pod, ready or not.
  abbrev pub HasPod : List PodSubset → Type 0
  HasPod subsets =
      Some
        (λ (s : PodSubset). Some IsPodAddress s.addresses ⊎ Some IsPodAddress s.not_ready_addresses)
        subsets

  pub both : (p q : Bool) → (p && q) ≡ true → (p ≡ true) × (q ≡ true)
  both true true h = (refl, refl)
  both true false h = cc
  both false q h = cc

  is_target-eq :
      (pod : PodInfo)
      → (is_target pod_name namespace pod ≡ true)
        ↔ ((pod.name ≡ pod_name) × (pod.namespace ≡ namespace))
  is_target-eq pod = (
    (λ h.
        let (named, placed) = both _ _ h in
        (
          ite_true (Str-discrete pod.name pod_name) named,
          ite_true (Str-discrete pod.namespace namespace) placed,
        )),
    (λ (named, placed).
        rw
          (
            if_pos (Str-discrete pod.name pod_name) named true false,
            if_pos (Str-discrete pod.namespace namespace) placed true false,
          )
          refl),
  )

  is_pod-eq : (kind : Option Str) → (is_pod kind ≡ true) ↔ (kind ≡ some (codes "Pod"))
  is_pod-eq none = ((λ h. cc), (λ h. cc))
  is_pod-eq (some k) = (
    (λ h. ap some (ite_true (Str-discrete k (codes "Pod")) h)),
    (λ h. if_pos (Str-discrete k (codes "Pod")) (value h) true false),
  )
    where
      value : some k ≡ some (codes "Pod") → k ≡ codes "Pod"
      value h = cc

  pods_of-IsPodAddress :
      (ready : Bool) (addresses : List PodAddress)
      → (any (is_target pod_name namespace) (pods_of ready addresses) ≡ true)
        ↔ Some IsPodAddress addresses
  unfolding pods_of
  pods_of-IsPodAddress ready [] = ((λ h. absurd (false≢true h)), (λ h. absurd h))
  pods_of-IsPodAddress ready (a ∷ addresses) =
      let (to, from) = pods_of-IsPodAddress ready addresses in
      let pod : PodInfo = record {
        name = a.target_name;
        namespace = a.target_namespace;
        ip = a.ip;
        node = a.node_name;
        ready = ready;
      } in
      elim (Bool-cases (is_pod a.target_kind)) [
        | inl a_pod ↦ (
          (λ h. elim (or_cases (is_target pod_name namespace pod) _ (rw a_pod at h)) [
            | inl here ↦
                let (named, placed) = (is_target-eq pod).0 here in
                inl ((is_pod-eq a.target_kind).0 a_pod, named, placed)
            | inr behind ↦ inr (to behind)
          ]),
          (λ h. rw a_pod (elim h [
            | inl (_, named, placed) ↦
                or_left (is_target pod_name namespace pod) _ ((is_target-eq pod).1 (named, placed))
            | inr behind ↦ or_right (is_target pod_name namespace pod) _ (from behind)
          ])),
        )
        | inr no_pod ↦ (
          (λ h. inr (to (rw no_pod at h))),
          (λ h. rw no_pod (elim h [
            | inl (kind, _, _) ↦ absurd (false≢true (sym no_pod ∙ (is_pod-eq a.target_kind).1 kind))
            | inr behind ↦ from behind
          ])),
        )
      ]

  pub extract_pod_infos-HasPod :
      (subsets : List PodSubset)
      → (any (is_target pod_name namespace) (extract_pod_infos subsets) ≡ true) ↔ HasPod subsets
  unfolding extract_pod_infos
  extract_pod_infos-HasPod [] = ((λ h. absurd (false≢true h)), (λ h. absurd h))
  extract_pod_infos-HasPod (s ∷ subsets) =
      let (to, from) = extract_pod_infos-HasPod subsets in
      let target = is_target pod_name namespace in
      let (ready_to, ready_from) = pods_of-IsPodAddress true s.addresses in
      let (other_to, other_from) = pods_of-IsPodAddress false s.not_ready_addresses in
      let parts =
        any-append target (pods_of true s.addresses ++ pods_of false s.not_ready_addresses)
          (extract_pod_infos subsets)
        ∙ ap (λ b. if b then true else any target (extract_pod_infos subsets))
            (any-append target (pods_of true s.addresses) (pods_of false s.not_ready_addresses)) in
      (
        (λ h. elim (or_cases _ _ (sym parts ∙ h)) [
          | inl here ↦ inl (elim (or_cases _ _ here) [
            | inl at_ready ↦ inl (ready_to at_ready)
            | inr at_other ↦ inr (other_to at_other)
          ])
          | inr behind ↦ inr (to behind)
        ]),
        (λ h. parts ∙ elim h [
          | inl (inl at_ready) ↦ or_left _ _ (or_left _ _ (ready_from at_ready))
          | inl (inr at_other) ↦
              or_left _ _ (or_right (any target (pods_of true s.addresses)) _ (other_from at_other))
          | inr behind ↦
              or_right
                (if any target (pods_of true s.addresses)
                  then true
                  else any target (pods_of false s.not_ready_addresses))
                _ (from behind)
        ]),
      )
