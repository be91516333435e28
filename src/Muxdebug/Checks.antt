-- ===== src/Muxdebug/Checks.antt =====
-- What the checks of `diagnose_route_failure` of `tools/muxdebug/debugger.py` say of a pod: its
-- containers, its ports, and the commands that look for a listening port.
use svc_lb_mux.Prelude.{
  ◌≡◌, ◌≢◌, refl, sym, ap, ◌∙◌, Bool, true, false, ◌||◌, List, [], ◌∷◌, ◌++◌, if_pos, if_neg,
  Bool-cases, inl, inr, ◌↔◌, All, Some, Some-map, any, any-Some, Some-any, Str, ℤ, ℤ-discrete,
  false≢true,
}
use svc_lb_mux.Model.{Value, null, int, text}
use svc_lb_mux.Muxdebug.Client.{Completed}
use svc_lb_mux.Muxdebug.Routes.{PodInfo}
use svc_lb_mux.Muxdebug.Diagnose.{
  Attempt, raised, returned, ContainerStatus, unready_texts, is_port, is_declared, is_denied,
  is_listening, check_port,
}
use svc_lb_mux.Muxdebug.CommandLaws.{Denied, Listens, is_denied-Denied, is_listening-Listens}

-- All containers are ready exactly if none is listed as unready.
pub unready_texts-ready :
    (containers : List ContainerStatus)
    → (unready_texts containers ≡ []) ↔ All (λ (c : ContainerStatus). c.ready ≡ true) containers
unfolding unready_texts
unready_texts-ready [] = ((λ _. tt), (λ _. refl))
unready_texts-ready (c ∷ containers) =
    let (to, from) = unready_texts-ready containers in
    elim (Bool-cases c.ready) [
      | inl ready ↦ ((λ h. (ready, to (rw ready at h))), (λ (_, h). rw ready (from h)))
      | inr unready ↦ (
        (λ h. absurd (cons_nil (rw unready at h))),
        (λ (ready, _). absurd (false≢true (sym unready ∙ ready))),
      )
    ]
  where
    cons_nil : {x : Str} {xs : List Str} → x ∷ xs ≢ []
    cons_nil h = cc

-- A container declares the number.
abbrev pub Declares : Value → List (List ℤ) → Type 0
Declares channel_port containers = Some (Some (λ z. channel_port ≡ int z)) containers

is_port-eq : (v : Value) (z : ℤ) → (is_port v z ≡ true) ↔ (v ≡ int z)
is_port-eq null z = ((λ h. cc), (λ h. cc))
is_port-eq (text s) z = ((λ h. cc), (λ h. cc))
is_port-eq (int n) z = elim (ℤ-discrete z n) [
  | yes same ↦ ((λ _. ap int (sym same)), (λ _. if_pos (ℤ-discrete z n) same true false))
  | no other ↦ (
    (λ h. absurd (false≢true (sym (if_neg (ℤ-discrete z n) other true false) ∙ h))),
    (λ h. absurd (other (sym (number h)))),
  )
]
  where
    number : int n ≡ int z → n ≡ z
    number h = cc

pub is_declared-Declares :
    (v : Value) (containers : List (List ℤ))
    → (is_declared v containers ≡ true) ↔ Declares v containers
is_declared-Declares v containers = (
  (λ h.
      Some-map containers
        (λ ports found.
          Some-map ports (λ z at. (is_port-eq v z).0 at) (any-Some (is_port v) ports found))
        (any-Some (any (is_port v)) containers h)),
  (λ h. Some-any (any (is_port v)) containers (
      Some-map containers
        (λ ports found.
          Some-any (is_port v) ports (Some-map ports (λ z at. (is_port-eq v z).1 at) found))
        h)),
)

module _ (exec_pod : Str → Str → List Str → Attempt Completed) (pod_info : PodInfo) where
  -- The command ran, and neither saw the port nor was denied.
  abbrev pub SeesNothing : List Str → Type 0
  SeesNothing cmd =
      (r : Completed) × (exec_pod pod_info.name pod_info.namespace cmd ≡ returned r)
      × (Listens r → ⊥)
      × (Denied r → ⊥)

  -- A command saw the port, and those before it saw nothing and were not denied.
  abbrev pub IsSeen : List (List Str) → Type 0
  IsSeen cmds =
      (before : List (List Str)) × (cmd : List Str) × (after : List (List Str)) × (r : Completed)
      × (cmds ≡ before ++ cmd ∷ after)
      × All SeesNothing before
      × (exec_pod pod_info.name pod_info.namespace cmd ≡ returned r)
      × Listens r

  not_true : {b : Bool} → b ≡ false → b ≢ true
  not_true h at = false≢true (sym h ∙ at)

  -- A denial is not forgotten.
  check_port-denied :
      (cmds : List (List Str)) → check_port exec_pod pod_info cmds true ≢ returned (true, false)
  unfolding check_port
  check_port-denied [] h = cc
  check_port-denied (cmd ∷ cmds) h =
      by_answer (exec_pod pod_info.name pod_info.namespace cmd) (check_port-denied cmds) h
    where
      by_answer :
          (a : Attempt Completed)
          → check_port exec_pod pod_info cmds true ≢ returned (true, false)
          → elim a [
            | raised e ↦ raised e
            | returned result ↦ elim (is_listening result) [
              | true ↦ returned (true, true)
              | false ↦ check_port exec_pod pod_info cmds true
            ]
          ]
            ≢ returned (true, false)
      by_answer (raised e) rest h = cc
      by_answer (returned r) rest h = by_listening (is_listening r) h
        where
          by_listening :
              (b : Bool)
              → elim b [
                | true ↦ returned (true, true)
                | false ↦ check_port exec_pod pod_info cmds true
              ]
                ≢ returned (true, false)
          by_listening true h = cc
          by_listening false h = rest h

  pub check_port-IsSeen :
      (cmds : List (List Str))
      → check_port exec_pod pod_info cmds false ≡ returned (true, false)
      → IsSeen cmds
  unfolding check_port
  check_port-IsSeen [] h = cc
  check_port-IsSeen (cmd ∷ cmds) h =
      by_answer (exec_pod pod_info.name pod_info.namespace cmd) refl (check_port-IsSeen cmds) h
    where
      by_tests :
          (r : Completed) (b d : Bool)
          → exec_pod pod_info.name pod_info.namespace cmd ≡ returned r
          → is_listening r ≡ b
          → is_denied r ≡ d
          → (check_port exec_pod pod_info cmds false ≡ returned (true, false) → IsSeen cmds)
          → elim b [
            | true ↦ returned (true, false)
            | false ↦ check_port exec_pod pod_info cmds (false || d)
          ]
            ≡ returned (true, false)
          → IsSeen (cmd ∷ cmds)
      by_tests r true d ran listens denied rest h =
          ([], cmd, cmds, r, refl, tt, ran, (is_listening-Listens r).0 listens)
      by_tests r false true ran listens denied rest h = absurd (check_port-denied cmds h)
      by_tests r false false ran listens denied rest h =
          let (before, c, after, seen, parts, nothing, found, at) = rest h in
          (
            cmd ∷ before,
            c,
            after,
            seen,
            ap (λ cs. cmd ∷ cs) parts,
            (
              (
                r,
                ran,
                λ l. not_true listens ((is_listening-Listens r).1 l),
                λ no. not_true denied ((is_denied-Denied r).1 no),
              ),
              nothing,
            ),
            found,
            at,
          )

      by_answer :
          (a : Attempt Completed)
          → exec_pod pod_info.name pod_info.namespace cmd ≡ a
          → (check_port exec_pod pod_info cmds false ≡ returned (true, false) → IsSeen cmds)
          → elim a [
            | raised e ↦ raised e
            | returned result ↦ elim (is_listening result) [
              | true ↦ returned (true, false)
              | false ↦ check_port exec_pod pod_info cmds (false || is_denied result)
            ]
          ]
            ≡ returned (true, false)
          → IsSeen (cmd ∷ cmds)
      by_answer (raised e) ran rest h = cc
      by_answer (returned r) ran rest h =
          by_tests r (is_listening r) (is_denied r) ran refl refl rest h

  false_of : (b : Bool) → b ≢ true → b ≡ false
  false_of true h = absurd (h refl)
  false_of false h = refl

  pub IsSeen-check_port :
      (before : List (List Str)) (cmd : List Str) (after : List (List Str)) (r : Completed)
      → All SeesNothing before
      → exec_pod pod_info.name pod_info.namespace cmd ≡ returned r
      → Listens r
      → check_port exec_pod pod_info (before ++ cmd ∷ after) false ≡ returned (true, false)
  unfolding check_port
  IsSeen-check_port [] cmd after r nothing ran listens =
      rw (ran, (is_listening-Listens r).1 listens) refl
  IsSeen-check_port (c ∷ before) cmd after r ((q, first, unseen, allowed), nothing) ran listens =
      rw
        (
          first,
          false_of (is_listening q) (λ h. unseen ((is_listening-Listens q).0 h)),
          false_of (is_denied q) (λ h. allowed ((is_denied-Denied q).0 h)),
        )
        (IsSeen-check_port before cmd after r nothing ran listens)
