-- ===== src/Reconcile/ConflictLaws.antt =====
-- What `find_mux_port_conflicts` gives a channel, and when it finds a conflict.
use svc_lb_mux.Prelude.{
  All-map, ◌≡◌, ◌≢◌, refl, sym, ap, subst, ◌∙◌, false, some, List, [], ◌∷◌, ◌++◌, Bool-cases, inl,
  inr, All, Str, is_empty,
}
use svc_lb_mux.Prelude.Dict.{Dict, get, put, update}
use mathlib.Core.List.{concat-ne-nil}
use svc_lb_mux.Prelude.Sort.{sort}
use svc_lb_mux.Model.{MuxPort, PortKey, PortKey-discrete}
use svc_lb_mux.Prelude.Sort.{All-sort_inv}
use svc_lb_mux.Prelude.Dict.Laws.{get-put_self, get-put_ne, some_inj, none≢some}
use svc_lb_mux.Prelude.Dict.Unique.{
  HasEntry, UniqueKeys, put-UniqueKeys, get_of_HasEntry, HasEntry-of_get, get-put_cases,
  get-update_agree, get-update_written,
}
use svc_lb_mux.Reconcile.Owners.{owner_of}
use svc_lb_mux.Reconcile.Conflicts.{
  Conflict, owner_or, is_other, key_of, assign_ports, commit, find_mux_port_conflicts, mux_port_leb,
}
use svc_lb_mux.Reconcile.Previous.{Owns, owner_of-ne-nil, previous_recovered, previous_assigned}

module _ (namespace name : Str) (owners : Dict PortKey Str) where
  -- The assignments agree with the owners, and none is empty.
  record IsAssignment (a : Dict PortKey Str) : Type 0 where
    unique : UniqueKeys a
    filled : (x : PortKey) (o : Str) → get PortKey-discrete a x ≡ some o → is_empty o ≡ false
    agrees : (x : PortKey) (o w : Str) → get PortKey-discrete a x ≡ some o → Owns owners x w → w ≡ o

  assign-IsAssignment :
      (p : MuxPort) (a : Dict PortKey Str)
      → IsAssignment a
      → is_other
          (owner_of namespace name p.name)
          (owner_or (get PortKey-discrete owners (key_of p)) (get PortKey-discrete a (key_of p)))
        ≡ false
      → IsAssignment (put PortKey-discrete a (key_of p) (owner_of namespace name p.name))
  assign-IsAssignment p a h free = record {
    unique = put-UniqueKeys PortKey-discrete a (key_of p) (owner_of namespace name p.name) h.unique;
    filled = λ x o there.
        elim (get-put_cases PortKey-discrete a (key_of p) (owner_of namespace name p.name) x o
          there) [
            | inl (_, same) ↦
                subst (λ s. is_empty s ≡ false) same (owner_of-ne-nil namespace name p.name)
            | inr (_, old) ↦ h.filled x o old
          ];
    agrees = λ x o w there owned.
        elim (get-put_cases PortKey-discrete a (key_of p) (owner_of namespace name p.name) x o
          there) [
            | inl (at, same) ↦
                previous_recovered (owner_of namespace name p.name) w
                  (get PortKey-discrete owners (key_of p)) (get PortKey-discrete a (key_of p))
                  (ap (get PortKey-discrete owners) at ∙ owned.0) owned.1 free
                ∙ same
            | inr (_, old) ↦ h.agrees x o w old owned
          ];
  }

  assign_keeps :
      (p : MuxPort) (a : Dict PortKey Str) (x : PortKey) (o : Str)
      → IsAssignment a
      → is_other
          (owner_of namespace name p.name)
          (owner_or (get PortKey-discrete owners (key_of p)) (get PortKey-discrete a (key_of p)))
        ≡ false
      → get PortKey-discrete a x ≡ some o
      → get PortKey-discrete (put PortKey-discrete a (key_of p) (owner_of namespace name p.name)) x
        ≡ some o
  assign_keeps p a x o h free there = elim (PortKey-discrete (key_of p) x) [
    | yes at ↦
        let here : get PortKey-discrete a (key_of p) ≡ some o =
          ap (get PortKey-discrete a) at ∙ there in
        let same : o ≡ owner_of namespace name p.name =
          previous_assigned (owner_of namespace name p.name) o
            (get PortKey-discrete owners (key_of p)) (get PortKey-discrete a (key_of p))
            (λ w e filled. h.agrees (key_of p) o w here (e, filled)) here
            (h.filled (key_of p) o here) free in
        ap
          (get PortKey-discrete
            (put PortKey-discrete a (key_of p) (owner_of namespace name p.name)))
          (sym at)
        ∙ get-put_self PortKey-discrete a (key_of p) (owner_of namespace name p.name)
        ∙ ap some (sym same)
    | no other ↦
        get-put_ne PortKey-discrete a (key_of p) (owner_of namespace name p.name) x other ∙ there
  ]

  -- What a run of the loop without conflicts has assigned.
  record Run (a : Dict PortKey Str) (ps : List MuxPort) (a' : Dict PortKey Str) : Type 0 where
    valid : IsAssignment a'
    kept :
        (x : PortKey) (o : Str)
        → get PortKey-discrete a x ≡ some o
        → get PortKey-discrete a' x ≡ some o
    assigned :
        All (λ p. get PortKey-discrete a' (key_of p) ≡ some (owner_of namespace name p.name)) ps

  assign_ports-conflicts :
      (ps : List MuxPort) (a : Dict PortKey Str) (conflicts : List Conflict)
      → (assign_ports namespace name owners ps a conflicts).1 ≡ []
      → conflicts ≡ []
  unfolding assign_ports
  assign_ports-conflicts [] a conflicts h = h
  assign_ports-conflicts (p ∷ ps) a conflicts h =
      let owner = owner_of namespace name p.name in
      let previous =
        owner_or (get PortKey-discrete owners (key_of p)) (get PortKey-discrete a (key_of p)) in
      elim (Bool-cases (is_other owner previous)) [
        | inl other ↦ absurd (
            concat-ne-nil (p, previous) conflicts
              (assign_ports-conflicts ps a (conflicts ++ (p, previous) ∷ []) (rw other at h)))
        | inr free ↦
            assign_ports-conflicts ps (put PortKey-discrete a (key_of p) owner) conflicts
              (rw free at h)
      ]

  assign_ports-Run :
      (ps : List MuxPort) (a : Dict PortKey Str) (conflicts : List Conflict)
      → IsAssignment a
      → (assign_ports namespace name owners ps a conflicts).1 ≡ []
      → Run a ps (assign_ports namespace name owners ps a conflicts).0
  unfolding assign_ports
  assign_ports-Run [] a conflicts valid h = record {
    valid = valid;
    kept = λ x o e. e;
    assigned = tt;
  }
  assign_ports-Run (p ∷ ps) a conflicts valid h =
      let owner = owner_of namespace name p.name in
      let previous =
        owner_or (get PortKey-discrete owners (key_of p)) (get PortKey-discrete a (key_of p)) in
      elim (Bool-cases (is_other owner previous)) [
        | inl other ↦ absurd (
            concat-ne-nil (p, previous) conflicts
              (assign_ports-conflicts ps a (conflicts ++ (p, previous) ∷ []) (rw other at h)))
        | inr free ↦
            let a' = put PortKey-discrete a (key_of p) owner in
            let run : Run a' ps (assign_ports namespace name owners ps a' conflicts).0 =
              assign_ports-Run ps a' conflicts (assign-IsAssignment p a valid free)
                (rw free at h) in
            rw free (record {
              valid = run.valid;
              kept = λ x o e. run.kept x o (assign_keeps p a x o valid free e);
              assigned = (
                run.kept (key_of p) owner (get-put_self PortKey-discrete a (key_of p) owner),
                run.assigned,
              );
            })
      ]

  empty-IsAssignment : IsAssignment []
  unfolding get
  empty-IsAssignment = record {
    unique = tt;
    filled = λ x o h. absurd (none≢some h);
    agrees = λ x o w h _. absurd (none≢some h);
  }

  commit_free :
      (r : Dict PortKey Str × List Conflict)
      → (commit namespace name owners r).1 ≡ []
      → (r.1 ≡ []) × ((commit namespace name owners r).0 ≡ update PortKey-discrete owners r.0)
  commit_free (a, []) h = (refl, refl)
  commit_free (a, c ∷ cs) h = cc

  commit_refused :
      (r : Dict PortKey Str × List Conflict)
      → (commit namespace name owners r).1 ≢ []
      → (commit namespace name owners r).0 ≡ owners
  commit_refused (a, []) h = absurd (h refl)
  commit_refused (a, c ∷ cs) h = refl

  -- The channel has got the ports: whoever owned a port still does, and each of the channel's ports
  -- belongs to the channel under the port's name.
  pub record Granted (ports : List MuxPort) (owners' : Dict PortKey Str) : Type 0 where
    pub kept : (x : PortKey) (o : Str) → Owns owners x o → Owns owners' x o
    pub granted :
        All
          (λ p. get PortKey-discrete owners' (key_of p) ≡ some (owner_of namespace name p.name))
          ports

  -- If `find_mux_port_conflicts` returns no conflict, then every port that had an owner keeps it, and
  -- every port of the channel belongs to the channel.
  pub find_mux_port_conflicts-Granted :
      (ports : List MuxPort)
      → (find_mux_port_conflicts namespace name owners ports).1 ≡ []
      → Granted ports (find_mux_port_conflicts namespace name owners ports).0
  unfolding find_mux_port_conflicts
  find_mux_port_conflicts-Granted ports h =
      let sorted = sort mux_port_leb ports in
      let r = assign_ports namespace name owners sorted [] [] in
      let (free, written) = commit_free r h in
      let run : Run [] sorted r.0 = assign_ports-Run sorted [] [] empty-IsAssignment free in
      let single : (x : PortKey) (o w : Str)
          → get PortKey-discrete r.0 x ≡ some o
          → HasEntry x w r.0
          → w ≡ o =
        λ x o w there entry.
          some_inj
            (sym (get_of_HasEntry PortKey-discrete r.0 x w run.valid.unique entry) ∙ there) in
      rw written (record {
        kept = λ x o owned. (
          get-update_agree PortKey-discrete owners r.0 x o owned.0 (λ w entry. sym (
              run.valid.agrees x w o
                (get_of_HasEntry PortKey-discrete r.0 x w run.valid.unique entry) owned)),
          owned.1,
        );
        granted =
            All-sort_inv mux_port_leb
              (λ p.
                get PortKey-discrete (update PortKey-discrete owners r.0) (key_of p)
                ≡ some (owner_of namespace name p.name))
              ports
              (All-map sorted
                (λ p there.
                  get-update_written PortKey-discrete owners r.0 (key_of p)
                    (owner_of namespace name p.name)
                    (HasEntry-of_get PortKey-discrete r.0 (key_of p)
                      (owner_of namespace name p.name) there)
                    (λ w entry. single (key_of p) (owner_of namespace name p.name) w there entry))
                run.assigned);
      })

  -- If it returns a conflict, the owners are as before.
  pub find_mux_port_conflicts_refused :
      (ports : List MuxPort)
      → (find_mux_port_conflicts namespace name owners ports).1 ≢ []
      → (find_mux_port_conflicts namespace name owners ports).0 ≡ owners
  unfolding find_mux_port_conflicts
  find_mux_port_conflicts_refused ports h =
      commit_refused (assign_ports namespace name owners (sort mux_port_leb ports) [] []) h
