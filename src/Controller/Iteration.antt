-- ===== src/Controller/Iteration.antt =====
-- What an iteration of `mux_daemon` of `src/controller.py` gives the mux Service.
use svc_lb_mux.Prelude.{
  ◌≡◌, refl, sym, subst, ◌∙◌, Bool, true, false, not, List, [], ◌∷◌, ◌++◌, ite, Bool-cases, inl,
  inr, Str, filter, Result, ok,
}
use svc_lb_mux.Prelude.Dict.{member}
use svc_lb_mux.Prelude.Sort.{sort}
use svc_lb_mux.Model.{Channel, MuxPort, MuxPort-discrete, channel_leb}
use svc_lb_mux.Model.{Mux}
use svc_lb_mux.MuxState.Defs.{StoredDocument}
use svc_lb_mux.Reconcile.Conflicts.{key_of}
use svc_lb_mux.Reconcile.Limits.{effective_mux_max_ports, gke_max_ports_warning}
use svc_lb_mux.Reconcile.Endpoints.{placeholder, is_placeholder, build_mux_ports}
use svc_lb_mux.Controller.Pass.{Cluster, Outcome, limit_events, start, iterate}
use svc_lb_mux.Controller.Steps.{iterate_run}
use svc_lb_mux.Controller.Exclusive.{IsDigest, reconcile_channels-IsExclusive}

member-filter :
    (p : MuxPort → Bool) (x : MuxPort) (ports : List MuxPort)
    → member MuxPort-discrete x (filter p ports) ≡ true
    → member MuxPort-discrete x ports ≡ true
unfolding member
member-filter p x [] h = cc
member-filter p x (q ∷ ports) h = elim (Bool-cases (p q)) [
  | inl kept ↦ at_head (MuxPort-discrete q x) (member-filter p x ports) (rw kept at h)
  | inr dropped ↦ behind (MuxPort-discrete q x) (member-filter p x ports (rw dropped at h))
]
  where
    behind :
        (o : Dec (q ≡ x))
        → member MuxPort-discrete x ports ≡ true
        → ite o true (member MuxPort-discrete x ports) ≡ true
    behind (yes e) m = refl
    behind (no n) m = m

    at_head :
        (o : Dec (q ≡ x))
        → (member MuxPort-discrete x (filter p ports) ≡ true
            → member MuxPort-discrete x ports ≡ true)
        → ite o true (member MuxPort-discrete x (filter p ports)) ≡ true
        → ite o true (member MuxPort-discrete x ports) ≡ true
    at_head (yes e) keep m = refl
    at_head (no n) keep m = keep m

member-single : (x y : MuxPort) → member MuxPort-discrete x (y ∷ []) ≡ true → y ≡ x
unfolding member
member-single x y h = same (MuxPort-discrete y x) h
  where
    same : (o : Dec (y ≡ x)) → ite o true false ≡ true → y ≡ x
    same (yes e) m = e
    same (no n) m = cc

-- Ports that differ have different numbers or protocols.
abbrev pub IsExclusive : List MuxPort → Type 0
IsExclusive ports =
    (x y : MuxPort)
    → member MuxPort-discrete x ports ≡ true
    → member MuxPort-discrete y ports ≡ true
    → key_of x ≡ key_of y
    → x ≡ y

build_mux_ports-IsExclusive :
    (ports : List MuxPort) → IsExclusive ports → IsExclusive (build_mux_ports ports)
unfolding build_mux_ports
build_mux_ports-IsExclusive [] h x y mx my same =
    sym (member-single x placeholder mx) ∙ member-single y placeholder my
build_mux_ports-IsExclusive (p ∷ ports) h x y mx my same =
    h x y (member-filter (λ q. not (is_placeholder q)) x (p ∷ ports) mx)
      (member-filter (λ q. not (is_placeholder q)) y (p ∷ ports) my) same

-- An iteration never gives the mux Service two different ports with the same number and protocol,
-- whatever the channels, the annotations of the mux, its old ports and the stored state are, if a
-- digest has at least seven characters.
pub iterate-IsExclusive :
    (hex : Str → Str) (cluster : Cluster) (mux : Mux) (old_ports : List MuxPort)
    (channels : List Channel) (exists : Bool) (stored : Result StoredDocument) (o : Outcome)
    → IsDigest hex
    → iterate hex cluster mux old_ports channels exists stored ≡ ok o
    → IsExclusive o.mux_ports
iterate-IsExclusive hex cluster mux old_ports channels exists stored o digest h =
    let (recovered, built, final, _, _, run, passed, shown) =
      iterate_run hex cluster mux old_ports channels exists stored o h in
    let limit = limit_events (gke_max_ports_warning mux) (effective_mux_max_ports mux) in
    let begin = start hex cluster recovered built.0 (limit.1 ++ built.2) in
    subst IsExclusive (sym shown) (
      build_mux_ports-IsExclusive final.ports (
        reconcile_channels-IsExclusive hex digest cluster limit.0 (sort channel_leb channels) begin
          final refl run))
