-- ===== src/Tests/Iteration.antt =====
-- Tests of an iteration.
use svc_lb_mux.Controller.Iteration.{IsExclusive, iterate-IsExclusive}
use svc_lb_mux.Prelude.{
  ◌≤◌, ◌≡◌, refl, true, false, none, some, [], ◌∷◌, codes, after_prefix, map, length, pos, Result,
  ok, err,
}
use svc_lb_mux.Model.{annotation_key, Mux}
use svc_lb_mux.Reconcile.Limits.{is_gke_load_balancer_service}
use svc_lb_mux.PortAllocations.Store.{empty_document}
use svc_lb_mux.Controller.Pass.{Outcome, iterate}
use svc_lb_mux.Controller.Limit.{iterate-gke_limit}
use svc_lb_mux.Tests.Fixtures.{quiet, hex, hex-IsDigest, web, api, first_pass, is_ok}

abbrev gke_mux : Mux
gke_mux = record {
  namespace = codes "n";
  name = codes "m";
  annotations = (annotation_key (codes "port-range"), codes "8000-8001") ∷ [];
  load_balancer_class = some (codes "networking.gke.io/l4-regional-external");
}

abbrev no_outcome : Outcome
no_outcome = record { pass = first_pass; mux_ports = []; saved = none }

abbrev or_no_outcome : Result Outcome → Outcome
or_no_outcome (err e) = no_outcome
or_no_outcome (ok o) = o

abbrev outcome : Outcome
outcome = or_no_outcome (iterate hex quiet gke_mux [] (web ∷ api ∷ []) false (ok empty_document))

is_gke : is_gke_load_balancer_service gke_mux ≡ true
unfolding is_gke_load_balancer_service after_prefix svc_lb_mux.Reconcile.Limits.gke_class_prefix
is_gke = refl

outcome_of_ok : (r : Result Outcome) → is_ok r ≡ true → r ≡ ok (or_no_outcome r)
outcome_of_ok (err e) h = cc
outcome_of_ok (ok o) h = refl

iteration :
    (is_ok (iterate hex quiet gke_mux [] (web ∷ api ∷ []) false (ok empty_document)) ≡ true)
    × (map (λ q. q.port) outcome.mux_ports ≡ pos 8000 ∷ pos 8001 ∷ pos 5353 ∷ [])
unfolding svc_lb_mux.Prelude.Dict.union svc_lb_mux.Prelude.Dict.difference
    svc_lb_mux.Prelude.Dict.remove_all svc_lb_mux.Prelude.Dict.setdefault
    svc_lb_mux.Prelude.Dict.update svc_lb_mux.Prelude.Str-discrete svc_lb_mux.Prelude.strip
    svc_lb_mux.Prelude.lower svc_lb_mux.Prelude.split svc_lb_mux.Prelude.partition
    svc_lb_mux.Prelude.join svc_lb_mux.Prelude.str_leb svc_lb_mux.Prelude.int_of_text
    svc_lb_mux.Prelude.show_int svc_lb_mux.Prelude.Sort.sort svc_lb_mux.Model.MuxPort-discrete
    svc_lb_mux.Model.PortKey-discrete svc_lb_mux.Model.key svc_lb_mux.Model.annotation_ports
    svc_lb_mux.Model.annotation_external_ports svc_lb_mux.Model.annotation_max_ports
    svc_lb_mux.PortAllocations.Ranges.parse_port_ranges svc_lb_mux.MuxState.Defs.Claim-discrete
    svc_lb_mux.MuxState.Defs.port_owners svc_lb_mux.MuxState.Defs.external_port_modes
    svc_lb_mux.MuxState.Defs.next_available_port svc_lb_mux.MuxState.Defs.keep_port
    svc_lb_mux.MuxState.Defs.allocate svc_lb_mux.MuxState.Lifecycle.init
    svc_lb_mux.MuxState.Lifecycle.record_channel_claims
    svc_lb_mux.Annotations.Mappings.format_channel_port_annotation
    svc_lb_mux.Annotations.Mappings.parse_port_mappings svc_lb_mux.Reconcile.ExternalPorts.port_hash
    svc_lb_mux.Reconcile.ExternalPorts.parse_external_ports_annotation
    svc_lb_mux.Reconcile.ExternalPorts.validate_declared_port_names
    svc_lb_mux.Reconcile.ExternalPorts.resolve_ports
    svc_lb_mux.Reconcile.ExternalPorts.resolve_channel_ports
    svc_lb_mux.Reconcile.ExternalPorts.collect_static_port_claims
    svc_lb_mux.Reconcile.Limits.gke_class_prefix svc_lb_mux.Reconcile.Limits.requested_max_ports
    svc_lb_mux.Reconcile.Limits.is_gke_load_balancer_service
    svc_lb_mux.Reconcile.Limits.effective_mux_max_ports
    svc_lb_mux.Reconcile.Limits.gke_max_ports_warning
    svc_lb_mux.Reconcile.Limits.would_exceed_mux_port_limit
    svc_lb_mux.Reconcile.Owners.collect_existing_port_owners
    svc_lb_mux.Reconcile.Conflicts.find_mux_port_conflicts
    svc_lb_mux.Reconcile.Endpoints.build_mux_ports svc_lb_mux.Controller.Pass.reconcile_channels
    svc_lb_mux.Controller.Pass.build_mux_state svc_lb_mux.Controller.Pass.iterate
    svc_lb_mux.MuxState.Lifecycle.read_document
    svc_lb_mux.Reconcile.Endpoints.collect_channel_endpoints
iteration = (refl, refl)

iterate-gke_limit_example : length outcome.mux_ports ≤ 100
iterate-gke_limit_example =
    iterate-gke_limit hex quiet gke_mux [] (web ∷ api ∷ []) false (ok empty_document) outcome is_gke
      (outcome_of_ok (iterate hex quiet gke_mux [] (web ∷ api ∷ []) false (ok empty_document))
        iteration.0)

iterate-IsExclusive_example : IsExclusive outcome.mux_ports
iterate-IsExclusive_example =
    iterate-IsExclusive hex quiet gke_mux [] (web ∷ api ∷ []) false (ok empty_document) outcome
      hex-IsDigest
      (outcome_of_ok (iterate hex quiet gke_mux [] (web ∷ api ∷ []) false (ok empty_document))
        iteration.0)
