-- ===== src/Tests/Pass.antt =====
-- Tests of conflicts, and the pass over the channels.
use svc_lb_mux.Prelude.{
  ℕ, ◌≤◌, ◌≡◌, refl, true, Option, none, some, List, [], ◌∷◌, arith, Str, codes, map, length, pos,
  Result, ok, err,
}
use svc_lb_mux.Prelude.Dict.{member, get}
use svc_lb_mux.Prelude.Sort.{sort}
use svc_lb_mux.Model.{MuxPort, MuxPort-discrete, tcp}
use svc_lb_mux.Reconcile.Conflicts.{find_mux_port_conflicts}
use svc_lb_mux.Reconcile.ConflictLaws.{Granted, find_mux_port_conflicts-Granted}
use svc_lb_mux.Controller.Pass.{Pass, reconcile_channels}
use svc_lb_mux.Controller.Limit.{reconcile_channels-limit}
use svc_lb_mux.Controller.Exclusive.{reconcile_channels-IsExclusive}
use svc_lb_mux.Tests.Fixtures.{quiet, hex, hex-IsDigest, web, api, first_pass, is_ok}

abbrev web_ports : List MuxPort
web_ports = record { name = codes "n/w/a00"; port = pos 8000; protocol = tcp } ∷ []

free_ports : (find_mux_port_conflicts (codes "n") (codes "w") [] web_ports).1 ≡ []
unfolding find_mux_port_conflicts sort get
free_ports = refl

find_mux_port_conflicts-Granted_example :
    Granted
      (codes "n")
      (codes "w")
      []
      web_ports
      (find_mux_port_conflicts (codes "n") (codes "w") [] web_ports).0
find_mux_port_conflicts-Granted_example =
    find_mux_port_conflicts-Granted (codes "n") (codes "w") [] web_ports free_ports

abbrev or_first : Result Pass → Pass
or_first (err e) = first_pass
or_first (ok p) = p

-- the pass over two channels
abbrev last_pass : Option ℕ → Pass
last_pass max_ports = or_first (reconcile_channels hex quiet max_ports (api ∷ web ∷ []) first_pass)

abbrev served : Str → ℕ → Str → MuxPort
served name port protocol = record { name = name; port = pos port; protocol = protocol }

abbrev served_first : MuxPort
served_first = served (codes "n/v/a00") 8000 tcp

pass_of_ok : (r : Result Pass) → is_ok r ≡ true → r ≡ ok (or_first r)
pass_of_ok (err e) h = cc
pass_of_ok (ok p) h = refl

runs :
    (is_ok (reconcile_channels hex quiet none (api ∷ web ∷ []) first_pass) ≡ true)
    × (is_ok (reconcile_channels hex quiet (some 2) (api ∷ web ∷ []) first_pass) ≡ true)
    × (member MuxPort-discrete served_first (last_pass none).ports ≡ true)
    × (map (λ q. q.port) (last_pass none).ports ≡ pos 8000 ∷ pos 8001 ∷ pos 5353 ∷ [])
    × (map (λ q. q.port) (last_pass (some 2)).ports ≡ pos 8000 ∷ [])
unfolding svc_lb_mux.Prelude.Dict.union svc_lb_mux.Prelude.Dict.difference
    svc_lb_mux.Prelude.Dict.setdefault svc_lb_mux.Prelude.Dict.update
    svc_lb_mux.Prelude.Str-discrete svc_lb_mux.Prelude.strip svc_lb_mux.Prelude.lower
    svc_lb_mux.Prelude.split svc_lb_mux.Prelude.partition svc_lb_mux.Prelude.join
    svc_lb_mux.Prelude.str_leb svc_lb_mux.Prelude.int_of_text svc_lb_mux.Prelude.show_int
    svc_lb_mux.Prelude.Sort.sort svc_lb_mux.Model.MuxPort-discrete svc_lb_mux.Model.PortKey-discrete
    svc_lb_mux.Model.key svc_lb_mux.Model.annotation_external_ports
    svc_lb_mux.MuxState.Defs.Claim-discrete svc_lb_mux.MuxState.Defs.external_port_modes
    svc_lb_mux.MuxState.Defs.next_available_port svc_lb_mux.MuxState.Defs.keep_port
    svc_lb_mux.MuxState.Defs.allocate svc_lb_mux.MuxState.Lifecycle.record_channel_claims
    svc_lb_mux.Annotations.Mappings.format_channel_port_annotation
    svc_lb_mux.Annotations.Mappings.parse_port_mappings svc_lb_mux.Reconcile.ExternalPorts.port_hash
    svc_lb_mux.Reconcile.ExternalPorts.parse_external_ports_annotation
    svc_lb_mux.Reconcile.ExternalPorts.validate_declared_port_names
    svc_lb_mux.Reconcile.ExternalPorts.resolve_ports
    svc_lb_mux.Reconcile.ExternalPorts.channel_port_claims
    svc_lb_mux.Reconcile.ExternalPorts.resolve_channel_ports
    svc_lb_mux.Reconcile.Limits.would_exceed_mux_port_limit
    svc_lb_mux.Reconcile.Conflicts.find_mux_port_conflicts
    svc_lb_mux.Controller.Pass.reconcile_channels
    svc_lb_mux.Reconcile.Endpoints.collect_channel_endpoints
runs = (refl, refl, refl, refl, refl)

reconcile_channels-IsExclusive_example : served_first ≡ served_first
reconcile_channels-IsExclusive_example =
    reconcile_channels-IsExclusive hex hex-IsDigest quiet none (api ∷ web ∷ []) first_pass
      (last_pass none) refl
      (pass_of_ok (reconcile_channels hex quiet none (api ∷ web ∷ []) first_pass) runs.0)
      served_first served_first runs.2 runs.2 refl

reconcile_channels-limit_example : length (last_pass (some 2)).ports ≤ 2
reconcile_channels-limit_example =
    reconcile_channels-limit hex quiet 2 (api ∷ web ∷ []) first_pass (last_pass (some 2))
      (pass_of_ok (reconcile_channels hex quiet (some 2) (api ∷ web ∷ []) first_pass) runs.1)
      (omega arith)
