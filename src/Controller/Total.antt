-- ===== src/Controller/Total.antt =====
-- When an iteration of `mux_daemon` of `src/controller.py` returns.
use svc_lb_mux.Prelude.{
  ℕ, ◌≡◌, refl, Bool, true, false, Option, some, List, [], ◌∷◌, ◌++◌, if◌then◌else◌, Str, All,
  Result, ok, err,
}
use svc_lb_mux.Prelude.Dict.{Dict}
use svc_lb_mux.Prelude.Sort.{sort, All-sort}
use svc_lb_mux.Model.{Channel, Mux, MuxPort, PortKey, channel_leb}
use svc_lb_mux.Annotations.Mappings.{parse_port_mappings}
use svc_lb_mux.MuxState.Defs.{MuxState, StoredDocument, allocate}
use svc_lb_mux.MuxState.Lifecycle.{record_channel_claims}
use svc_lb_mux.Reconcile.ExternalPorts.{resolve_channel_ports, collect_static_port_claims}
use svc_lb_mux.Reconcile.Owners.{owners_from_channel_port_annotations, collect_existing_port_owners}
use svc_lb_mux.Reconcile.Conflicts.{Conflict, find_mux_port_conflicts}
use svc_lb_mux.Reconcile.Limits.{
  would_exceed_mux_port_limit, effective_mux_max_ports, gke_max_ports_warning,
}
use svc_lb_mux.Controller.Pass.{
  Cluster, Pass, after_conflicts, after_resolve, reconcile_channel, reconcile_channels,
  build_mux_state, iterate, emit, mux_port_limit_exceeded, limit_events, start,
}
use svc_lb_mux.Reconcile.Endpoints.{collect_channel_endpoints}
use svc_lb_mux.PortAllocations.Ranges.{parse_port_ranges}
use svc_lb_mux.Prelude.{codes}
use svc_lb_mux.Model.{annotation_of, annotation_key}
use svc_lb_mux.MuxState.Lifecycle.{read_document}
use svc_lb_mux.Controller.Readable.{
  HasNamedEndpoints, IsReadableState, read_document-Returns, collect-Returns,
}
use svc_lb_mux.Controller.Pass.{state_of, ranges_or_none}
use svc_lb_mux.Controller.Returns.{
  IsServicePort, IsReadableChannel, Returns, bind-Returns, annotations-Returns,
  collect_static-Returns, resolved-IsReadable, record_claims-Returns,
}

-- The API server answers the patches of the channels.
abbrev pub IsAnswering : Cluster → Type 0
IsAnswering cluster =
    (c : Channel) (annotation : Str) → Returns (cluster.patch_channel c annotation)

module _ (hex : Str → Str) (cluster : Cluster) (patches : IsAnswering cluster)
    (max_ports : Option ℕ) where
  conflicts-Returns :
      (channel : Channel) (ports : List MuxPort) (annotation : Str) (s : MuxState) (p : Pass)
      (r : Dict PortKey Str × List Conflict)
      → Returns (parse_port_mappings annotation)
      → HasNamedEndpoints cluster.endpoints channel
      → Returns (after_conflicts hex cluster max_ports channel ports annotation s p r)
  conflicts-Returns channel ports annotation s p (owners, c ∷ cs) h named = (_, refl)
  conflicts-Returns channel ports annotation s p (owners, []) h named =
      bind-Returns (record_channel_claims channel annotation s).0 _
        (record_claims-Returns channel annotation s h)
        (λ _ _.
          bind-Returns (cluster.patch_channel channel annotation) _ (patches channel annotation)
            (λ _ _.
              bind-Returns (collect_channel_endpoints hex channel cluster.endpoints) _
                (collect-Returns hex channel cluster.endpoints named) (λ _ _. (_, refl))))

  resolve-Returns :
      (channel : Channel) (p : Pass) (r : Result (List MuxPort × Str) × MuxState)
      → All IsServicePort channel.ports
      → HasNamedEndpoints cluster.endpoints channel
      → resolve_channel_ports hex (some (allocate hex)) channel p.mux_state ≡ r
      → Returns (after_resolve hex cluster max_ports channel p r)
  resolve-Returns channel p (err e, s) good named run = (_, refl)
  resolve-Returns channel p (ok (ports, annotation), s) good named run =
      conflicts-Returns channel ports annotation s p
        (find_mux_port_conflicts channel.namespace channel.name p.owners ports)
        (resolved-IsReadable hex channel p.mux_state ports annotation s good run) named

  channel-Returns :
      (channel : Channel) (p : Pass)
      → All IsServicePort channel.ports
      → HasNamedEndpoints cluster.endpoints channel
      → Returns (reconcile_channel hex cluster max_ports channel p)
  unfolding reconcile_channel
  channel-Returns channel p good named =
      by_limit (would_exceed_mux_port_limit p.ports channel max_ports)
    where
      by_limit :
          (b : Bool)
          → Returns (
              if b
              then ok (emit (mux_port_limit_exceeded channel) p)
              else after_resolve hex cluster max_ports channel p
                  (resolve_channel_ports hex (some (allocate hex)) channel p.mux_state))
      by_limit true = (_, refl)
      by_limit false =
          resolve-Returns channel p
            (resolve_channel_ports hex (some (allocate hex)) channel p.mux_state) good named refl

  channels-Returns :
      (channels : List Channel) (p : Pass)
      → All IsReadableChannel channels
      → All (HasNamedEndpoints cluster.endpoints) channels
      → Returns (reconcile_channels hex cluster max_ports channels p)
  unfolding reconcile_channels
  channels-Returns [] p h named = (p, refl)
  channels-Returns (c ∷ channels) p ((good, _), h) (here, named) =
      bind-Returns (reconcile_channel hex cluster max_ports c p) _ (channel-Returns c p good here)
        (λ p' _. channels-Returns channels p' h named)

owners-Returns :
    (hex : Str → Str) (channels : List Channel) (old_ports : List MuxPort)
    → All IsReadableChannel channels
    → Returns (collect_existing_port_owners hex channels old_ports)
unfolding collect_existing_port_owners
owners-Returns hex channels old_ports h =
    bind-Returns (owners_from_channel_port_annotations hex channels []) _
      (annotations-Returns hex channels [] h) (λ _ _. (_, refl))

build-Returns :
    (mux : Mux) (channels : List Channel) (stored : Result StoredDocument)
    (owners : Dict PortKey Str)
    → All IsReadableChannel channels
    → IsReadableState stored
    → Returns (build_mux_state mux channels stored owners)
unfolding build_mux_state
build-Returns mux channels stored owners h readable =
    bind-Returns (collect_static_port_claims channels []) _ (collect_static-Returns channels [] h)
      (λ reserved _. by_stored reserved stored readable)
  where
    by_stored :
        (reserved : List PortKey) (r : Result StoredDocument)
        → IsReadableState r
        → Returns (
            state_of
              (mux.namespace, mux.name)
              (ranges_or_none (
                parse_port_ranges
                  (annotation_of mux.annotations (annotation_key (codes "port-range")))))
              channels
              reserved
              owners
              r)
    by_stored reserved (err e) readable = (_, refl)
    by_stored reserved (ok d) readable =
        bind-Returns (read_document d) _ (read_document-Returns d readable) (λ _ _. (_, refl))

-- An iteration, from its limit of ports to the state to save, ends and returns, whatever the
-- annotations of the mux, its ports and the requests of the channels are, if the ports of each channel
-- have Kubernetes names and numbers, the annotation of mux ports that a channel already has can be
-- read, the ports of its cached Endpoints have names, the stored claims that count have their
-- namespace, service and port name, and the API server answers the patches of the channels.
pub iterate-Returns :
    (hex : Str → Str) (cluster : Cluster) (mux : Mux) (old_ports : List MuxPort)
    (channels : List Channel) (exists : Bool) (stored : Result StoredDocument)
    → All IsReadableChannel channels
    → All (HasNamedEndpoints cluster.endpoints) channels
    → IsReadableState stored
    → IsAnswering cluster
    → Returns (iterate hex cluster mux old_ports channels exists stored)
unfolding iterate
iterate-Returns hex cluster mux old_ports channels exists stored h named readable patches =
    let sorted_channels = sort channel_leb channels in
    let good = All-sort channel_leb IsReadableChannel channels h in
    let also = All-sort channel_leb (HasNamedEndpoints cluster.endpoints) channels named in
    let limit = limit_events (gke_max_ports_warning mux) (effective_mux_max_ports mux) in
    bind-Returns (collect_existing_port_owners hex sorted_channels old_ports) _
      (owners-Returns hex sorted_channels old_ports good)
      (λ recovered _.
        bind-Returns (build_mux_state mux sorted_channels stored recovered) _
          (build-Returns mux sorted_channels stored recovered good readable)
          (λ built _.
            bind-Returns
              (reconcile_channels hex cluster limit.0 sorted_channels
                (start hex cluster recovered built.0 (limit.1 ++ built.2)))
              _
              (channels-Returns hex cluster patches limit.0 sorted_channels
                (start hex cluster recovered built.0 (limit.1 ++ built.2)) good also)
              (λ final _. (_, refl))))
