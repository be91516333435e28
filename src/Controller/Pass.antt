-- ===== src/Controller/Pass.antt =====
-- An iteration of `mux_daemon` of `src/controller.py`, up to the ports of the mux and the state that
-- is saved, and `build_mux_state`.
use svc_lb_mux.Prelude.{
  ℕ, Bool, true, false, ◌&&◌, ◌||◌, not, Option, none, some, List, [], ◌∷◌, ◌++◌, if◌then◌else◌,
  Str, codes, Result, ok, err, Error, ◌>>=◌,
}
use svc_lb_mux.Prelude.Dict.{Dict, union, update}
use svc_lb_mux.Prelude.Sort.{sort}
use svc_lb_mux.Model.{
  Channel, MuxPort, MuxPort-discrete, PortKey, PortKey-discrete, annotation_key, annotation_of,
  channel_leb,
}
use svc_lb_mux.Model.{Mux}
use svc_lb_mux.PortAllocations.Ranges.{Range, parse_port_ranges}
use svc_lb_mux.MuxState.Defs.{MuxState, StateDocument, StoredDocument, port_owners, allocate}
use svc_lb_mux.MuxState.Lifecycle.{init, read_document, record_channel_claims, to_state}
use svc_lb_mux.Reconcile.ExternalPorts.{resolve_channel_ports, collect_static_port_claims}
use svc_lb_mux.Reconcile.Limits.{
  effective_mux_max_ports, gke_max_ports_warning, would_exceed_mux_port_limit, Warning,
}
use svc_lb_mux.Reconcile.Owners.{collect_existing_port_owners}
use svc_lb_mux.Reconcile.Conflicts.{Conflict, find_mux_port_conflicts}
use svc_lb_mux.Reconcile.Endpoints.{
  Subset, EndpointsCache, collect_channel_endpoints, build_mux_ports,
}

-- The events that the pass emits, by their reason.
pub data Event : Type 0 where
  invalid_max_ports : Error → Event
  gke_port_limit_applied : Warning → Event
  invalid_port_range : Error → Event
  store_invalid : Error → Event
  mux_port_limit_exceeded : Channel → Event
  invalid_port_mapping : Channel → Error → Event
  mux_port_conflict : Channel → List Conflict → Event

-- The variables of the loop over the channels. `accepted` has each accepted channel with the text
-- that `update_channel_service_metadata` gets.
pub record Pass : Type 0 where
  pub ports : List MuxPort
  pub owners : Dict PortKey Str
  pub mux_state : MuxState
  pub endpoints : List Subset
  pub accepted : List (Channel × Str)
  pub events : List Event

abbrev pub emit : Event → Pass → Pass
emit e p = record p { events = p.events ++ e ∷ [] }

-- What the pass meets: the cached Endpoints, and how the API server answers the patches of a channel by
-- `update_channel_service_metadata`, by the channel and its annotation.
pub record Cluster : Type 0 where
  pub endpoints : EndpointsCache
  pub patch_channel : Channel → Str → Result (Unit {0})

module _ (hex : Str → Str) (cluster : Cluster) (max_ports : Option ℕ) where
  -- What follows the test for conflicts. A mapping that cannot be read back raises, and so do a patch
  -- that is refused and a port of the Endpoints without a name.
  abbrev pub accept :
      Channel → List MuxPort → Str → Dict PortKey Str → MuxState → Pass → Result Pass
  accept channel ch_ports annotation owners mux_state p =
      let (result, mux_state') = record_channel_claims channel annotation mux_state in
      do
        _ ← result
        _ ← cluster.patch_channel channel annotation
        ch_endpoints ← collect_channel_endpoints hex channel cluster.endpoints
        ok (record p {
          ports = union MuxPort-discrete p.ports ch_ports;
          owners = owners;
          mux_state = mux_state';
          endpoints = p.endpoints ++ ch_endpoints;
          accepted = p.accepted ++ (channel, annotation) ∷ [];
        })

  abbrev pub after_conflicts :
      Channel
      → List MuxPort
      → Str
      → MuxState
      → Pass
      → Dict PortKey Str × List Conflict
      → Result Pass
  after_conflicts channel ch_ports annotation mux_state p (owners, []) =
      accept channel ch_ports annotation owners mux_state p
  after_conflicts channel ch_ports annotation mux_state p (owners, c ∷ cs) = ok (
      emit (mux_port_conflict channel (c ∷ cs))
        (record p { owners = owners; mux_state = mux_state }))

  abbrev pub after_resolve : Channel → Pass → Result (List MuxPort × Str) × MuxState → Result Pass
  after_resolve channel p (err e, mux_state) =
      ok (emit (invalid_port_mapping channel e) (record p { mux_state = mux_state }))
  after_resolve channel p (ok (ch_ports, annotation), mux_state) =
      after_conflicts channel ch_ports annotation mux_state p
        (find_mux_port_conflicts channel.namespace channel.name p.owners ch_ports)

  -- the body of the loop
  unfoldable pub reconcile_channel : Channel → Pass → Result Pass
  reconcile_channel channel p =
      if would_exceed_mux_port_limit p.ports channel max_ports
      then ok (emit (mux_port_limit_exceeded channel) p)
      else after_resolve channel p
          (resolve_channel_ports hex (some (allocate hex)) channel p.mux_state)

  -- the loop
  unfoldable pub reconcile_channels : List Channel → Pass → Result Pass
  unfolding reconcile_channel
  reconcile_channels [] p = ok p
  reconcile_channels (c ∷ channels) p = do
    p' ← reconcile_channel c p
    reconcile_channels channels p'

-- `max_ports`, and the events about it
abbrev pub limit_events : Result (Option Warning) → Result (Option ℕ) → Option ℕ × List Event
limit_events (err e) _ = (some 0, invalid_max_ports e ∷ [])
limit_events (ok _) (err e) = (some 0, invalid_max_ports e ∷ [])
limit_events (ok none) (ok max_ports) = (max_ports, [])
limit_events (ok (some w)) (ok max_ports) = (max_ports, gke_port_limit_applied w ∷ [])

-- `build_mux_state`: the state, whether it can be saved, and the events
abbrev pub ranges_or_none : Result (List Range) → List Range × List Event
ranges_or_none (ok ranges) = (ranges, [])
ranges_or_none (err e) = ([], invalid_port_range e ∷ [])

abbrev pub no_state : StateDocument
no_state = record { schema_version = none; mux = none; port_claims = none; allocations = none }

abbrev pub state_of :
    Str × Str
    → List Range × List Event
    → List Channel
    → List PortKey
    → Dict PortKey Str
    → Result StoredDocument
    → Result (MuxState × Bool × List Event)
state_of mux_key (ranges, events) channels reserved owners (ok stored) = do
  state ← read_document stored
  ok (init mux_key ranges state channels reserved owners, true, events)
state_of mux_key (ranges, events) channels reserved owners (err e) =
    ok (init mux_key [] no_state channels reserved owners, false, events ++ store_invalid e ∷ [])

-- `stored` is the result of `ConfigMapAllocationStore.load`.
unfoldable pub build_mux_state :
    Mux
    → List Channel
    → Result StoredDocument
    → Dict PortKey Str
    → Result (MuxState × Bool × List Event)
build_mux_state mux channels stored reserved_port_owners = do
  reserved_ports ← collect_static_port_claims channels []
  state_of (mux.namespace, mux.name)
      (ranges_or_none
        (parse_port_ranges (annotation_of mux.annotations (annotation_key (codes "port-range")))))
      channels reserved_ports reserved_port_owners stored

-- What the pass leaves: the loop's variables, the ports for the mux Service, the document to save.
pub record Outcome : Type 0 where
  pub pass : Pass
  pub mux_ports : List MuxPort
  pub saved : Option StateDocument

abbrev pub saved_state : Bool → Bool → MuxState → Option StateDocument
saved_state has_store exists s =
    if has_store && (s.changed || not exists) then some (to_state s) else none

module _ (hex : Str → Str) (cluster : Cluster) where
  abbrev pub start : Dict PortKey Str → MuxState → List Event → Pass
  start recovered mux_state events = record {
    ports = [];
    owners = update PortKey-discrete recovered (port_owners hex mux_state);
    mux_state = mux_state;
    endpoints = [];
    accepted = [];
    events = events;
  }

  -- the iteration; `exists` says whether the stored ConfigMap is there
  unfoldable pub iterate :
      Mux → List MuxPort → List Channel → Bool → Result StoredDocument → Result Outcome
  iterate mux old_ports channels exists stored = do
    let limit = limit_events (gke_max_ports_warning mux) (effective_mux_max_ports mux)
    let sorted_channels = sort channel_leb channels
    recovered ← collect_existing_port_owners hex sorted_channels old_ports
    built ← build_mux_state mux sorted_channels stored recovered
    final ←
        reconcile_channels hex cluster limit.0 sorted_channels
          (start recovered built.0 (limit.1 ++ built.2))
    ok (record {
      pass = final;
      mux_ports = build_mux_ports final.ports;
      saved = saved_state built.1 exists final.mux_state;
    })
