-- ===== src/PortAllocations/Allocator.antt =====
-- The class `PortAllocator` of `src/port_allocations.py`.
use svc_lb_mux.Prelude.{
  ℕ, Bool, true, false, ◌&&◌, ◌||◌, not, Option, none, some, List, [], ◌∷◌, if◌then◌else◌, ite, Str,
  Str-discrete, is_empty, any, ℤ, pos, Result, ok, err, Exec, str_leb, no_range, no_free_port,
}
use svc_lb_mux.Prelude.Dict.{Dict, keys, values, member, add, difference, get, put, remove_all}
use svc_lb_mux.Prelude.Sort.{sort}
use svc_lb_mux.Model.{
  Port, Channel, PortKey, PortKey-discrete, PortAllocationRef, from_channel_port, key,
}
use svc_lb_mux.PortAllocations.Ranges.{Range, contains_port}
use svc_lb_mux.MuxState.Defs.{first_free_of, auto}

-- A stored allocation.
pub record Allocation : Type 0 where
  pub namespace : Str
  pub service : Str
  pub port_name : Str
  pub protocol : Str
  pub port : ℤ
  pub source : Str

pub record PortAllocator : Type 0 where
  pub mux_key : Str × Str
  pub ranges : List Range
  pub allocations : Dict Str Allocation
  pub reserved_ports : List PortKey
  pub active_keys : List Str
  pub changed : Bool

-- the document of `to_state`
pub record AllocationDocument : Type 0 where
  pub schema_version : ℕ
  pub mux : Str × Str
  pub allocations : List Allocation

abbrev pub port_key : Allocation → PortKey
port_key a = (a.port, a.protocol)

abbrev pub allocation_ref : Allocation → PortAllocationRef
allocation_ref a = record {
  namespace = a.namespace;
  service = a.service;
  port_name = a.port_name;
  protocol = a.protocol;
}

-- `_allocations_by_key`
unfoldable pub allocations_by_key : Dict Str Allocation → List Allocation → Dict Str Allocation
allocations_by_key result [] = result
allocations_by_key result (a ∷ rest) =
    allocations_by_key (put Str-discrete result (key (allocation_ref a)) a) rest

-- `_used_port_protocols`
unfoldable pub used_ports : List PortKey → List Allocation → List PortKey
used_ports used [] = used
used_ports used (a ∷ rest) = used_ports (add PortKey-discrete (port_key a) used) rest

-- `_is_claimed`
abbrev pub holds_port : PortKey → Str → Str × Allocation → Bool
holds_port p current_key e =
    ite (Str-discrete e.0 current_key) false (ite (PortKey-discrete (port_key e.1) p) true false)

unfoldable pub is_allocated : PortAllocator → PortKey → Str → Bool
is_allocated s p current_key =
    any (holds_port p current_key) s.allocations || member PortKey-discrete p s.reserved_ports

-- the port of the existing allocation, if it can be kept
unfoldable pub kept_port : PortAllocator → PortAllocationRef → Option Allocation → Option ℤ
kept_port s ref none = none
kept_port s ref (some existing) =
    if contains_port s.ranges existing.port
      && not (is_allocated s (existing.port, ref.protocol) (key ref))
    then some existing.port
    else none

abbrev pub write_allocation : PortAllocationRef → PortAllocator → ℕ → PortAllocator
write_allocation ref s port = record s {
  allocations = put Str-discrete s.allocations (key ref) (record {
    namespace = ref.namespace;
    service = ref.service;
    port_name = ref.port_name;
    protocol = ref.protocol;
    port = pos port;
    source = auto;
  });
  changed = true;
}

abbrev pub allocate_free :
    PortAllocationRef → PortAllocator → Option ℤ → Option ℕ → Result ℤ × PortAllocator
allocate_free ref s (some port) free = (ok port, s)
allocate_free ref s none none = (err no_free_port, s)
allocate_free ref s none (some port) = (ok (pos port), write_allocation ref s port)

-- `self.active_keys.add(ref.key)`
abbrev pub activate : PortAllocationRef → PortAllocator → PortAllocator
activate ref s = record s { active_keys = add Str-discrete (key ref) s.active_keys }

-- `PortAllocator.allocate`
unfoldable pub allocate_port : Channel → Port → Exec PortAllocator ℤ
unfolding kept_port used_ports
allocate_port channel port s =
    let ref = from_channel_port channel port in
    let s' = activate ref s in
    if is_empty s.ranges
    then (err no_range, s)
    else allocate_free ref s' (kept_port s' ref (get Str-discrete s.allocations (key ref)))
        (first_free_of (used_ports s.reserved_ports (values s.allocations)) ref.protocol s.ranges)

-- `prune_inactive`
abbrev pub inactive_keys : PortAllocator → List Str
inactive_keys s = difference Str-discrete (keys s.allocations) s.active_keys

unfoldable pub prune_allocations : PortAllocator → PortAllocator
prune_allocations s = record s {
  allocations = remove_all Str-discrete s.allocations (inactive_keys s);
  changed = if is_empty (inactive_keys s) then s.changed else true;
}

-- `PortAllocator.__init__`, where `active_keys` may be missing
unfoldable pub new_allocator :
    Str × Str → List Range → List Allocation → List PortKey → Option (List Str) → PortAllocator
unfolding allocations_by_key prune_allocations
new_allocator mux_key ranges allocations reserved_ports none = record {
  mux_key = mux_key;
  ranges = ranges;
  allocations = allocations_by_key [] allocations;
  reserved_ports = reserved_ports;
  active_keys = [];
  changed = false;
}
new_allocator mux_key ranges allocations reserved_ports (some active_keys) =
    prune_allocations (record {
      mux_key = mux_key;
      ranges = ranges;
      allocations = allocations_by_key [] allocations;
      reserved_ports = reserved_ports;
      active_keys = active_keys;
      changed = false;
    })

unfoldable pub allocations_at : Dict Str Allocation → List Str → List Allocation
allocations_at d [] = []
allocations_at d (k ∷ ks) = elim (get Str-discrete d k) [
  | none ↦ allocations_at d ks
  | some a ↦ a ∷ allocations_at d ks
]

-- `PortAllocator.to_state`
unfoldable pub allocations_state : PortAllocator → AllocationDocument × PortAllocator
unfolding prune_allocations allocations_at
allocations_state s =
    let s' = prune_allocations s in
    (
      record {
        schema_version = 1;
        mux = s.mux_key;
        allocations = allocations_at s'.allocations (sort str_leb (keys s'.allocations));
      },
      s',
    )
