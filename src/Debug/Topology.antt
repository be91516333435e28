-- ===== src/Debug/Topology.antt =====
-- The views of the debug page: `topology` and `snapshot` of `src/debug_state.py`.
-- A copy of an entry is the entry.
use svc_lb_mux.Prelude.{
  Bool, true, false, Option, none, some, List, [], ◌∷◌, ◌++◌, Str, Str-discrete,
}
use svc_lb_mux.Prelude.Dict.{Dict, values, get, put}
use svc_lb_mux.Reconcile.Endpoints.{ServiceKey, ServiceKey-discrete}
use svc_lb_mux.Debug.Events.{DebugEvent}
use svc_lb_mux.Debug.State.{MuxEntry, PortEntry, ChannelEntry, EndpointEntry, DebugState}

pub record ChannelView : Type 0 where
  pub namespace : Str
  pub name : Str
  pub external_dns : Option Str
  pub custom_dns : Option Str
  pub ports : List PortEntry

pub record MuxView : Type 0 where
  pub mux_external_dns : Option Str
  pub mux_external_ip : Option Str
  pub mux_missing : Bool
  pub has_queue : Bool
  pub channels : List ChannelView

-- `f"{key[0]}/{key[1]}"`
abbrev pub key_text : ServiceKey → Str
key_text key = key.0 ++ b'/' ∷ key.1

abbrev pub channel_view : ChannelEntry → ChannelView
channel_view c = record {
  namespace = c.namespace;
  name = c.name;
  external_dns = c.external_dns;
  custom_dns = c.custom_dns;
  ports = c.ports;
}

-- `_topology_mux_entry`, on the entry of the mux if it exists
unfoldable pub topology_mux_entry : Option MuxEntry → MuxView
topology_mux_entry none = record {
  mux_external_dns = none;
  mux_external_ip = none;
  mux_missing = true;
  has_queue = false;
  channels = [];
}
topology_mux_entry (some mux) = record {
  mux_external_dns = mux.external_dns_hostname;
  mux_external_ip = mux.status_ingress;
  mux_missing = false;
  has_queue = mux.has_queue;
  channels = [];
}

abbrev pub mux_of : ChannelEntry → ServiceKey
mux_of c = (c.mux_namespace, c.mux_name)

-- `topology[mux_key]`, made first if it is missing
abbrev pub entry_or_new : Dict ServiceKey MuxEntry → ChannelEntry → Option MuxView → MuxView
entry_or_new mux_services c none =
    topology_mux_entry (get ServiceKey-discrete mux_services (mux_of c))
entry_or_new mux_services c (some view) = view

abbrev pub append_channel : ChannelEntry → MuxView → MuxView
append_channel c view = record view { channels = view.channels ++ channel_view c ∷ [] }

-- the loop over the channels
unfoldable pub add_channels :
    Dict ServiceKey MuxEntry → Dict Str MuxView → List ChannelEntry → Dict Str MuxView
unfolding topology_mux_entry
add_channels mux_services views [] = views
add_channels mux_services views (c ∷ channels) =
    let mux_key = key_text (mux_of c) in
    let view = entry_or_new mux_services c (get Str-discrete views mux_key) in
    add_channels mux_services (put Str-discrete views mux_key (append_channel c view)) channels

-- `topology`
unfoldable pub topology : DebugState → Dict Str MuxView
unfolding add_channels
topology state = add_channels state.mux_services [] (values state.channel_services)

pub record Snapshot : Type 0 where
  pub mux_services : Dict Str MuxEntry
  pub channel_services : Dict Str ChannelEntry
  pub endpoints : Dict Str EndpointEntry
  pub events : List DebugEvent

-- `{f"{key[0]}/{key[1]}": dict(value) for ...}`
unfoldable pub by_text : {A : Type 0} → Dict Str A → Dict ServiceKey A → Dict Str A
by_text views [] = views
by_text views ((key, value) ∷ d) = by_text (put Str-discrete views (key_text key) value) d

-- `snapshot`
unfoldable pub snapshot : DebugState → List DebugEvent → Snapshot
unfolding by_text
snapshot state events = record {
  mux_services = by_text [] state.mux_services;
  channel_services = by_text [] state.channel_services;
  endpoints = by_text [] state.endpoints;
  events = events;
}
