-- ===== src/Debug/State.antt =====
-- The state of the debug page and how the controller changes it: `DebugStateStore` of
-- `src/debug_state.py`, without its events. The lock makes each method one step.
use svc_lb_mux.Prelude.{
  ℕ, ◌+◌, Bool, true, false, Option, none, some, List, [], ◌∷◌, ◌++◌, if◌then◌else◌, Str, codes,
  Str-discrete, ite, length, map, ℤ, Result, ok, ◌>>=◌,
}
use svc_lb_mux.Prelude.Dict.{Dict, member, get, put}
use svc_lb_mux.Model.{
  Ingress, Value, Port, Channel, annotation_ports, annotation_external_dns_hostname, annotation_of,
  or_blank,
}
use svc_lb_mux.Reconcile.Endpoints.{ServiceKey, ServiceKey-discrete}
use svc_lb_mux.Debug.Ports.{parse_mux_port_annotation}

-- An address of an Endpoints subset with its `targetRef`, which is empty where it is missing.
pub record Address : Type 0 where
  pub ip : Option Str
  pub target_kind : Option Str
  pub target_name : Option Str
  pub target_namespace : Option Str

pub record AddressSubset : Type 0 where
  pub addresses : List Address
  pub not_ready_addresses : List Address

-- What the page reads of `memo`: the keys of the queues, and the subsets of the cached Endpoints.
pub record DebugMemo : Type 0 where
  pub mux_queues : List ServiceKey
  pub endpoints : Dict ServiceKey (List AddressSubset)

-- A mux Service, and a channel Service, as the page reads them.
pub record MuxServiceData : Type 0 where
  pub annotations : Dict Str Str
  pub ingress : List Ingress

pub record ChannelService : Type 0 where
  pub channel : Channel
  pub load_balancer_class : Option Str
  pub ingress : List Ingress

pub record MuxEntry : Type 0 where
  pub namespace : Str
  pub name : Str
  pub has_queue : Bool
  pub external_dns_hostname : Option Str
  pub status_ingress : Option Str

pub record PortEntry : Type 0 where
  pub name : Option Str
  pub port : Value
  pub node_port : Option Value
  pub protocol : Option Str
  pub mux_port : Option ℤ

pub record ChannelEntry : Type 0 where
  pub namespace : Str
  pub name : Str
  pub mux_namespace : Str
  pub mux_name : Str
  pub lb_class : Str
  pub external_dns : Option Str
  pub custom_dns : Option Str
  pub ports : List PortEntry

pub record EndpointEntry : Type 0 where
  pub namespace : Str
  pub name : Str
  pub ready_count : ℕ
  pub not_ready_count : ℕ
  pub pods : List Str

pub record DebugState : Type 0 where
  pub mux_services : Dict ServiceKey MuxEntry
  pub channel_services : Dict ServiceKey ChannelEntry
  pub endpoints : Dict ServiceKey EndpointEntry

-- `a or b` on optional texts
abbrev pub or_else : Option Str → Option Str → Option Str
or_else none b = b
or_else (some []) b = b
or_else (some (c ∷ s)) b = some (c ∷ s)

-- `ingress[0].get("ip") or ingress[0].get("hostname")`, if there is one
abbrev pub first_ingress : List Ingress → Option Str
first_ingress [] = none
first_ingress (i ∷ _) = or_else i.ip i.hostname

abbrev pub is_pod : Option Str → Bool
is_pod none = false
is_pod (some kind) = ite (Str-discrete kind (codes "Pod")) true false

-- `d.get(key, default)` on a text
abbrev pub text_or : Option Str → Str → Str
text_or none fallback = fallback
text_or (some s) fallback = s

abbrev pub pod_text : ServiceKey → Address → Str → Str
pod_text display_key a ip =
    if is_pod a.target_kind
    then text_or a.target_namespace display_key.0 ++ b'/' ∷ text_or a.target_name ip
    else ip

-- the loop over the addresses of a subset, which skips those without an IP
unfoldable pub address_pods : ServiceKey → List Address → List Str
address_pods display_key [] = []
address_pods display_key (a ∷ addresses) =
    let rest = address_pods display_key addresses in
    elim a.ip [ none ↦ rest | some ip ↦ pod_text display_key a ip ∷ rest ]

unfoldable pub subset_pods : ServiceKey → List AddressSubset → List Str
unfolding address_pods
subset_pods display_key [] = []
subset_pods display_key (s ∷ subsets) =
    address_pods display_key s.addresses ++ subset_pods display_key subsets

unfoldable pub count_ready : List AddressSubset → ℕ
count_ready [] = 0
count_ready (s ∷ subsets) = length s.addresses + count_ready subsets

unfoldable pub count_not_ready : List AddressSubset → ℕ
count_not_ready [] = 0
count_not_ready (s ∷ subsets) = length s.not_ready_addresses + count_not_ready subsets

abbrev pub endpoint_entry : ServiceKey → List AddressSubset → EndpointEntry
endpoint_entry display_key subsets = record {
  namespace = display_key.0;
  name = display_key.1;
  ready_count = count_ready subsets;
  not_ready_count = count_not_ready subsets;
  pods = subset_pods display_key subsets;
}

abbrev pub write_endpoint : ServiceKey → Option (List AddressSubset) → DebugState → DebugState
write_endpoint display_key none state = state
write_endpoint display_key (some subsets) state = record state {
  endpoints =
      put ServiceKey-discrete state.endpoints display_key (endpoint_entry display_key subsets);
}

-- `_update_endpoint_state`
unfoldable pub update_endpoint_state : DebugMemo → ServiceKey → ServiceKey → DebugState → DebugState
update_endpoint_state memo endpoint_key display_key state =
    write_endpoint display_key (get ServiceKey-discrete memo.endpoints endpoint_key) state

-- The annotation of external-dns, which `_update_mux_service` spells out.
abbrev pub external_dns_hostname : Str
external_dns_hostname = codes "external-dns.alpha.kubernetes.io/hostname"

unfoldable pub mux_entry : DebugMemo → ServiceKey → Option MuxServiceData → MuxEntry
mux_entry memo mux_key none = record {
  namespace = mux_key.0;
  name = mux_key.1;
  has_queue = member ServiceKey-discrete mux_key memo.mux_queues;
  external_dns_hostname = none;
  status_ingress = none;
}
mux_entry memo mux_key (some service) = record {
  namespace = mux_key.0;
  name = mux_key.1;
  has_queue = member ServiceKey-discrete mux_key memo.mux_queues;
  external_dns_hostname = get Str-discrete service.annotations external_dns_hostname;
  status_ingress = first_ingress service.ingress;
}

-- `_update_mux_service`
unfoldable pub update_mux_service :
    DebugMemo → ServiceKey → Option MuxServiceData → DebugState → DebugState
unfolding mux_entry
update_mux_service memo mux_key service state = record state {
  mux_services =
      put ServiceKey-discrete state.mux_services mux_key (mux_entry memo mux_key service);
}

abbrev pub mux_port_at : Dict Str ℤ → Option Str → Option ℤ
mux_port_at mux_port_map none = none
mux_port_at mux_port_map (some name) = get Str-discrete mux_port_map name

abbrev pub port_entry : Dict Str ℤ → Port → PortEntry
port_entry mux_port_map port = record {
  name = port.name;
  port = port.port;
  node_port = port.node_port;
  protocol = port.protocol;
  mux_port = mux_port_at mux_port_map port.name;
}

-- `_channel_state`
unfoldable pub channel_state :
    ChannelService → ServiceKey → Option Str → Option Str → Result ChannelEntry
channel_state service mux_key mux_external_dns_hostname mux_status_ingress =
    let channel = service.channel in
    let custom = get Str-discrete channel.annotations annotation_external_dns_hostname in
    do
      mux_port_map ← parse_mux_port_annotation (annotation_of channel.annotations annotation_ports)
      ok (record {
        namespace = channel.namespace;
        name = channel.name;
        mux_namespace = mux_key.0;
        mux_name = mux_key.1;
        lb_class = or_blank service.load_balancer_class;
        external_dns = or_else custom (
            or_else mux_external_dns_hostname
              (or_else (first_ingress service.ingress) mux_status_ingress));
        custom_dns = custom;
        ports = map (port_entry mux_port_map) channel.ports;
      })
