-- ===== src/Muxdebug/Routes.antt =====
-- Routes from a mux to pods: `_build_mux_info` to `_extract_pod_infos` of `tools/muxdebug/debugger.py`,
-- with the data classes of `types.py`. The client reads the cluster, so it is a parameter; the fields
-- that the API server always sets are there.
use svc_lb_mux.Prelude.{
  ℕ, zero, suc, Bool, true, false, ◌&&◌, Option, none, some, List, [], ◌∷◌, ◌++◌, ite,
  if◌then◌else◌, Str, codes, Str-discrete, ℤ, pos, negsuc, Result, ok, err, ◌>>=◌, no_length,
}
use svc_lb_mux.Prelude.Dict.{Dict, get}
use svc_lb_mux.Model.{
  Value, null, int, text, Port, Annotations, annotation_of, annotation_ports, annotation_key,
  or_blank, or_tcp, Ingress,
}
use svc_lb_mux.Debug.State.{is_pod}
use svc_lb_mux.Reconcile.ExternalDns.{external_dns_hostname}
use svc_lb_mux.Muxdebug.Parse.{parse_mux_from_lb_class, parse_channel_port_mappings}

-- A Service as the debugger reads it.
pub record ServiceObject : Type 0 where
  pub namespace : Str
  pub name : Str
  pub annotations : Annotations
  pub load_balancer_class : Option Str
  pub ports : List Port
  pub ingress : List Ingress

-- An address of Endpoints with its `targetRef` and node.
pub record PodAddress : Type 0 where
  pub target_kind : Option Str
  pub target_name : Str
  pub target_namespace : Str
  pub ip : Str
  pub node_name : Option Str

pub record PodSubset : Type 0 where
  pub addresses : List PodAddress
  pub not_ready_addresses : List PodAddress

pub record PodInfo : Type 0 where
  pub name : Str
  pub namespace : Str
  pub ip : Str
  pub node : Option Str
  pub ready : Bool

pub record PortRoute : Type 0 where
  pub mux_port : Value
  pub protocol : Str
  pub channel_name : Str
  pub channel_namespace : Str
  pub channel_port : Value
  pub node_port : Option Value
  pub target_pods : List PodInfo
  pub channel_external_dns : Option Str

pub record MuxInfo : Type 0 where
  pub name : Str
  pub namespace : Str
  pub lb_hostname : Option Str
  pub lb_ip : Option Str
  pub routes : List PortRoute
  pub total_channels : ℕ
  pub external_dns : Option Str

-- The pod of an address, if its target is one.
unfoldable pub pods_of : Bool → List PodAddress → List PodInfo
pods_of ready [] = []
pods_of ready (addr ∷ addresses) =
    let rest = pods_of ready addresses in
    if is_pod addr.target_kind
    then record {
      name = addr.target_name;
      namespace = addr.target_namespace;
      ip = addr.ip;
      node = addr.node_name;
      ready = ready;
    }
      ∷ rest
    else rest

-- `_extract_pod_infos`
unfoldable pub extract_pod_infos : List PodSubset → List PodInfo
unfolding pods_of
extract_pod_infos [] = []
extract_pod_infos (subset ∷ subsets) =
    pods_of true subset.addresses
    ++ pods_of false subset.not_ready_addresses
    ++ extract_pod_infos subsets

-- What the client reads: the listed Services, one Service, the Endpoints of a Service.
pub record Client : Type 0 where
  pub services : List ServiceObject
  pub get_service : Str → Str → Option ServiceObject
  pub get_endpoints : Str → Str → Option (List PodSubset)

abbrev pub pod_infos_of : Option (List PodSubset) → List PodInfo
pod_infos_of none = []
pod_infos_of (some subsets) = extract_pod_infos subsets

-- `if not mux_port`
abbrev pub is_truthy : Value → Bool
is_truthy null = false
is_truthy (int (pos zero)) = false
is_truthy (int (pos (suc n))) = true
is_truthy (int (negsuc n)) = true
is_truthy (text []) = false
is_truthy (text (c ∷ s)) = true

-- `mux_ports_by_name.get(port_name, port.get("port"))`
abbrev pub or_own_port : Option ℤ → Value → Value
or_own_port none own = own
or_own_port (some mux_port) own = int mux_port

abbrev pub mux_port_of : Dict Str ℤ → Port → Value
mux_port_of mux_ports_by_name port =
    or_own_port
      (elim port.name [ none ↦ none | some name ↦ get Str-discrete mux_ports_by_name name ])
      port.port

abbrev pub external_dns_of : ServiceObject → Option Str
external_dns_of svc = get Str-discrete svc.annotations external_dns_hostname

abbrev pub route_of : ServiceObject → List PodInfo → Value → Port → PortRoute
route_of svc pods mux_port port = record {
  mux_port = mux_port;
  protocol = or_tcp port.protocol;
  channel_name = svc.name;
  channel_namespace = svc.namespace;
  channel_port = port.port;
  node_port = port.node_port;
  target_pods = pods;
  channel_external_dns = external_dns_of svc;
}

-- The loop over the ports of a channel.
unfoldable pub port_routes : ServiceObject → Dict Str ℤ → List PodInfo → List Port → List PortRoute
port_routes svc mux_ports_by_name pods [] = []
port_routes svc mux_ports_by_name pods (port ∷ ports) =
    let rest = port_routes svc mux_ports_by_name pods ports in
    let mux_port = mux_port_of mux_ports_by_name port in
    if is_truthy mux_port then route_of svc pods mux_port port ∷ rest else rest

-- Whether `loadBalancerClass` names the mux; a class that cannot be parsed does not.
abbrev pub is_same_mux : Str → Str → Result (Str × Str) → Bool
is_same_mux mux_name mux_namespace (err e) = false
is_same_mux mux_name mux_namespace (ok (name, namespace)) =
    ite (Str-discrete name mux_name) true false
    && ite (Str-discrete namespace mux_namespace) true false

abbrev pub names_mux : Str → Str → ServiceObject → Bool
names_mux mux_name mux_namespace svc =
    is_same_mux mux_name mux_namespace
      (parse_mux_from_lb_class (or_blank svc.load_balancer_class) mux_namespace)

unfoldable pub channel_routes : Client → ServiceObject → Result (List PortRoute)
unfolding port_routes extract_pod_infos parse_channel_port_mappings
channel_routes client svc = do
  mux_ports_by_name ← parse_channel_port_mappings (annotation_of svc.annotations annotation_ports)
  ok (
      port_routes svc mux_ports_by_name (pod_infos_of (client.get_endpoints svc.name svc.namespace))
        svc.ports)

-- The routes of a channel and of those behind it; the first one that raises ends the loop.
abbrev pub append_routes :
    Result (List PortRoute) → Result (List PortRoute) → Result (List PortRoute)
append_routes call rest = do routes ← call; others ← rest; ok (routes ++ others)

-- the loop of `_build_routes` over the Services
unfoldable pub routes_among : Client → Str → Str → List ServiceObject → Result (List PortRoute)
unfolding channel_routes parse_mux_from_lb_class
routes_among client mux_name mux_namespace [] = ok []
routes_among client mux_name mux_namespace (svc ∷ services) =
    let rest = routes_among client mux_name mux_namespace services in
    if names_mux mux_name mux_namespace svc
    then append_routes (channel_routes client svc) rest
    else rest

-- `_build_routes`
abbrev pub build_routes : Client → Str → Str → Result (List PortRoute)
build_routes client mux_name mux_namespace =
    routes_among client mux_name mux_namespace client.services

abbrev pub first_hostname : List Ingress → Option Str
first_hostname [] = none
first_hostname (ingress ∷ _) = ingress.hostname

abbrev pub first_ip : List Ingress → Option Str
first_ip [] = none
first_ip (ingress ∷ _) = ingress.ip

unfoldable pub annotation_channels : Str
annotation_channels = annotation_key (codes "channels")

abbrev pub or_none_listed : Option Str → Str
or_none_listed none = codes "[]"
or_none_listed (some s) = s

-- `len(json.loads(text))`: the text may be no JSON, and its value may have no length.
pub data JsonLength : Type 0 where
  not_json without_length : JsonLength
  of_length : ℕ → JsonLength

-- No JSON counts as an empty list; `len` raises for a value without a length.
abbrev pub count_listed : JsonLength → Result ℕ
count_listed not_json = ok 0
count_listed without_length = err no_length
count_listed (of_length n) = ok n

module _ (json_length : Str → JsonLength) where
  abbrev pub listed_channels : ServiceObject → JsonLength
  listed_channels svc =
      json_length (or_none_listed (get Str-discrete svc.annotations annotation_channels))

  -- the `MuxInfo` of a mux, without its routes
  abbrev pub mux_info : ServiceObject → Result MuxInfo
  mux_info svc = do
    total_channels ← count_listed (listed_channels svc)
    ok (record {
      name = svc.name;
      namespace = svc.namespace;
      lb_hostname = first_hostname svc.ingress;
      lb_ip = first_ip svc.ingress;
      routes = [];
      total_channels = total_channels;
      external_dns = external_dns_of svc;
    })

  abbrev pub with_routes : MuxInfo → Result (List PortRoute) → Result MuxInfo
  with_routes info call = do routes ← call; ok (record info { routes = routes })

  -- `_build_mux_info`
  unfoldable pub build_mux_info : Client → ServiceObject → Bool → Result MuxInfo
  unfolding routes_among
  build_mux_info client svc include_routes = do
    info ← mux_info svc
    if include_routes
        then with_routes info (build_routes client info.name info.namespace)
        else ok info
