-- ===== src/Reconcile/Endpoints.antt =====
-- Endpoints of channels and muxes: `collect_channel_endpoints` and `get_old_endpoints_set` to
-- `count_ready_channel_pods` of `src/reconcile.py`, and `models.MuxEp`. An address is its IP.
use svc_lb_mux.Prelude.{
  ℕ_discrete, ℕ, ◌+◌, Bool, true, false, ◌&&◌, not, none, some, List, [], ◌∷◌, ◌++◌, if◌then◌else◌,
  ite, Str, codes, Str-discrete, is_empty, filter, map, length, ℤ, pos, Result, ok, err, ◌>>=◌,
  missing_key, Option,
}
use svc_lb_mux.Prelude.Dict.{Dict, add, get}
use svc_lb_mux.Prelude.Sort.{sort}
use svc_lb_mux.Model.{Channel, MuxPort, tcp, channel_leb}
use svc_lb_mux.Reconcile.ExternalPorts.{port_hash}

-- A port of an Endpoints subset; the only port of a Service need not have a name.
pub record EndpointPort : Type 0 where
  pub name : Option Str
  pub port : ℤ
  pub protocol : Str

-- A subset of an Endpoints object; a missing list is empty.
pub record Subset : Type 0 where
  pub addresses : List Str
  pub not_ready_addresses : List Str
  pub ports : List EndpointPort

-- `memo.endpoints`: the subsets by namespace and name. An object without subsets has an empty list.
abbrev pub ServiceKey : Type 0
ServiceKey = Str × Str

unfoldable pub ServiceKey-discrete : Discrete ServiceKey
unfolding ℕ_discrete
ServiceKey-discrete = hlevel ℕ_discrete

abbrev pub EndpointsCache : Type 0
EndpointsCache = Dict ServiceKey (List Subset)

abbrev pub cached : EndpointsCache → ServiceKey → List Subset
cached endpoints service = elim (get ServiceKey-discrete endpoints service) [
  | none ↦ []
  | some subsets ↦ subsets
]

module _ (hex : Str → Str) (channel : Channel) where
  -- `port["name"]` raises where the port has none.
  abbrev pub named_port : EndpointPort → Option Str → Result EndpointPort
  named_port p none = err missing_key
  named_port p (some name) =
      ok (record p { name = some (port_hash hex channel.namespace channel.name name) })

  unfoldable pub mux_endpoint_ports : List EndpointPort → Result (List EndpointPort)
  mux_endpoint_ports [] = ok []
  mux_endpoint_ports (p ∷ ps) = do q ← named_port p p.name; qs ← mux_endpoint_ports ps; ok (q ∷ qs)

  abbrev pub with_ports :
      Subset → Result (List EndpointPort) → Result (List Subset) → Result (List Subset)
  with_ports s call rest = do ports ← call; others ← rest; ok (record s { ports = ports } ∷ others)

  unfoldable pub mux_subsets : List Subset → Result (List Subset)
  unfolding mux_endpoint_ports
  mux_subsets [] = ok []
  mux_subsets (s ∷ subsets) =
      let rest = mux_subsets subsets in
      if is_empty s.addresses && is_empty s.not_ready_addresses
      then rest
      else with_ports s (mux_endpoint_ports s.ports) rest

  -- `collect_channel_endpoints`
  unfoldable pub collect_channel_endpoints : EndpointsCache → Result (List Subset)
  unfolding mux_subsets
  collect_channel_endpoints endpoints =
      mux_subsets (cached endpoints (channel.namespace, channel.name))

-- `models.MuxEp`
pub record MuxEp : Type 0 where
  pub ip : Str
  pub port : ℤ
  pub protocol : Str

unfoldable pub MuxEp-discrete : Discrete MuxEp
unfolding ℕ_discrete
MuxEp-discrete = hlevel ℕ_discrete

abbrev pub endpoint_at : EndpointPort → Str → MuxEp
endpoint_at p ip = record { ip = ip; port = p.port; protocol = p.protocol }

-- The loops of `get_old_endpoints_set`: for each port, each address.
unfoldable pub add_ips : EndpointPort → List Str → List MuxEp → List MuxEp
add_ips p [] found = found
add_ips p (ip ∷ ips) found = add_ips p ips (add MuxEp-discrete (endpoint_at p ip) found)

unfoldable pub add_by_port : List Str → List EndpointPort → List MuxEp → List MuxEp
unfolding add_ips
add_by_port ips [] found = found
add_by_port ips (p ∷ ps) found = add_by_port ips ps (add_ips p ips found)

unfoldable pub old_endpoints : (Subset → List Str) → List Subset → List MuxEp → List MuxEp
unfolding add_by_port
old_endpoints side [] found = found
old_endpoints side (s ∷ subsets) found =
    old_endpoints side subsets (add_by_port (side s) s.ports found)

abbrev pub ready : Subset → List Str
ready s = s.addresses

abbrev pub not_ready : Subset → List Str
not_ready s = s.not_ready_addresses

-- `get_old_endpoints_set`
unfoldable pub get_old_endpoints_set : List Subset → List MuxEp × List MuxEp
unfolding old_endpoints
get_old_endpoints_set subsets = (old_endpoints ready subsets [], old_endpoints not_ready subsets [])

-- The comprehensions of `get_current_endpoints_set`: for each address, each port.
unfoldable pub add_ports : Str → List EndpointPort → List MuxEp → List MuxEp
add_ports ip [] found = found
add_ports ip (p ∷ ps) found = add_ports ip ps (add MuxEp-discrete (endpoint_at p ip) found)

unfoldable pub add_by_ip : List Str → List EndpointPort → List MuxEp → List MuxEp
unfolding add_ports
add_by_ip [] ps found = found
add_by_ip (ip ∷ ips) ps found = add_by_ip ips ps (add_ports ip ps found)

unfoldable pub current_endpoints : (Subset → List Str) → List Subset → List MuxEp → List MuxEp
unfolding add_by_ip
current_endpoints side [] found = found
current_endpoints side (s ∷ subsets) found =
    current_endpoints side subsets (add_by_ip (side s) s.ports found)

-- `get_current_endpoints_set`
unfoldable pub get_current_endpoints_set : List Subset → List MuxEp × List MuxEp
unfolding current_endpoints
get_current_endpoints_set subsets =
    (current_endpoints ready subsets [], current_endpoints not_ready subsets [])

-- `build_mux_ports`
unfoldable pub placeholder_name : Str
placeholder_name = codes "placeholder"

unfoldable pub placeholder : MuxPort
unfolding placeholder_name
placeholder = record { name = placeholder_name; port = pos 101; protocol = tcp }

abbrev pub is_placeholder : MuxPort → Bool
is_placeholder p = ite (Str-discrete p.name placeholder_name) true false

unfoldable pub build_mux_ports : List MuxPort → List MuxPort
unfolding placeholder
build_mux_ports [] = placeholder ∷ []
build_mux_ports (p ∷ ports) = filter (λ q. not (is_placeholder q)) (p ∷ ports)

-- `count_ready_channel_pods`
unfoldable pub count_addresses : List Subset → ℕ
count_addresses [] = 0
count_addresses (s ∷ subsets) = length s.addresses + count_addresses subsets

unfoldable pub count_ready_channel_pods : List Channel → EndpointsCache → ℕ
unfolding count_addresses
count_ready_channel_pods [] endpoints = 0
count_ready_channel_pods (c ∷ channels) endpoints =
    count_addresses (cached endpoints (c.namespace, c.name))
    + count_ready_channel_pods channels endpoints

-- `channel_refs`
unfoldable pub channel_refs : List Channel → List Str
channel_refs channels = map (λ c. c.namespace ++ b'/' ∷ c.name) (sort channel_leb channels)
