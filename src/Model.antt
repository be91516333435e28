-- ===== src/Model.antt =====
-- The Kubernetes objects that the controller reads, as far as it reads them; `src/models.py`,
-- the annotation names of `src/config.py` and `PortAllocationRef` of `src/port_allocations.py`.
use svc_lb_mux.Prelude.{
  ℕ, Bool, true, false, ◌&&◌, Option, none, some, List, [], ◌∷◌, ◌++◌, leb, if◌then◌else◌, Str,
  codes, Str-discrete, str_leb, ite, ℤ, pos, negsuc, int_of_text, Result, ok, err, not_integer,
  port_out_of_range, ℕ_discrete,
}
use svc_lb_mux.Prelude.Dict.{Dict, get}

-- A number of a Kubernetes object or of the stored JSON: `null`, an integer, or text.
pub data Value : Type 0 where
  null : Value
  int : ℤ → Value
  text : Str → Value

-- `int(value)`; `none` where it raises `TypeError` or `ValueError`.
abbrev pub int_of : Value → Option ℤ
int_of null = none
int_of (int z) = some z
int_of (text s) = int_of_text s

-- An element of `spec.ports` of a channel Service.
pub record Port : Type 0 where
  pub name : Option Str
  pub port : Value
  pub protocol : Option Str
  pub node_port : Option Value

abbrev pub tcp : Str
tcp = codes "TCP"

abbrev pub or_tcp : Option Str → Str
or_tcp none = tcp
or_tcp (some p) = p

-- `port["name"]`, which the program reads only where the name is there.
abbrev pub or_empty : Option Str → Str
or_empty none = []
or_empty (some n) = n

-- `not port.get("name")`
abbrev pub has_name : Port → Bool
has_name p = elim (or_empty p.name) [ [] ↦ false | _ ∷ _ ↦ true ]

-- A channel Service.
pub record Channel : Type 0 where
  pub namespace : Str
  pub name : Str
  pub annotations : Dict Str Str
  pub ports : List Port

-- `models.MuxPort`
pub record MuxPort : Type 0 where
  pub name : Str
  pub port : ℤ
  pub protocol : Str

unfoldable pub MuxPort-discrete : Discrete MuxPort
unfolding ℕ_discrete
MuxPort-discrete = hlevel ℕ_discrete

-- A mux port number with its protocol: the key under which ports are owned.
abbrev pub PortKey : Type 0
PortKey = ℤ × Str

unfoldable pub PortKey-discrete : Discrete PortKey
unfolding ℕ_discrete
PortKey-discrete = hlevel ℕ_discrete

-- The three copies of the range test on a port number: `int(value)`, then `1 <= port <= 65535`.
abbrev pub in_port_range : ℤ → Result ℕ
in_port_range (pos n) = if leb 1 n && leb n 65535 then ok n else err port_out_of_range
in_port_range (negsuc n) = err port_out_of_range

abbrev pub checked : Option ℤ → Result ℕ
checked none = err not_integer
checked (some z) = in_port_range z

pub record PortAllocationRef : Type 0 where
  pub namespace : Str
  pub service : Str
  pub port_name : Str
  pub protocol : Str

-- `PortAllocationRef.from_channel_port`
abbrev pub from_channel_port : Channel → Port → PortAllocationRef
from_channel_port channel port = record {
  namespace = channel.namespace;
  service = channel.name;
  port_name = or_empty port.name;
  protocol = or_tcp port.protocol;
}

-- `PortAllocationRef.key`
unfoldable pub key : PortAllocationRef → Str
key ref = ref.protocol ++ b':' ∷ (ref.namespace ++ b':' ∷ (ref.service ++ b':' ∷ ref.port_name))

-- The API prefix, at its default, and the annotations under it.
unfoldable pub api_prefix : Str
api_prefix = codes "svc-mux.nowake.ai"

unfoldable pub annotation_key : Str → Str
unfolding api_prefix
annotation_key name = api_prefix ++ b'/' ∷ name

unfoldable pub annotation_ports : Str
unfolding annotation_key
annotation_ports = annotation_key (codes "ports")

unfoldable pub annotation_external_ports : Str
unfolding annotation_key
annotation_external_ports = annotation_key (codes "external-ports")

unfoldable pub annotation_external_dns_hostname : Str
unfolding annotation_key
annotation_external_dns_hostname = annotation_key (codes "external-dns-hostname")

unfoldable pub annotation_external_dns_aggregated : Str
unfolding annotation_key
annotation_external_dns_aggregated = annotation_key (codes "aggregated-external-dns")

unfoldable pub annotation_max_ports : Str
unfolding annotation_key
annotation_max_ports = annotation_key (codes "max-ports")

-- The metadata's annotations.
abbrev pub Annotations : Type 0
Annotations = Dict Str Str

-- `annotations.get(name, "")`
abbrev pub or_blank : Option Str → Str
or_blank none = []
or_blank (some v) = v

abbrev pub annotation_of : Annotations → Str → Str
annotation_of annotations name = or_blank (get Str-discrete annotations name)

-- the sort key `(namespace, name)` of channels
abbrev pub channel_leb : Channel → Channel → Bool
channel_leb a b =
    ite (Str-discrete a.namespace b.namespace) (str_leb a.name b.name)
      (str_leb a.namespace b.namespace)

-- A mux Service, as far as its limit of ports and its port range go.
pub record Mux : Type 0 where
  pub namespace : Str
  pub name : Str
  pub annotations : Annotations
  pub load_balancer_class : Option Str

-- An element of `status.loadBalancer.ingress`.
pub record Ingress : Type 0 where
  pub ip : Option Str
  pub hostname : Option Str
