-- ===== src/Tests/Muxdebug.antt =====
-- Tests of the command-line debugger.
use svc_lb_mux.Prelude.{
  ℕ, ◌≡◌, ◌∙◌, refl, sym, Bool, true, false, none, some, Option, List, [], ◌∷◌, ◌++◌, ◌&&◌, arith,
  Str, codes, Str-discrete, pos, ok, err, ite, append_assoc, subst, no_service,
}
use svc_lb_mux.Model.{int, tcp, api_prefix, or_blank, annotation_ports, annotation_key}
use svc_lb_mux.Refs.{get_mux_from_lb_class}
use svc_lb_mux.Annotations.Mappings.{Mapping, format_channel_port_annotation}
use svc_lb_mux.Annotations.Mappings.{parse_port_mappings}
use svc_lb_mux.Annotations.RoundTrip.{put_mappings}
use svc_lb_mux.Annotations.Items.{put_mux_ports}
use svc_lb_mux.Debug.Ports.{parse_mux_port_annotation}
use svc_lb_mux.Muxdebug.Client.{Completed}
use svc_lb_mux.Muxdebug.Parse.{parse_channel_port_mappings, parse_mux_from_lb_class}
use svc_lb_mux.Muxdebug.PortLaws.{ports-format}
use svc_lb_mux.Muxdebug.Routes.{
  ServiceObject, PodAddress, PodInfo, PortRoute, Client, JsonLength, of_length, names_mux,
}
use svc_lb_mux.Muxdebug.Find.{find_pod_route}
use svc_lb_mux.Muxdebug.FindLaws.{IsFound, find_pod_route-IsFound, names_mux-agrees}
use svc_lb_mux.Muxdebug.Diagnose.{Attempt, returned, raised, Pod, diagnose_route_failure}
use svc_lb_mux.Tests.Fixtures.{http}

abbrev one_mapping : List Mapping
one_mapping = (codes "a", int (pos 80), pos 8000) ∷ []

ports-format_example :
    (parse_port_mappings (format_channel_port_annotation one_mapping)
      ≡ ok (put_mappings [] one_mapping))
    × (parse_mux_port_annotation (format_channel_port_annotation one_mapping)
        ≡ ok (put_mux_ports [] one_mapping))
    × (parse_channel_port_mappings (format_channel_port_annotation one_mapping)
        ≡ ok (put_mux_ports [] one_mapping))
ports-format_example = ports-format one_mapping (
  ((((refl, tt), (omega arith, tt), (omega arith, tt)), (80, refl), (8000, refl)), omega arith),
  tt,
)

-- The namespace of the mux that is looked at is the default: the same class names the mux in each.
abbrev unqualified : ServiceObject
unqualified = record {
  namespace = codes "n";
  name = codes "w";
  annotations = (annotation_ports, codes "a:80->8000") ∷ [];
  load_balancer_class = some (codes "svc-mux.nowake.ai/m");
  ports = http ∷ [];
  ingress = [];
}

two_namespaces :
    (names_mux (codes "m") (codes "one") unqualified ≡ true)
    × (names_mux (codes "m") (codes "two") unqualified ≡ true)
unfolding parse_mux_from_lb_class svc_lb_mux.Prelude.after_prefix api_prefix
    svc_lb_mux.Prelude.split Str-discrete
two_namespaces = (refl, refl)

class_of_one :
    get_mux_from_lb_class (or_blank unqualified.load_balancer_class) api_prefix (codes "one")
    ≡ ok (codes "one", codes "m")
unfolding get_mux_from_lb_class svc_lb_mux.Prelude.after_prefix api_prefix svc_lb_mux.Prelude.split
class_of_one = refl

names_mux-agrees_example : names_mux (codes "m") (codes "one") unqualified ≡ (
    ite (Str-discrete (codes "m") (codes "m")) true false
    && ite (Str-discrete (codes "one") (codes "one")) true false)
names_mux-agrees_example =
    names_mux-agrees unqualified (codes "m") (codes "one") (codes "one", codes "m") class_of_one

abbrev mux_object : ServiceObject
mux_object = record unqualified {
  name = codes "m";
  namespace = codes "one";
  annotations = (annotation_key (codes "multiplexer"), codes "true") ∷ [];
  load_balancer_class = none;
}

abbrev pod_address : PodAddress
pod_address = record {
  target_kind = some (codes "Pod");
  target_name = codes "p";
  target_namespace = codes "n";
  ip = codes "10.0.0.1";
  node_name = none;
}

abbrev client_one : Client
client_one = record {
  services = mux_object ∷ unqualified ∷ [];
  get_service = λ name namespace. some mux_object;
  get_endpoints = λ name namespace.
      some (record { addresses = pod_address ∷ []; not_ready_addresses = [] } ∷ []);
}

abbrev length_of : Str → JsonLength
length_of s = of_length 0

find_pod_route-IsFound_example :
    IsFound length_of client_one
      (codes "p")
      (codes "n")
      (find_pod_route length_of client_one (codes "p") (codes "n"))
find_pod_route-IsFound_example = find_pod_route-IsFound length_of client_one (codes "p") (codes "n")

abbrev pod_one : PodInfo
pod_one = record {
  name = codes "p";
  namespace = codes "n";
  ip = codes "i";
  node = none;
  ready = true;
}

abbrev route_one : PortRoute
route_one = record {
  mux_port = int (pos 8000);
  protocol = tcp;
  channel_name = codes "w";
  channel_namespace = codes "n";
  channel_port = int (pos 80);
  node_port = none;
  target_pods = pod_one ∷ [];
  channel_external_dns = none;
}

abbrev running_pod : Str → Str → Attempt (Option Pod)
running_pod name namespace = returned (
    some (record {
      phase = some (codes "Running");
      container_statuses = [];
      containers = (pos 80 ∷ []) ∷ [];
    }))

abbrev listening : Str → Str → List Str → Attempt Completed
listening name namespace command =
    returned (record { succeeded = true; stdout = codes "x"; stderr = [] })

-- the first tool is denied, the others see the port
abbrev first_denied : Str → Str → List Str → Attempt Completed
first_denied name namespace (a ∷ b ∷ (c ∷ rest) ∷ d) = elim (Str-discrete (c ∷ []) (codes "n")) [
  | yes e ↦ returned (record { succeeded = false; stdout = []; stderr = codes "permission denied" })
  | no ne ↦ returned (record { succeeded = true; stdout = codes "x"; stderr = [] })
]
first_denied name namespace command = raised []

denied_although_listening :
    diagnose_route_failure running_pod first_denied route_one
    ≡ codes "Permission denied when checking port: n/p"
unfolding diagnose_route_failure Str-discrete svc_lb_mux.Prelude.ℤ-discrete svc_lb_mux.Prelude.strip
    svc_lb_mux.Prelude.partition svc_lb_mux.Prelude.lower svc_lb_mux.Prelude.join
denied_although_listening = refl
