-- ===== src/Tests/Publish.antt =====
-- Tests of what is published: annotations and endpoints.
use svc_lb_mux.Controller.Publish.{OldEndpoints, Published, publish_to}
use svc_lb_mux.Controller.Applied.{after_patch, SamePorts, ports_after, publish_to-applied}
use svc_lb_mux.Model.{MuxPort}
use svc_lb_mux.Prelude.{none, ◌↔◌, false}
use svc_lb_mux.Reconcile.EndpointLaws.{get_endpoints_sets-agree}
use svc_lb_mux.Reconcile.Endpoints.{
  Subset, MuxEp, MuxEp-discrete, get_old_endpoints_set, get_current_endpoints_set,
}
use svc_lb_mux.Controller.Publish.{patch_annotations}
use svc_lb_mux.Controller.PublishLaws.{merged, patch_annotations-merged}
use svc_lb_mux.Model.{has_name}
use svc_lb_mux.Prelude.{some}
use svc_lb_mux.Prelude.{
  ℕ, ◌≡◌, ◌≢◌, ap, List, [], ◌∷◌, arith, if◌then◌else◌, ◌↔◌, Str, codes, Str-discrete, pos,
}
use svc_lb_mux.Prelude.Dict.{member, get}
use svc_lb_mux.Model.{
  Value, null, int, text, int_of, Port, Channel, MuxPort, MuxPort-discrete, PortKey,
  PortKey-discrete, PortAllocationRef, from_channel_port, key, or_tcp, or_empty, has_name, checked,
  annotation_ports, annotation_external_ports, annotation_external_dns_hostname,
  annotation_external_dns_aggregated, annotation_max_ports, annotation_key, tcp, Annotations,
  annotation_of, channel_leb,
}
use svc_lb_mux.Model.{Mux}
use svc_lb_mux.Reconcile.ExternalDns.{
  aggregated_keys, apply_aggregated_external_dns_annotations, external_dns_hostname,
}
use svc_lb_mux.Reconcile.ExternalDnsLaws.{published, managed_by, apply_aggregated-published}
use svc_lb_mux.Tests.Fixtures.{own_annotations, channel_annotations}

abbrev first_character : Str → ℕ
first_character [] = 0
first_character (c ∷ s) = c

tracking≢hostname : annotation_external_dns_aggregated ≢ external_dns_hostname
unfolding svc_lb_mux.Reconcile.ExternalDns.external_dns_hostname
    svc_lb_mux.Model.annotation_external_dns_aggregated svc_lb_mux.Model.annotation_key
    svc_lb_mux.Model.api_prefix
tracking≢hostname e = omega (arith, ap first_character e)

apply_aggregated-published_example :
    get Str-discrete
      (apply_aggregated_external_dns_annotations own_annotations channel_annotations)
      external_dns_hostname
    ≡ (if member Str-discrete external_dns_hostname aggregated_keys
        then published own_annotations
            (managed_by own_annotations)
            channel_annotations
            external_dns_hostname
        else get Str-discrete own_annotations external_dns_hostname)
apply_aggregated-published_example =
    apply_aggregated-published own_annotations channel_annotations external_dns_hostname
      tracking≢hostname

patch_annotations-merged_example :
    merged
      (get Str-discrete
        (patch_annotations own_annotations channel_annotations)
        external_dns_hostname)
      (get Str-discrete own_annotations external_dns_hostname)
    ≡ get Str-discrete channel_annotations external_dns_hostname
patch_annotations-merged_example =
    patch_annotations-merged own_annotations channel_annotations external_dns_hostname

abbrev two_pods : List Subset
two_pods =
    record {
      addresses = codes "10.0.0.1" ∷ codes "10.0.0.2" ∷ [];
      not_ready_addresses = [];
      ports = record { name = some (codes "a"); port = pos 8080; protocol = tcp } ∷ [];
    }
    ∷ []

abbrev second_pod : MuxEp
second_pod = record { ip = codes "10.0.0.2"; port = pos 8080; protocol = tcp }

get_endpoints_sets-agree_example :
    (member MuxEp-discrete second_pod (get_old_endpoints_set two_pods).0
      ≡ member MuxEp-discrete second_pod (get_current_endpoints_set two_pods).0)
    × (member MuxEp-discrete second_pod (get_old_endpoints_set two_pods).1
        ≡ member MuxEp-discrete second_pod (get_current_endpoints_set two_pods).1)
get_endpoints_sets-agree_example = get_endpoints_sets-agree two_pods second_pod

abbrev json_of : List Str → Str
json_of texts = codes "[]"

abbrev web_port : MuxPort
web_port = record { name = codes "a"; port = pos 8000; protocol = tcp }

abbrev no_endpoints : OldEndpoints
no_endpoints = record { exists = false; labels = []; annotations = []; subsets = [] }

abbrev written : Published
written =
    publish_to json_of own_annotations channel_annotations (codes "one channel") [] (web_port ∷ [])
      no_endpoints ([], []) two_pods

publish_to-applied_example :
    ((written.annotations ≡ none)
      ↔ ((k : Str) → get Str-discrete own_annotations k ≡ get Str-discrete channel_annotations k))
    × ((k : Str)
        → after_patch written.annotations own_annotations k
          ≡ get Str-discrete channel_annotations k)
    × ((written.ports ≡ none) ↔ SamePorts [] (web_port ∷ []))
    × SamePorts (ports_after written.ports []) (web_port ∷ [])
publish_to-applied_example =
    publish_to-applied json_of own_annotations channel_annotations (codes "one channel") []
      (web_port ∷ []) no_endpoints ([], []) two_pods
