-- ===== src/Controller/Publish.antt =====
-- What `mux_daemon` of `src/controller.py` writes when the ports are known, with the metadata that
-- `src/reconcile.py` builds. `dumps` is `json.dumps` of a list of texts.
use svc_lb_mux.Prelude.{
  Bool, true, false, ◌&&◌, ◌||◌, not, Option, none, some, List, [], ◌∷◌, ◌++◌, if◌then◌else◌, ite,
  Str, codes, Str-discrete, is_empty, filter, map, length, Result, ok, ◌>>=◌,
}
use svc_lb_mux.Prelude.Dict.{Dict, keys, member, difference, get, put, update}
use svc_lb_mux.Prelude.Sort.{sort}
use svc_lb_mux.Model.{
  Channel, MuxPort, MuxPort-discrete, annotation_ports, annotation_key, Annotations, channel_leb,
}
use svc_lb_mux.Annotations.Topology.{is_text, format_topology_annotation, format_summary_annotation}
use svc_lb_mux.Reconcile.Endpoints.{
  Subset, ServiceKey, EndpointsCache, MuxEp, MuxEp-discrete, get_old_endpoints_set,
  get_current_endpoints_set, build_mux_ports, count_ready_channel_pods, channel_refs,
}
use svc_lb_mux.Reconcile.ExternalDns.{
  DnsConflict, aggregate_external_dns_annotations, external_dns_aggregation_conflicts,
  apply_aggregated_external_dns_annotations,
}

-- A patch of a channel Service by `update_channel_service_metadata`, over a type of statuses.
pub data ChannelPatch (Status : Type 0) : Type 0 where
  patch_annotation : Str → ChannelPatch Status
  patch_status : Status → ChannelPatch Status

abbrev pub is_annotation : Option Str → Str → Bool
is_annotation none s = false
is_annotation (some t) s = ite (Str-discrete t s) true false

-- `update_channel_service_metadata`; `status` is what the channel has
unfoldable pub update_channel_service_metadata :
    {Status : Type 0}
    → Discrete Status
    → Channel
    → Status
    → Str
    → Status
    → List (ChannelPatch Status)
update_channel_service_metadata dec channel status ports_annotation status_lb =
    (if is_annotation (get Str-discrete channel.annotations annotation_ports) ports_annotation
      then []
      else patch_annotation ports_annotation ∷ [])
    ++ ite (dec status status_lb) [] (patch_status status_lb ∷ [])

-- `comparable_annotations`
abbrev pub volatile_keys : List Str
volatile_keys =
    codes "kopf.zalando.org/last-handled-configuration"
    ∷ codes "kubectl.kubernetes.io/last-applied-configuration"
    ∷ []

unfoldable pub comparable_annotations : Annotations → Annotations
comparable_annotations annotations =
    filter (λ e. not (member Str-discrete e.0 volatile_keys)) annotations

-- `==` of two dictionaries: under every key of either they have the same
abbrev pub same_value : Option Str → Option Str → Bool
same_value none none = true
same_value none (some b) = false
same_value (some a) none = false
same_value (some a) (some b) = ite (Str-discrete a b) true false

unfoldable pub agree_on : List Str → Annotations → Annotations → Bool
agree_on [] a b = true
agree_on (k ∷ ks) a b = same_value (get Str-discrete a k) (get Str-discrete b k) && agree_on ks a b

unfoldable pub same_annotations : Annotations → Annotations → Bool
unfolding agree_on
same_annotations a b = agree_on (keys a) a b && agree_on (keys b) a b

-- `patch_annotations`: the desired values, and `None` for the keys that are to go
unfoldable pub with_values : Annotations → Dict Str (Option Str)
with_values [] = []
with_values ((k, v) ∷ d) = (k, some v) ∷ with_values d

unfoldable pub with_none : Dict Str (Option Str) → List Str → Dict Str (Option Str)
with_none d [] = d
with_none d (k ∷ ks) = with_none (put Str-discrete d k none) ks

unfoldable pub patch_annotations : Annotations → Annotations → Dict Str (Option Str)
unfolding with_values with_none
patch_annotations current desired =
    with_none (with_values desired) (difference Str-discrete (keys current) (keys desired))

-- `!=` of two sets
abbrev pub differ : {A : Type 0} → Discrete A → List A → List A → Bool
differ dec s t = not (is_empty (difference dec s t) && is_empty (difference dec t s))

-- The DNS text of the mux: the host name or the address of its first ingress.
unfoldable pub external_dns_of : List (Option Str × Option Str) → Option Str
external_dns_of [] = none
external_dns_of ((hostname, ip) ∷ ingress) = if is_text hostname then hostname else ip

-- What the daemon does with the Endpoints of the mux.
pub data EndpointsAction : Type 0 where
  create_endpoints patch_endpoints keep_endpoints : EndpointsAction

-- The events, by their reason.
pub data Notice : Type 0 where
  external_dns_conflict : DnsConflict → Notice
  mux_annotations_updated : Str → Notice
  mux_ports_changed : List MuxPort → List MuxPort → Notice
  mux_endpoints_changed : List MuxEp → List MuxEp → Notice
  mux_endpoints_created : Notice

-- The cached Endpoints of the mux, as far as the comparison reads them.
pub record OldEndpoints : Type 0 where
  pub exists : Bool
  pub labels : Annotations
  pub annotations : Annotations
  pub subsets : List Subset

pub record Published : Type 0 where
  pub annotations : Option (Dict Str (Option Str))
  pub ports : Option (List MuxPort)
  pub endpoints : EndpointsAction
  pub notices : List Notice

abbrev pub endpoints_action : Bool → Bool → EndpointsAction
endpoints_action false changed = create_endpoints
endpoints_action true true = patch_endpoints
endpoints_action true false = keep_endpoints

abbrev pub endpoints_notice : List MuxEp → List MuxEp → EndpointsAction → List Notice
endpoints_notice added removed create_endpoints = mux_endpoints_created ∷ []
endpoints_notice added removed patch_endpoints = mux_endpoints_changed added removed ∷ []
endpoints_notice added removed keep_endpoints = []

module _ (dumps : List Str → Str) where
  -- `build_generated_endpoints_metadata`: the labels and the annotations
  unfoldable pub build_generated_endpoints_metadata :
      Annotations → ServiceKey → List Channel → Annotations × Annotations
  unfolding channel_refs
  build_generated_endpoints_metadata mux_labels mux_key channels = (
    update Str-discrete mux_labels (
        (codes "app.kubernetes.io/managed-by", codes "svc-lb-mux")
        ∷ (codes "app.kubernetes.io/component", codes "mux-endpoints")
        ∷ []),
    (annotation_key (codes "managed"), codes "true")
        ∷ (annotation_key (codes "mux"), mux_key.0 ++ b'/' ∷ mux_key.1)
        ∷ (annotation_key (codes "channels"), dumps (channel_refs channels))
        ∷ [],
  )

  -- `desired_mux_annotations`
  unfoldable pub desired_mux_annotations :
      Annotations → List Channel → List Channel → Str → Str → Annotations
  desired_mux_annotations current channels sorted_channels topology summary =
      put Str-discrete
        (put Str-discrete
          (put Str-discrete
            (apply_aggregated_external_dns_annotations current
              (aggregate_external_dns_annotations sorted_channels))
            (annotation_key (codes "channels"))
            (dumps (map (λ c. c.namespace ++ b'/' ∷ c.name) channels)))
          (annotation_key (codes "topology")) topology)
        (annotation_key (codes "summary")) summary

  -- what is written, from the annotations, the ports and the endpoints, old and new
  unfoldable pub publish_to :
      Annotations
      → Annotations
      → Str
      → List MuxPort
      → List MuxPort
      → OldEndpoints
      → Annotations × Annotations
      → List Subset
      → Published
  unfolding same_annotations patch_annotations comparable_annotations
  publish_to current desired summary old_ports mux_ports old metadata endpoints =
      let old_sets = get_old_endpoints_set old.subsets in
      let new_sets = get_current_endpoints_set endpoints in
      let annotations_changed = not (same_annotations current desired) in
      let ports_changed = differ MuxPort-discrete old_ports mux_ports in
      let metadata_changed =
        not (same_annotations old.labels metadata.0)
        || not (
            same_annotations (comparable_annotations old.annotations)
              (comparable_annotations metadata.1)) in
      let action = endpoints_action old.exists (
        metadata_changed
        || differ MuxEp-discrete old_sets.0 new_sets.0
        || differ MuxEp-discrete old_sets.1 new_sets.1) in
      record {
        annotations =
            if annotations_changed then some (patch_annotations current desired) else none;
        ports = if ports_changed then some mux_ports else none;
        endpoints = action;
        notices =
            (if annotations_changed then mux_annotations_updated summary ∷ [] else [])
            ++ (if ports_changed
                then mux_ports_changed (difference MuxPort-discrete mux_ports old_ports)
                    (difference MuxPort-discrete old_ports mux_ports)
                  ∷ []
                else [])
            ++ endpoints_notice (difference MuxEp-discrete new_sets.0 old_sets.0)
                (difference MuxEp-discrete old_sets.0 new_sets.0) action;
      }

  -- the iteration behind the saved state
  unfoldable pub publish_pass :
      ServiceKey
      → Annotations
      → Annotations
      → List (Option Str × Option Str)
      → List Channel
      → EndpointsCache
      → List MuxPort
      → OldEndpoints
      → List MuxPort
      → List Subset
      → Result Published
  unfolding publish_to desired_mux_annotations build_generated_endpoints_metadata external_dns_of
  publish_pass mux_key labels current ingress channels cache old_ports old ports endpoints = do
    let sorted_channels = sort channel_leb channels
    let dns = external_dns_of ingress
    let summary =
        format_summary_annotation channels (length ports) (count_ready_channel_pods channels cache)
          dns
    topology ← format_topology_annotation channels cache dns
    let written =
        publish_to current
          (desired_mux_annotations current channels sorted_channels topology summary) summary
          old_ports (build_mux_ports ports) old
          (build_generated_endpoints_metadata labels mux_key sorted_channels) endpoints
    ok (record written {
      notices =
          map external_dns_conflict (external_dns_aggregation_conflicts current sorted_channels)
          ++ written.notices;
    })
