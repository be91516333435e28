-- ===== src/Reconcile/ExternalDns.antt =====
-- The external-dns annotations of `src/reconcile.py`: what the mux publishes for its channels.
use svc_lb_mux.Prelude.{
  Bool, true, false, ◌&&◌, not, Option, none, some, List, [], ◌∷◌, ◌++◌, if◌then◌else◌, ite, Str,
  codes, Str-discrete, strip, lower, split, join, is_empty, filter,
}
use svc_lb_mux.Prelude.Dict.{member, add, union, get, put, remove}
use svc_lb_mux.Prelude.Sort.{sort}
use svc_lb_mux.Model.{
  Channel, annotation_external_dns_hostname, annotation_external_dns_aggregated, Annotations,
  annotation_of, channel_leb,
}
use svc_lb_mux.Utils.{hosts_of, parse_external_dns}

unfoldable pub external_dns_hostname : Str
external_dns_hostname = codes "external-dns.alpha.kubernetes.io/hostname"

unfoldable pub external_dns_cloudflare_proxied : Str
external_dns_cloudflare_proxied = codes "external-dns.alpha.kubernetes.io/cloudflare-proxied"

-- `AGGREGATED_EXTERNAL_DNS_ANNOTATIONS`
abbrev pub aggregated_keys : List Str
aggregated_keys = external_dns_hostname ∷ external_dns_cloudflare_proxied ∷ []

-- `parse_aggregated_external_dns_keys`
unfoldable pub parse_aggregated_external_dns_keys : Option Str → List Str
unfolding hosts_of
parse_aggregated_external_dns_keys none = []
parse_aggregated_external_dns_keys (some value) =
    if is_empty value then [] else hosts_of (split b',' value)

-- `format_aggregated_external_dns_keys`
unfoldable pub format_aggregated_external_dns_keys : List Str → Str
format_aggregated_external_dns_keys ks =
    join (b',' ∷ []) (filter (λ k. member Str-discrete k ks) aggregated_keys)

-- `channel_external_dns_hostname`
unfoldable pub channel_external_dns_hostname : Channel → Option Str
channel_external_dns_hostname channel =
    get Str-discrete channel.annotations annotation_external_dns_hostname

-- The variables of the loop of `aggregate_external_dns_annotations`: the hostnames, which are also
-- those seen, and the conjunction of the proxied values, if one was seen.
pub record Aggregate : Type 0 where
  pub hostnames : List Str
  pub saw_cloudflare_proxied : Bool
  pub cloudflare_proxied : Bool

unfoldable pub add_proxied : Option Str → Aggregate → Aggregate
add_proxied none a = a
add_proxied (some value) a =
    let proxied_value = lower (strip value) in
    ite (Str-discrete proxied_value (codes "true")) (record a { saw_cloudflare_proxied = true })
      (ite (Str-discrete proxied_value (codes "false"))
        (record a { saw_cloudflare_proxied = true; cloudflare_proxied = false }) a)

unfoldable pub add_channel : Channel → Aggregate → Aggregate
unfolding add_proxied channel_external_dns_hostname
add_channel channel a =
    add_proxied (get Str-discrete channel.annotations external_dns_cloudflare_proxied) (record a {
      hostnames =
          union Str-discrete a.hostnames
            (parse_external_dns (channel_external_dns_hostname channel));
    })

unfoldable pub add_channels : List Channel → Aggregate → Aggregate
unfolding add_channel
add_channels [] a = a
add_channels (c ∷ cs) a = add_channels cs (add_channel c a)

abbrev pub text_of_bool : Bool → Str
text_of_bool true = codes "true"
text_of_bool false = codes "false"

unfoldable pub published_annotations : Aggregate → Annotations
published_annotations a =
    (if is_empty a.hostnames
      then []
      else (external_dns_hostname, join (b',' ∷ []) a.hostnames) ∷ [])
    ++ (if a.saw_cloudflare_proxied
        then (external_dns_cloudflare_proxied, text_of_bool a.cloudflare_proxied) ∷ []
        else [])

-- `aggregate_external_dns_annotations`
unfoldable pub aggregate_external_dns_annotations : List Channel → Annotations
unfolding add_channels published_annotations
aggregate_external_dns_annotations channels = published_annotations (
    add_channels (sort channel_leb channels)
      (record { hostnames = []; saw_cloudflare_proxied = false; cloudflare_proxied = true }))

abbrev pub is_present : Option Str → Bool
is_present none = false
is_present (some _) = true

-- The key is among the annotations, and the controller does not manage it.
unfoldable pub is_user_owned : Annotations → List Str → Str → Bool
is_user_owned annotations managed_keys k =
    is_present (get Str-discrete annotations k) && not (member Str-discrete k managed_keys)

-- A channel, its annotation, and the annotation of the mux that it cannot reach.
abbrev pub DnsConflict : Type 0
DnsConflict = Channel × Str × Str

unfoldable pub conflicts_of : Bool → Bool → Channel → List DnsConflict
conflicts_of hostname_user_owned cloudflare_user_owned channel =
    (if hostname_user_owned
        && not (is_empty (annotation_of channel.annotations annotation_external_dns_hostname))
      then (channel, annotation_external_dns_hostname, external_dns_hostname) ∷ []
      else [])
    ++ (if cloudflare_user_owned
          && is_present (get Str-discrete channel.annotations external_dns_cloudflare_proxied)
        then (channel, external_dns_cloudflare_proxied, external_dns_cloudflare_proxied) ∷ []
        else [])

unfoldable pub conflicts_of_channels : Bool → Bool → List Channel → List DnsConflict
unfolding conflicts_of
conflicts_of_channels hostname cloudflare [] = []
conflicts_of_channels hostname cloudflare (c ∷ cs) =
    conflicts_of hostname cloudflare c ++ conflicts_of_channels hostname cloudflare cs

-- `external_dns_aggregation_conflicts`
unfoldable pub external_dns_aggregation_conflicts : Annotations → List Channel → List DnsConflict
unfolding conflicts_of_channels is_user_owned
external_dns_aggregation_conflicts mux_annotations channels =
    let managed_keys =
      parse_aggregated_external_dns_keys
        (get Str-discrete mux_annotations annotation_external_dns_aggregated) in
    conflicts_of_channels (is_user_owned mux_annotations managed_keys external_dns_hostname)
      (is_user_owned mux_annotations managed_keys external_dns_cloudflare_proxied)
      (sort channel_leb channels)

-- the end of the body of the loop: the aggregated value is published or the key is removed
abbrev pub publish : Str → Annotations × List Str → Option Str → Annotations × List Str
publish k (desired, next_managed_keys) none = (remove Str-discrete desired k, next_managed_keys)
publish k (desired, next_managed_keys) (some value) =
    (put Str-discrete desired k value, add Str-discrete k next_managed_keys)

-- the body of the loop of `apply_aggregated_external_dns_annotations`
unfoldable pub apply_key :
    List Str → Annotations → Str → Annotations × List Str → Annotations × List Str
unfolding is_user_owned
apply_key managed_keys aggregated k p =
    if is_user_owned p.0 managed_keys k then p else publish k p (get Str-discrete aggregated k)

unfoldable pub apply_keys :
    List Str → Annotations → List Str → Annotations × List Str → Annotations × List Str
unfolding apply_key
apply_keys managed_keys aggregated [] p = p
apply_keys managed_keys aggregated (k ∷ ks) p =
    apply_keys managed_keys aggregated ks (apply_key managed_keys aggregated k p)

abbrev pub track : Annotations × List Str → Annotations
track (desired, []) = remove Str-discrete desired annotation_external_dns_aggregated
track (desired, k ∷ ks) =
    put Str-discrete desired annotation_external_dns_aggregated
      (format_aggregated_external_dns_keys (k ∷ ks))

-- `apply_aggregated_external_dns_annotations`
unfoldable pub apply_aggregated_external_dns_annotations : Annotations → Annotations → Annotations
unfolding apply_keys parse_aggregated_external_dns_keys
apply_aggregated_external_dns_annotations annotations aggregated = track (
    apply_keys
      (parse_aggregated_external_dns_keys
        (get Str-discrete annotations annotation_external_dns_aggregated))
      aggregated aggregated_keys (annotations, []))
