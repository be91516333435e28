-- ===== src/Annotations/Topology.antt =====
-- The texts of `src/annotations.py` that describe a mux to a reader.
use svc_lb_mux.Prelude.{
  ℕ, ◌+◌, Bool, false, not, Option, none, some, List, [], ◌∷◌, ◌++◌, if◌then◌else◌, Str, codes,
  Str-discrete, join, show_nat, is_empty, length, Result, ok, ◌>>=◌,
}
use svc_lb_mux.Prelude.Dict.{Dict, get}
use svc_lb_mux.Prelude.Sort.{sort}
use svc_lb_mux.Model.{
  Value, Port, Channel, annotation_ports, annotation_external_dns_hostname, annotation_of,
  channel_leb,
}
use svc_lb_mux.Utils.{get_primary_dns, format_dns_display}
use svc_lb_mux.Annotations.Mappings.{show_value, parse_port_mappings}
use svc_lb_mux.Reconcile.Endpoints.{EndpointsCache, cached, count_addresses}

-- `a or b` for texts that may be missing or empty
abbrev pub or_text : Option Str → Str → Str
or_text none other = other
or_text (some []) other = other
or_text (some (c ∷ s)) other = c ∷ s

-- the optional DNS text of the mux, as a test and as a text
abbrev pub is_text : Option Str → Bool
is_text none = false
is_text (some s) = not (is_empty s)

unfoldable pub dns_lines : Option Str → List Str
dns_lines none = []
dns_lines (some dns) =
    if is_empty dns
    then []
    else (codes "Mux DNS: " ++ or_text (format_dns_display (some dns)) dns) ∷ [] ∷ []

-- the DNS text of a channel: its own, or that of the mux
unfoldable pub channel_dns : Option Str → Option Str → Str
channel_dns mux_external_dns annotation =
    if is_text annotation
    then or_text (format_dns_display annotation) (or_text annotation []) ++ codes " (custom)"
    else or_text (get_primary_dns mux_external_dns) (codes "pending")

-- `mux_port_mappings.get(port_name, p.get("nodePort", "pending"))`
abbrev pub port_or_pending : Option Str → Option Value → Str
port_or_pending (some s) node_port = s
port_or_pending none (some v) = show_value v
port_or_pending none none = codes "pending"

abbrev pub or_unnamed : Option Str → Str
or_unnamed none = codes "unnamed"
or_unnamed (some s) = s

unfoldable pub port_text : Dict Str Str → Port → Str
port_text mappings p =
    codes " "
    ++ (or_unnamed p.name
        ++ b':'
          ∷ (show_value p.port
              ++ codes "->"
              ++ port_or_pending (get Str-discrete mappings (or_unnamed p.name)) p.node_port))

unfoldable pub ports_line : Dict Str Str → List Port → Str
unfolding port_text
ports_line mappings [] = []
ports_line mappings (p ∷ ps) = port_text mappings p ++ ports_line mappings ps

-- the lines of one channel; its annotation of ports may raise
unfoldable pub channel_lines : Option Str → EndpointsCache → Channel → Result (List Str)
unfolding channel_dns ports_line count_addresses
channel_lines mux_external_dns endpoints channel = do
  mappings ← parse_port_mappings (annotation_of channel.annotations annotation_ports)
  ok (
      (codes "  - " ++ (channel.namespace ++ b'/' ∷ channel.name))
      ∷ (codes "    DNS: "
          ++ channel_dns mux_external_dns
              (get Str-discrete channel.annotations annotation_external_dns_hostname))
      ∷ (codes "    Ports:" ++ ports_line mappings channel.ports)
      ∷ (codes "    Backend: "
          ++ (show_nat (count_addresses (cached endpoints (channel.namespace, channel.name)))
              ++ codes " pod(s) ready"))
      ∷ [])

unfoldable pub channels_lines : Option Str → EndpointsCache → List Channel → Result (List Str)
unfolding channel_lines
channels_lines mux_external_dns endpoints [] = ok []
channels_lines mux_external_dns endpoints (c ∷ cs) = do
  lines ← channel_lines mux_external_dns endpoints c
  more ← channels_lines mux_external_dns endpoints cs
  ok (lines ++ more)

-- the totals of the loop
unfoldable pub total_ports : List Channel → ℕ
total_ports [] = 0
total_ports (c ∷ cs) = length c.ports + total_ports cs

unfoldable pub total_ready_pods : EndpointsCache → List Channel → ℕ
unfolding count_addresses
total_ready_pods endpoints [] = 0
total_ready_pods endpoints (c ∷ cs) =
    count_addresses (cached endpoints (c.namespace, c.name)) + total_ready_pods endpoints cs

-- `format_topology_annotation`
unfoldable pub format_topology_annotation : List Channel → EndpointsCache → Option Str → Result Str
unfolding dns_lines channels_lines total_ports total_ready_pods
format_topology_annotation channels endpoints mux_external_dns = do
  let ordered = sort channel_leb channels
  lines ← channels_lines mux_external_dns endpoints ordered
  ok (
      join (10 ∷ []) (
        dns_lines mux_external_dns
        ++ codes "Channels:" ∷ []
        ++ lines
        ++ []
          ∷ (codes "Summary: "
              ++ (show_nat (length channels)
                  ++ codes " channel(s), "
                  ++ show_nat (total_ports ordered)
                  ++ codes " port(s), "
                  ++ show_nat (total_ready_pods endpoints ordered)
                  ++ codes " backend pod(s)"))
          ∷ []))

-- `format_summary_annotation`
unfoldable pub format_summary_annotation : List Channel → ℕ → ℕ → Option Str → Str
format_summary_annotation channels ports pods mux_external_dns =
    show_nat (length channels)
    ++ codes " channel(s) | "
    ++ show_nat ports
    ++ codes " port(s) | "
    ++ show_nat pods
    ++ codes " pod(s) | "
    ++ (if is_text (format_dns_display mux_external_dns)
        then codes "DNS: " ++ or_text (format_dns_display mux_external_dns) []
        else codes "DNS: pending")
