-- ===== src/Muxdebug/PortLaws.antt =====
-- What the debugger reads from the annotation that `format_channel_port_annotation` writes.
use svc_lb_mux.Prelude.{
  ◌≡◌, refl, List, [], ◌∷◌, All, All-map, Str, Str-discrete, strip, strip-NoSpace, partition, map,
  ok, ℤ, join,
}
use svc_lb_mux.Prelude.Dict.{Dict, put}
use svc_lb_mux.Annotations.Mappings.{Mapping, format_mapping, format_channel_port_annotation, arrow}
use svc_lb_mux.Annotations.Items.{
  IsPortMapping, put_mux_ports, split-format, format-ne-nil, partition-format_mapping,
  arrow-format_mapping,
}
use svc_lb_mux.Debug.Ports.{parse_mux_port_annotation}
use svc_lb_mux.Annotations.Mappings.{parse_port_mappings}
use svc_lb_mux.Annotations.RoundTrip.{put_mappings, parse_port_mappings-format}
use svc_lb_mux.Debug.PortLaws.{parse_mux_port_annotation-format}
use svc_lb_mux.Muxdebug.Parse.{map_item, map_items, parse_channel_port_mappings}

map_item-format_mapping :
    (d : Dict Str ℤ) (m : Mapping)
    → IsPortMapping m
    → map_item d (partition (b':' ∷ []) (format_mapping m)) (partition arrow (format_mapping m))
      ≡ ok (put Str-discrete d m.0 m.2)
map_item-format_mapping d m h =
    let (rest, before, port, colon, dash, number) = partition-format_mapping m h in
    let (halves, arrow_there) = arrow-format_mapping m h in
    rw (colon, arrow_there, dash, number, strip-NoSpace m.0 h.0.0.0) refl

map_items-format :
    (d : Dict Str ℤ) (items : List Str) (ms : List Mapping)
    → map strip items ≡ map format_mapping ms
    → All IsPortMapping ms
    → map_items d items ≡ ok (put_mux_ports d ms)
unfolding map_items
map_items-format d [] [] same h = refl
map_items-format d [] (m ∷ ms) same h = cc
map_items-format d (item ∷ items) [] same h = cc
map_items-format d (item ∷ items) (m ∷ ms) same (h, hs) =
    let first : strip item ≡ format_mapping m = cc same in
    let others : map strip items ≡ map format_mapping ms = cc same in
    rw (first, map_item-format_mapping d m h)
      (map_items-format (put Str-discrete d m.0 m.2) items ms others hs)

parse_channel_port_mappings-format :
    (ms : List Mapping)
    → All IsPortMapping ms
    → parse_channel_port_mappings (format_channel_port_annotation ms) ≡ ok (put_mux_ports [] ms)
unfolding parse_channel_port_mappings
parse_channel_port_mappings-format [] h = unfold format_channel_port_annotation join in refl
parse_channel_port_mappings-format (m ∷ ms) h =
    rw (format-ne-nil m ms)
      (map_items-format [] _ (m ∷ ms) (split-format m ms (All-map (m ∷ ms) (λ x p. p.0) h)) h)

-- The controller, the debug page and the debugger read the annotation that the controller writes
-- alike: the mux ports under their names, as text or as numbers, the last one if a name stands
-- twice. The names are those of Kubernetes, the ports are not negative, and the mux ports have at
-- most five digits.
pub ports-format :
    (ms : List Mapping)
    → All IsPortMapping ms
    → (parse_port_mappings (format_channel_port_annotation ms) ≡ ok (put_mappings [] ms))
      × (parse_mux_port_annotation (format_channel_port_annotation ms) ≡ ok (put_mux_ports [] ms))
      × (parse_channel_port_mappings (format_channel_port_annotation ms) ≡ ok (put_mux_ports [] ms))
ports-format ms h = (
  parse_port_mappings-format ms (All-map ms (λ x p. p.0) h),
  parse_mux_port_annotation-format ms h,
  parse_channel_port_mappings-format ms h,
)
