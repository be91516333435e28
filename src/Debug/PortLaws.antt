-- ===== src/Debug/PortLaws.antt =====
-- What `parse_mux_port_annotation` of `src/debug_state.py` reads from the controller's annotations.
use svc_lb_mux.Prelude.{
  ◌≡◌, refl, List, [], ◌∷◌, All, All-map, Str, Str-discrete, strip, strip-NoSpace, partition, map,
  ok, err, ℤ, none, not_integer, NoSpace, Lacks, split-Lacks, partition-append, partition-Lacks,
  int_of_text, ◌++◌, is_empty, false, join,
}
use svc_lb_mux.Prelude.Dict.{Dict, put}
use svc_lb_mux.Annotations.Mappings.{Mapping, format_mapping, format_channel_port_annotation}
use svc_lb_mux.Annotations.Items.{
  IsPortMapping, put_mux_ports, split-format, format-ne-nil, partition-format_mapping,
}
use svc_lb_mux.Debug.Ports.{read_mapping, read_mappings, parse_mux_port_annotation}

read_mapping-format_mapping :
    (d : Dict Str ℤ) (m : Mapping)
    → IsPortMapping m
    → read_mapping d (partition (b':' ∷ []) (format_mapping m)) ≡ ok (put Str-discrete d m.0 m.2)
read_mapping-format_mapping d m h =
    let (rest, before, port, colon, dash, number) = partition-format_mapping m h in
    rw (colon, dash, number, strip-NoSpace m.0 h.0.0.0)

read_mappings-format :
    (d : Dict Str ℤ) (items : List Str) (ms : List Mapping)
    → map strip items ≡ map format_mapping ms
    → All IsPortMapping ms
    → read_mappings d items ≡ ok (put_mux_ports d ms)
unfolding read_mappings
read_mappings-format d [] [] same h = refl
read_mappings-format d [] (m ∷ ms) same h = cc
read_mappings-format d (item ∷ items) [] same h = cc
read_mappings-format d (item ∷ items) (m ∷ ms) same (h, hs) =
    let first : strip item ≡ format_mapping m = cc same in
    let others : map strip items ≡ map format_mapping ms = cc same in
    rw (first, read_mapping-format_mapping d m h)
      (read_mappings-format (put Str-discrete d m.0 m.2) items ms others hs)

-- The annotation that a channel is given is read by the debug page as the mux ports that the
-- controller wrote, each under its name, the last one if a name stands twice. The names are those of
-- Kubernetes, the ports are not negative, and the mux ports have at most five digits.
pub parse_mux_port_annotation-format :
    (ms : List Mapping)
    → All IsPortMapping ms
    → parse_mux_port_annotation (format_channel_port_annotation ms) ≡ ok (put_mux_ports [] ms)
unfolding parse_mux_port_annotation
parse_mux_port_annotation-format [] h = unfold format_channel_port_annotation join in refl
parse_mux_port_annotation-format (m ∷ ms) h =
    rw (format-ne-nil m ms)
      (read_mappings-format [] _ (m ∷ ms) (split-format m ms (All-map (m ∷ ms) (λ x p. p.0) h)) h)

-- A text with a port name whose port is no number makes `parse_mux_port_annotation` raise.
pub parse_mux_port_annotation_raises :
    (name port : Str)
    → NoSpace (name ++ b':' ∷ port)
    → Lacks b',' (name ++ b':' ∷ port)
    → Lacks b':' name
    → Lacks b'-' port
    → int_of_text (strip port) ≡ none
    → parse_mux_port_annotation (name ++ b':' ∷ port) ≡ err not_integer
unfolding parse_mux_port_annotation read_mappings
parse_mux_port_annotation_raises name port spaces commas colons arrows bad =
    rw
      (
        not_empty name port,
        split-Lacks b',' (name ++ b':' ∷ port) commas,
        strip-NoSpace (name ++ b':' ∷ port) spaces,
        partition-append b':' [] name port colons,
        partition-Lacks b'-' (b'>' ∷ []) port arrows,
        bad,
      )
      refl
  where
    not_empty : (name port : Str) → is_empty (name ++ b':' ∷ port) ≡ false
    not_empty [] port = refl
    not_empty (c ∷ name) port = refl
