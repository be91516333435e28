-- ===== src/Debug/Ports.antt =====
-- `parse_mux_port_annotation` of `src/debug_state.py`.
use svc_lb_mux.Prelude.{
  Option, none, some, List, [], ◌∷◌, if◌then◌else◌, Str, Str-discrete, strip, split, partition,
  is_empty, ℤ, int_of_text, Result, ok, err, ◌>>=◌, not_integer,
}
use svc_lb_mux.Prelude.Dict.{Dict, put}
use svc_lb_mux.Annotations.Mappings.{arrow}

-- the mux port of `port_spec`: behind the arrow, or all of it
abbrev pub behind_arrow : Str → Option (Str × Str) → Str
behind_arrow port_spec none = port_spec
behind_arrow port_spec (some (_, mux_port)) = mux_port

-- `mux_port_map[port_name.strip()] = int(...)`
abbrev pub set_mux_port : Dict Str ℤ → Str → Option ℤ → Result (Dict Str ℤ)
set_mux_port mux_port_map port_name none = err not_integer
set_mux_port mux_port_map port_name (some mux_port) =
    ok (put Str-discrete mux_port_map (strip port_name) mux_port)

-- the loop's body behind the test for a colon
abbrev pub read_mapping : Dict Str ℤ → Option (Str × Str) → Result (Dict Str ℤ)
read_mapping mux_port_map none = ok mux_port_map
read_mapping mux_port_map (some (port_name, port_spec)) =
    set_mux_port mux_port_map port_name
      (int_of_text (strip (behind_arrow port_spec (partition arrow port_spec))))

unfoldable pub read_mappings : Dict Str ℤ → List Str → Result (Dict Str ℤ)
read_mappings mux_port_map [] = ok mux_port_map
read_mappings mux_port_map (mapping ∷ mappings) = do
  more ← read_mapping mux_port_map (partition (b':' ∷ []) (strip mapping))
  read_mappings more mappings

-- `parse_mux_port_annotation`
unfoldable pub parse_mux_port_annotation : Str → Result (Dict Str ℤ)
unfolding read_mappings
parse_mux_port_annotation mux_ports_annotation =
    if is_empty mux_ports_annotation
    then ok []
    else read_mappings [] (split b',' mux_ports_annotation)
