-- ===== src/Muxdebug/Parse.antt =====
-- What the debugger reads from texts: `_parse_mux_from_lb_class`, `_parse_channel_port_mappings` and
-- `_get_primary_external_host` of `tools/muxdebug/debugger.py`.
use svc_lb_mux.Prelude.{
  Option, none, some, List, [], ◌∷◌, ◌++◌, if◌then◌else◌, Str, Str-discrete, after_prefix, split,
  strip, partition, is_empty, int_of_text, ℤ, Result, ok, err, bad_lb_class, ◌>>=◌, map,
  bad_mapping,
}
use svc_lb_mux.Prelude.Dict.{Dict, put}
use svc_lb_mux.Model.{api_prefix}
use svc_lb_mux.Annotations.Mappings.{arrow}
use svc_lb_mux.Debug.State.{or_else}

-- `_parse_mux_from_lb_class`: the name and the namespace
abbrev pub mux_of_parts : Str → List Str → Result (Str × Str)
mux_of_parts default_namespace [] = err bad_lb_class
mux_of_parts default_namespace (name ∷ []) = ok (name, default_namespace)
mux_of_parts default_namespace (name ∷ namespace ∷ []) = ok (name, namespace)
mux_of_parts default_namespace (name ∷ namespace ∷ more ∷ parts) = ok (name, default_namespace)

abbrev pub mux_of_part : Str → Option Str → Result (Str × Str)
mux_of_part default_namespace none = err bad_lb_class
mux_of_part default_namespace (some mux_part) = mux_of_parts default_namespace (split b'.' mux_part)

unfoldable pub parse_mux_from_lb_class : Str → Str → Result (Str × Str)
parse_mux_from_lb_class lb_class default_namespace =
    mux_of_part default_namespace (after_prefix (api_prefix ++ b'/' ∷ []) lb_class)

-- `mappings[port_name.strip()] = int(...)`, which skips what is no integer
abbrev pub set_mapping : Dict Str ℤ → Str → Option ℤ → Dict Str ℤ
set_mapping mappings port_name none = mappings
set_mapping mappings port_name (some mux_port) =
    put Str-discrete mappings (strip port_name) mux_port

-- `rest.split("->", 1)`, whose unpacking raises without an arrow behind the colon
abbrev pub map_rest : Dict Str ℤ → Str → Option (Str × Str) → Result (Dict Str ℤ)
map_rest mappings port_name none = err bad_mapping
map_rest mappings port_name (some (_, mux_port_text)) =
    ok (set_mapping mappings port_name (int_of_text (strip mux_port_text)))

-- the body of the loop on a stripped item; an empty item has no colon
abbrev pub map_item : Dict Str ℤ → Option (Str × Str) → Option (Str × Str) → Result (Dict Str ℤ)
map_item mappings none _ = ok mappings
map_item mappings (some _) none = ok mappings
map_item mappings (some (port_name, rest)) (some _) =
    map_rest mappings port_name (partition arrow rest)

unfoldable pub map_items : Dict Str ℤ → List Str → Result (Dict Str ℤ)
map_items mappings [] = ok mappings
map_items mappings (item ∷ items) = do
  more ← map_item mappings (partition (b':' ∷ []) (strip item)) (partition arrow (strip item))
  map_items more items

-- `_parse_channel_port_mappings`
unfoldable pub parse_channel_port_mappings : Str → Result (Dict Str ℤ)
unfolding map_items
parse_channel_port_mappings value =
    if is_empty value then ok [] else map_items [] (split b',' value)

-- `_get_primary_external_host`
abbrev pub first_or_none : List Str → Option Str
first_or_none [] = none
first_or_none (entry ∷ _) = some entry

abbrev pub dns_host : Option Str → Option Str → Option Str → Option Str
dns_host none lb_hostname lb_ip = or_else lb_hostname lb_ip
dns_host (some []) lb_hostname lb_ip = or_else lb_hostname lb_ip
dns_host (some (c ∷ s)) lb_hostname lb_ip = first_or_none (map strip (split b',' (c ∷ s)))

unfoldable pub get_primary_external_host : Option Str → Option Str → Option Str → Option Str
get_primary_external_host external_dns lb_hostname lb_ip = dns_host external_dns lb_hostname lb_ip
