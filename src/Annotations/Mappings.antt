-- ===== src/Annotations/Mappings.antt =====
-- `format_channel_port_annotation` and `parse_port_mappings` of `src/annotations.py`.
use svc_lb_mux.Prelude.{
  Option, none, some, List, [], ◌∷◌, ◌++◌, if◌then◌else◌, Str, codes, Str-discrete, strip, split,
  partition, join, show_int, is_empty, map, ℤ, Result, ok, err, ◌>>=◌, bad_mapping,
}
use svc_lb_mux.Prelude.Dict.{Dict, put}
use svc_lb_mux.Model.{Value, int, text, null}

-- An f-string's text of a number.
abbrev pub show_value : Value → Str
show_value null = codes "None"
show_value (int z) = show_int z
show_value (text s) = s

-- The name, the channel's port and the mux port.
abbrev pub Mapping : Type 0
Mapping = Str × Value × ℤ

unfoldable pub format_mapping : Mapping → Str
format_mapping m = m.0 ++ b':' ∷ (show_value m.1 ++ b'-' ∷ (b'>' ∷ show_int m.2))

-- `format_channel_port_annotation`
unfoldable pub format_channel_port_annotation : List Mapping → Str
unfolding format_mapping
format_channel_port_annotation ports = join (codes ", ") (map format_mapping ports)

abbrev pub arrow : Str
arrow = b'-' ∷ b'>' ∷ []

-- the unpacking of `rest.split("->", 1)`, which raises if the arrow stands before the colon only
abbrev pub add_mapping : Dict Str Str → Str → Option (Str × Str) → Result (Dict Str Str)
add_mapping mappings name none = err bad_mapping
add_mapping mappings name (some (_, mux_port)) =
    ok (put Str-discrete mappings (strip name) (strip mux_port))

-- the loop's body behind the test for a colon and an arrow
abbrev pub parse_halves :
    Dict Str Str → Option (Str × Str) → Option (Str × Str) → Result (Dict Str Str)
parse_halves mappings none _ = ok mappings
parse_halves mappings (some _) none = ok mappings
parse_halves mappings (some (name, rest)) (some _) =
    add_mapping mappings name (partition arrow rest)

unfoldable pub parse_mapping : Dict Str Str → Str → Result (Dict Str Str)
parse_mapping mappings item =
    parse_halves mappings (partition (b':' ∷ []) item) (partition arrow item)

unfoldable pub parse_mappings : Dict Str Str → List Str → Result (Dict Str Str)
unfolding parse_mapping
parse_mappings mappings [] = ok mappings
parse_mappings mappings (item ∷ items) = do
  more ← parse_mapping mappings (strip item)
  parse_mappings more items

-- `parse_port_mappings`
unfoldable pub parse_port_mappings : Str → Result (Dict Str Str)
unfolding parse_mappings
parse_port_mappings value = if is_empty value then ok [] else parse_mappings [] (split b',' value)
