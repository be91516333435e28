-- ===== src/PortAllocations/Ranges.antt =====
-- `parse_port_ranges`, `contains_port` and `_format_ranges` of `src/port_allocations.py`.
use svc_lb_mux.Prelude.{
  ℕ, Bool, false, ◌&&◌, Option, none, some, List, [], ◌∷◌, ◌++◌, ltb, leb, ◌==◌, if◌then◌else◌, Str,
  strip, split, partition, join, is_empty, any, map, ℤ, pos, negsuc, int_of_text, show_nat, Result,
  ok, err, ◌>>=◌, inverted_range,
}
use svc_lb_mux.Model.{checked}

abbrev pub Range : Type 0
Range = ℕ × ℕ

-- `_validate_port`
unfoldable pub validate_port : Str → Result ℕ
validate_port value = checked (int_of_text value)

-- the two texts of an item
abbrev pub bounds_of : Str → Option (Str × Str) → Str × Str
bounds_of item none = (item, item)
bounds_of item (some (start, end)) = (start, end)

abbrev pub in_order : ℕ → ℕ → Result Range
in_order start end = if ltb end start then err inverted_range else ok (start, end)

-- one round of the loop of `parse_port_ranges`, on an item that is not blank
unfoldable pub parse_range : Str → Result Range
unfolding validate_port
parse_range item = do
  let texts = bounds_of item (partition (b'-' ∷ []) item)
  start ← validate_port (strip texts.0)
  end ← validate_port (strip texts.1)
  in_order start end

unfoldable pub parse_items : List Str → Result (List Range)
unfolding parse_range
parse_items [] = ok []
parse_items (item ∷ items) =
    let rest = parse_items items in
    if is_empty (strip item) then rest else do r ← parse_range (strip item); rs ← rest; ok (r ∷ rs)

unfoldable pub parse_port_ranges : Str → Result (List Range)
unfolding parse_items
parse_port_ranges value = if is_empty value then ok [] else parse_items (split b',' value)

-- `start <= port <= end`
abbrev pub within : ℤ → Range → Bool
within (pos n) r = leb r.0 n && leb n r.1
within (negsuc n) r = false

unfoldable pub contains_port : List Range → ℤ → Bool
contains_port ranges port = any (within port) ranges

unfoldable pub format_range : Range → Str
format_range r = if r.0 == r.1 then show_nat r.0 else show_nat r.0 ++ b'-' ∷ show_nat r.1

-- `_format_ranges`
unfoldable pub format_ranges : List Range → Str
unfolding format_range
format_ranges ranges = join (b',' ∷ []) (map format_range ranges)
