-- ===== src/Utils.antt =====
-- `src/utils.py`: the hostnames of an external-dns annotation.
use svc_lb_mux.Prelude.{
  Option, none, some, List, [], ◌∷◌, ◌++◌, if◌then◌else◌, Str, codes, strip, split, show_nat,
  is_empty, length,
}

-- the comprehension of `parse_external_dns`
unfoldable pub hosts_of : List Str → List Str
hosts_of [] = []
hosts_of (h ∷ hs) = let rest = hosts_of hs in if is_empty (strip h) then rest else strip h ∷ rest

-- `parse_external_dns`; the annotation may be `None`
unfoldable pub parse_external_dns : Option Str → List Str
unfolding hosts_of
parse_external_dns none = []
parse_external_dns (some annotation) =
    if is_empty annotation then [] else hosts_of (split b',' annotation)

abbrev pub first : List Str → Option Str
first [] = none
first (h ∷ hs) = some h

-- `get_primary_dns`
unfoldable pub get_primary_dns : Option Str → Option Str
unfolding parse_external_dns
get_primary_dns annotation = first (parse_external_dns annotation)

abbrev pub display : List Str → Option Str
display [] = none
display (h ∷ []) = some h
display (h ∷ hs) = some (h ++ (codes " (+" ++ (show_nat (length hs) ++ codes " more)")))

-- `format_dns_display`
unfoldable pub format_dns_display : Option Str → Option Str
unfolding parse_external_dns
format_dns_display annotation = display (parse_external_dns annotation)
