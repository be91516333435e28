-- ===== src/Tests/Text.antt =====
-- Tests of the texts: port ranges, port mappings and references.
use svc_lb_mux.Prelude.{
  ◌≡◌, refl, List, [], ◌∷◌, arith, All, codes, strip, split, partition, int_of_text, pos, ok, err,
  bad_mapping,
}
use svc_lb_mux.Model.{int}
use svc_lb_mux.Annotations.Mappings.{Mapping, parse_port_mappings}
use svc_lb_mux.Annotations.RoundTrip.{IsMapping, lost_mapping, parse_port_mappings_raises}
use svc_lb_mux.Refs.{is_label, get_mux_from_lb_class}
use svc_lb_mux.Refs.Laws.{IsLabel, get_mux_from_lb_class-reference}
use svc_lb_mux.PortAllocations.Ranges.{Range, parse_port_ranges, format_ranges}
use svc_lb_mux.PortAllocations.RangeLaws.{
  IsPortRange, parse_port_ranges-IsPortRange, parse_port_ranges-format_ranges,
}

abbrev two_ranges : List Range
two_ranges = (8000, 8001) ∷ (9000, 9000) ∷ []

two_ranges-IsPortRange : All IsPortRange two_ranges
two_ranges-IsPortRange =
    ((omega arith, omega arith, omega arith), ((omega arith, omega arith, omega arith), tt))

parse_test : parse_port_ranges (codes " 8000-8001,, 9000 ") ≡ ok two_ranges
unfolding parse_port_ranges split strip int_of_text partition
parse_test = refl

parse_port_ranges-IsPortRange_example : All IsPortRange two_ranges
parse_port_ranges-IsPortRange_example =
    parse_port_ranges-IsPortRange (codes " 8000-8001,, 9000 ") two_ranges parse_test

parse_port_ranges-format_ranges_example :
    parse_port_ranges (format_ranges two_ranges) ≡ ok two_ranges
parse_port_ranges-format_ranges_example =
    parse_port_ranges-format_ranges two_ranges two_ranges-IsPortRange

abbrev two_mappings : List Mapping
two_mappings = (codes "a", int (pos 80), pos 8000) ∷ (codes "b", int (pos 53), pos 5353) ∷ []

two_mappings-IsMapping : All IsMapping two_mappings
two_mappings-IsMapping = (
  (
    ((refl, tt), ((λ e. omega (arith, e)), tt), ((λ e. omega (arith, e)), tt)),
    (80, refl),
    (8000, refl),
  ),
  (
    (
      ((refl, tt), ((λ e. omega (arith, e)), tt), ((λ e. omega (arith, e)), tt)),
      (53, refl),
      (5353, refl),
    ),
    tt,
  ),
)

parse_port_mappings_raises_example :
    parse_port_mappings (lost_mapping (codes "a") (codes "b") (codes "8")) ≡ err bad_mapping
parse_port_mappings_raises_example =
    parse_port_mappings_raises (codes "a") (codes "b") (codes "8")
      (refl, (refl, (refl, (refl, (refl, (refl, tt))))))
      (
        (λ e. omega (arith, e)),
        (
          (λ e. omega (arith, e)),
          (
            (λ e. omega (arith, e)),
            ((λ e. omega (arith, e)), ((λ e. omega (arith, e)), ((λ e. omega (arith, e)), tt))),
          ),
        ),
      )
      (
        (λ e. omega (arith, e)),
        ((λ e. omega (arith, e)), ((λ e. omega (arith, e)), ((λ e. omega (arith, e)), tt))),
      )
      ((λ e. omega (arith, e)), tt)

m-IsLabel : IsLabel (codes "m-1")
unfolding is_label
m-IsLabel = (refl, omega arith)

n-IsLabel : IsLabel (codes "n")
unfolding is_label
n-IsLabel = (refl, omega arith)

get_mux_from_lb_class-reference_example :
    (get_mux_from_lb_class (codes "svc/m-1.n") (codes "svc") (codes "n")
      ≡ ok (codes "n", codes "m-1"))
    × (get_mux_from_lb_class (codes "svc/m-1") (codes "svc") (codes "n")
        ≡ ok (codes "n", codes "m-1"))
get_mux_from_lb_class-reference_example =
    get_mux_from_lb_class-reference (codes "svc") (codes "n") (codes "m-1") (codes "n") m-IsLabel
      n-IsLabel n-IsLabel
