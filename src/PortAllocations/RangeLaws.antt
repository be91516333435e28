-- ===== src/PortAllocations/RangeLaws.antt =====
-- What `parse_port_ranges` accepts, and the round trip with `_format_ranges`.
use svc_lb_mux.Prelude.{
  ℕ, ◌≤◌, ◌≡◌, refl, subst, false, List, [], ◌∷◌, arith, ◌==◌, Bool-cases, inl, inr, Str, strip,
  split, join, is_empty, map, show_nat, show_nat-NoSpace, show_nat-Lacks, int_of_text-show_nat, ok,
  All, partition-append, NoSpace, Lacks, strip-NoSpace, NoSpace-append, Lacks-append,
  is_empty-append, show_nat-ne-nil, partition-Lacks, split-join, >>=-eq-ok, ok-injective,
}
use svc_lb_mux.PortAllocations.Ranges.{
  Range, validate_port, parse_range, parse_items, parse_port_ranges, format_range, format_ranges,
}

-- A range of port numbers: not empty, and between 1 and 65535.
abbrev pub IsPortRange : Range → Type 0
IsPortRange r = (1 ≤ r.0) × (r.0 ≤ r.1) × (r.1 ≤ 65535)

parse_range-IsPortRange : (item : Str) (r : Range) → parse_range item ≡ ok r → IsPortRange r
unfolding parse_range
parse_range-IsPortRange item r h = ground arith

parse_items-IsPortRange :
    (items : List Str) (rs : List Range) → parse_items items ≡ ok rs → All IsPortRange rs
unfolding parse_items
parse_items-IsPortRange [] [] h = tt
parse_items-IsPortRange [] (r ∷ rs) h = cc
parse_items-IsPortRange (item ∷ items) rs h = elim (Bool-cases (is_empty (strip item))) [
  | inl blank ↦ parse_items-IsPortRange items rs (rw blank at h)
  | inr solid ↦
      let (r, first, more) = >>=-eq-ok (parse_range (strip item)) _ (rw solid at h) in
      let (rest, others, whole) = >>=-eq-ok (parse_items items) _ more in
      subst (All IsPortRange) (ok-injective whole)
        (parse_range-IsPortRange (strip item) r first, parse_items-IsPortRange items rest others)
]

-- Every range that `parse_port_ranges` returns has its start at most its end, and both are port
-- numbers.
pub parse_port_ranges-IsPortRange :
    (value : Str) (ranges : List Range)
    → parse_port_ranges value ≡ ok ranges
    → All IsPortRange ranges
unfolding parse_port_ranges
parse_port_ranges-IsPortRange [] [] h = tt
parse_port_ranges-IsPortRange [] (r ∷ rs) h = cc
parse_port_ranges-IsPortRange (c ∷ value) ranges h =
    parse_items-IsPortRange (split b',' (c ∷ value)) ranges h

validate_port-show_nat : (n : ℕ) → 1 ≤ n → n ≤ 65535 → validate_port (strip (show_nat n)) ≡ ok n
unfolding validate_port
validate_port-show_nat n low high =
    rw (strip-NoSpace (show_nat n) (show_nat-NoSpace n), int_of_text-show_nat n (omega arith))
      (ground arith)

-- A range's text has neither white space nor a comma, and is not empty.
format_range-shape :
    (r : Range)
    → NoSpace (format_range r) × Lacks b',' (format_range r) × (is_empty (format_range r) ≡ false)
unfolding format_range
format_range-shape r = elim (Bool-cases (r.0 == r.1)) [
  | inl one ↦
      rw one (show_nat-NoSpace r.0, show_nat-Lacks b',' r.0 (omega arith), show_nat-ne-nil r.0)
  | inr two ↦ rw two (
    NoSpace-append (show_nat r.0) (b'-' ∷ show_nat r.1) (show_nat-NoSpace r.0)
        (refl, show_nat-NoSpace r.1),
    Lacks-append b',' (show_nat r.0) (b'-' ∷ show_nat r.1) (show_nat-Lacks b',' r.0 (omega arith))
        (omega arith, show_nat-Lacks b',' r.1 (omega arith)),
    is_empty-append (show_nat r.0) _ (show_nat-ne-nil r.0),
  )
]

parse_range-format_range : (r : Range) → IsPortRange r → parse_range (format_range r) ≡ ok r
unfolding parse_range format_range
parse_range-format_range r (low, order, high) = elim (Bool-cases (r.0 == r.1)) [
  | inl one ↦
      rw
        (
          one,
          partition-Lacks b'-' [] (show_nat r.0) (show_nat-Lacks b'-' r.0 (omega arith)),
          validate_port-show_nat r.0 low (omega arith),
        )
        (ground arith)
  | inr two ↦
      rw
        (
          two,
          partition-append b'-' [] (show_nat r.0) (show_nat r.1)
              (show_nat-Lacks b'-' r.0 (omega arith)),
          validate_port-show_nat r.0 low (omega arith),
          validate_port-show_nat r.1 (omega arith) high,
        )
        (ground arith)
]

parse_items-format_range :
    (rs : List Range) → All IsPortRange rs → parse_items (map format_range rs) ≡ ok rs
unfolding parse_items
parse_items-format_range [] _ = refl
parse_items-format_range (r ∷ rs) (h, hs) =
    let (spaces, _, filled) = format_range-shape r in
    rw (
      strip-NoSpace (format_range r) spaces,
      filled,
      parse_range-format_range r h,
      parse_items-format_range rs hs,
    )

format_range-Lacks : (rs : List Range) → All (Lacks b',') (map format_range rs)
format_range-Lacks [] = tt
format_range-Lacks (r ∷ rs) = ((format_range-shape r).1, format_range-Lacks rs)

format_ranges-ne-nil : (r : Range) (rs : List Range) → is_empty (format_ranges (r ∷ rs)) ≡ false
unfolding format_ranges join
format_ranges-ne-nil r [] = (format_range-shape r).2
format_ranges-ne-nil r (q ∷ rs) = is_empty-append (format_range r) _ (format_range-shape r).2

-- The ranges that an error message prints are read back as they were, for all lists of ranges of
-- port numbers.
pub parse_port_ranges-format_ranges :
    (ranges : List Range)
    → All IsPortRange ranges
    → parse_port_ranges (format_ranges ranges) ≡ ok ranges
unfolding parse_port_ranges
parse_port_ranges-format_ranges [] _ = unfold format_ranges join in refl
parse_port_ranges-format_ranges (r ∷ rs) h = rw (format_ranges-ne-nil r rs) (
    unfold format_ranges in
    rw (split-join b',' (format_range r) (map format_range rs) (format_range-Lacks (r ∷ rs)))
      (parse_items-format_range (r ∷ rs) h))
