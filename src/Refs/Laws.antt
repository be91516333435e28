-- ===== src/Refs/Laws.antt =====
-- Which references `get_mux_from_lb_class` accepts.
use svc_lb_mux.Prelude.{
  ◌≤◌, ◌≡◌, refl, ap, true, false, [], ◌∷◌, ◌++◌, arith, Str, split-append, split-Lacks,
  after_prefix-append, length-append, Lacks, is_empty-append, is_empty, length, ok,
}
use svc_lb_mux.Refs.{
  is_label_rest, is_label, without_newline, matches_label, validate_dns_label,
  get_mux_from_lb_class,
}

-- A DNS label of Kubernetes.
abbrev pub IsLabel : Str → Type 0
IsLabel s = (is_label s ≡ true) × (length s ≤ 63)

label_rest-Lacks : (s : Str) → is_label_rest s ≡ true → Lacks b'.' s
unfolding is_label_rest
label_rest-Lacks [] h = tt
label_rest-Lacks (c ∷ []) h = (λ e. ground arith, tt)
label_rest-Lacks (c ∷ d ∷ s) h = (λ e. ground arith, label_rest-Lacks (d ∷ s) (ground arith))

label-Lacks : (s : Str) → is_label s ≡ true → Lacks b'.' s
unfolding is_label
label-Lacks [] h = tt
label-Lacks (c ∷ s) h = (λ e. ground arith, label_rest-Lacks s (ground arith))

label_rest-newline : (s : Str) → is_label_rest s ≡ true → without_newline s ≡ s
unfolding is_label_rest without_newline
label_rest-newline [] h = refl
label_rest-newline (c ∷ []) h = ground arith
label_rest-newline (c ∷ d ∷ s) h = ap (λ t. c ∷ t) (label_rest-newline (d ∷ s) (ground arith))

label-newline : (s : Str) → is_label s ≡ true → without_newline s ≡ s
unfolding is_label
label-newline [] h = unfold without_newline in refl
label-newline (c ∷ []) h = unfold without_newline in ground arith
label-newline (c ∷ d ∷ s) h =
    unfold without_newline in ap (λ t. c ∷ t) (label_rest-newline (d ∷ s) (ground arith))

newline_dropped : (s : Str) → without_newline (s ++ 10 ∷ []) ≡ s
unfolding without_newline
newline_dropped [] = refl
newline_dropped (c ∷ []) = refl
newline_dropped (c ∷ d ∷ s) = ap (λ t. c ∷ t) (newline_dropped (d ∷ s))

label-is_empty : (s : Str) → is_label s ≡ true → is_empty s ≡ false
unfolding is_label
label-is_empty [] h = cc
label-is_empty (c ∷ s) h = refl

IsLabel-valid : (s : Str) → IsLabel s → validate_dns_label s ≡ ok tt
unfolding validate_dns_label matches_label
IsLabel-valid s (h, n) = rw (label-newline s h, h, label-is_empty s h) (ground arith)

label_rest-newline_not : (s : Str) → is_label_rest (s ++ 10 ∷ []) ≡ false
unfolding is_label_rest
label_rest-newline_not [] = refl
label_rest-newline_not (c ∷ []) = ground arith
label_rest-newline_not (c ∷ d ∷ s) = ground (arith, label_rest-newline_not (d ∷ s))

label-newline_not : (s : Str) → is_label (s ++ 10 ∷ []) ≡ false
unfolding is_label
label-newline_not [] = unfold is_label_rest in refl
label-newline_not (c ∷ s) = ground (arith, label_rest-newline_not s)

-- A label of at most 62 characters with a newline behind it passes `validate_dns_label`, although
-- it is no label.
pub validate_dns_label_newline :
    (s : Str)
    → is_label s ≡ true
    → length s ≤ 62
    → (validate_dns_label (s ++ 10 ∷ []) ≡ ok tt) × (is_label (s ++ 10 ∷ []) ≡ false)
unfolding validate_dns_label matches_label
validate_dns_label_newline s h n = (
  rw
      (
        newline_dropped s,
        h,
        is_empty-append s (10 ∷ []) (label-is_empty s h),
        length-append s (10 ∷ []),
      )
      (ground arith),
  label-newline_not s,
)

-- A reference to a mux with its namespace gives the namespace and the name, one without it the
-- default namespace and the name, if they are all labels of at most 63 characters.
pub get_mux_from_lb_class-reference :
    (prefix default_namespace name namespace : Str)
    → IsLabel name
    → IsLabel namespace
    → IsLabel default_namespace
    → (get_mux_from_lb_class
          ((prefix ++ b'/' ∷ []) ++ (name ++ b'.' ∷ namespace))
          prefix
          default_namespace
        ≡ ok (namespace, name))
      × (get_mux_from_lb_class ((prefix ++ b'/' ∷ []) ++ name) prefix default_namespace
          ≡ ok (default_namespace, name))
unfolding get_mux_from_lb_class
get_mux_from_lb_class-reference prefix default_namespace name namespace hn hs hd = (
  rw
      (
        after_prefix-append (prefix ++ b'/' ∷ []) (name ++ b'.' ∷ namespace),
        split-append b'.' name namespace (label-Lacks name hn.0),
        split-Lacks b'.' namespace (label-Lacks namespace hs.0),
        IsLabel-valid name hn,
        IsLabel-valid namespace hs,
      )
      refl,
  rw
      (
        after_prefix-append (prefix ++ b'/' ∷ []) name,
        split-Lacks b'.' name (label-Lacks name hn.0),
        IsLabel-valid name hn,
        IsLabel-valid default_namespace hd,
      )
      refl,
)
