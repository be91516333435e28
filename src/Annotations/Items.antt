-- ===== src/Annotations/Items.antt =====
-- The items of the text that `format_channel_port_annotation` of `src/annotations.py` writes, as a
-- reader sees them that splits at the commas and strips.
use svc_lb_mux.Prelude.{
  ℕ, ◌≡◌, ◌∙◌, ◌<◌, refl, sym, ap, false, some, List, [], ◌∷◌, ◌++◌, append_assoc, arith, All, Str,
  codes, strip, strip-NoSpace, split, split-append, split-Lacks, join, Lacks-append,
  is_empty-append, is_empty, map, ℤ, partition, partition-append, partition_found, show_nat,
  show_nat-Lacks, show_nat-NoSpace, int_of_text, int_of_text-show_nat, Str-discrete,
}
use svc_lb_mux.Prelude.Dict.{Dict, put}
use svc_lb_mux.Annotations.Mappings.{Mapping, format_mapping, format_channel_port_annotation, arrow}
use svc_lb_mux.Annotations.RoundTrip.{
  IsMapping, mapping_text, mapping_text-shape, format_mapping-text, format_mapping-Lacks, IsLead,
  space-IsLead, format_mapping-ne-nil,
}

strip-format_mapping : (m : Mapping) → IsMapping m → strip (format_mapping m) ≡ format_mapping m
strip-format_mapping m h =
    rw (format_mapping-text m h) (strip-NoSpace _ (mapping_text-shape m.0 h.1.0 h.2.0 h.0).0)

split-joined :
    (lead : Str) (m : Mapping) (ms : List Mapping)
    → IsLead lead
    → All IsMapping (m ∷ ms)
    → map strip (split b',' (lead ++ join (codes ", ") (map format_mapping (m ∷ ms))))
      ≡ map format_mapping (m ∷ ms)
unfolding join
split-joined lead m [] (commas, spaces) (h, _) = rw (
  split-Lacks b',' (lead ++ format_mapping m)
      (Lacks-append b',' lead (format_mapping m) commas (format_mapping-Lacks m h)),
  spaces (format_mapping m),
  strip-format_mapping m h,
)
split-joined lead m (q ∷ ms) (commas, spaces) (h, hs) =
    let rest = 32 ∷ join (codes ", ") (map format_mapping (q ∷ ms)) in
    rw
      (
        sym (append_assoc lead (format_mapping m) (b',' ∷ rest)),
        split-append b',' (lead ++ format_mapping m) rest
            (Lacks-append b',' lead (format_mapping m) commas (format_mapping-Lacks m h)),
        spaces (format_mapping m),
        strip-format_mapping m h,
      )
      (ap (format_mapping m ∷◌) (split-joined (32 ∷ []) q ms space-IsLead hs))

-- The stripped items are the mappings as they were written.
pub split-format :
    (m : Mapping) (ms : List Mapping)
    → All IsMapping (m ∷ ms)
    → map strip (split b',' (format_channel_port_annotation (m ∷ ms))) ≡ map format_mapping (m ∷ ms)
unfolding format_channel_port_annotation
split-format m ms h = split-joined [] m ms (tt, λ t. refl) h

pub format-ne-nil :
    (m : Mapping) (ms : List Mapping) → is_empty (format_channel_port_annotation (m ∷ ms)) ≡ false
unfolding format_channel_port_annotation join
format-ne-nil m [] = format_mapping-ne-nil m
format-ne-nil m (q ∷ ms) = is_empty-append (format_mapping m) _ (format_mapping-ne-nil m)

-- A mapping whose mux port is a number of up to five digits.
abbrev pub IsPortMapping : Mapping → Type 0
IsPortMapping m = (h : IsMapping m) × (h.2.0 < 100000)

-- What the annotation says, as numbers.
abbrev pub put_mux_ports : Dict Str ℤ → List Mapping → Dict Str ℤ
put_mux_ports d [] = d
put_mux_ports d (m ∷ ms) = put_mux_ports (put Str-discrete d m.0 m.2) ms

-- The parts of a written mapping.
pub partition-format_mapping :
    (m : Mapping)
    → IsPortMapping m
    → (rest : Str) × (before : Str) × (port : Str) × (partition (b':' ∷ []) (format_mapping m)
        ≡ some (m.0, rest))
      × (partition arrow rest ≡ some (before, port))
      × (int_of_text (strip port) ≡ some m.2)
unfolding mapping_text
partition-format_mapping m (h, small) =
    let (a, b) : ℕ × ℕ = (h.1.0, h.2.0) in
    (
      show_nat a ++ b'-' ∷ (b'>' ∷ show_nat b),
      show_nat a,
      show_nat b,
      rw (format_mapping-text m h) (partition-append b':' [] m.0 _ h.0.2),
      partition-append b'-' (b'>' ∷ []) (show_nat a) (show_nat b)
          (show_nat-Lacks b'-' a (omega arith)),
      rw (strip-NoSpace (show_nat b) (show_nat-NoSpace b), int_of_text-show_nat b small)
          (ap some (sym h.2.1)),
    )

pub arrow-format_mapping :
    (m : Mapping)
    → IsPortMapping m
    → (halves : Str × Str) × (partition arrow (format_mapping m) ≡ some halves)
unfolding mapping_text
arrow-format_mapping m (h, small) =
    let (a, b) : ℕ × ℕ = (h.1.0, h.2.0) in
    let (r, found) = partition_found b'-' (b'>' ∷ []) (m.0 ++ b':' ∷ show_nat a) (show_nat b) in
    (
      r,
      rw (format_mapping-text m h) (
          ap (partition arrow)
            (sym (append_assoc m.0 (b':' ∷ show_nat a) (b'-' ∷ (b'>' ∷ show_nat b))))
          ∙ found),
    )
