-- ===== src/Annotations/RoundTrip.antt =====
-- What `parse_port_mappings` reads back from `format_channel_port_annotation`, and what it raises on.
use svc_lb_mux.Prelude.{
  ℕ, ◌≡◌, refl, sym, ap, subst, ◌∙◌, false, some, List, [], ◌∷◌, ◌++◌, append_assoc, arith, All,
  Str, codes, Str-discrete, strip, strip-NoSpace, strip_space, split, partition, partition-append,
  partition_found, partition-Lacks, partition_found, split-append, split-Lacks, join, NoSpace,
  Lacks, NoSpace-append, Lacks-append, is_empty-append, show_nat-NoSpace, show_nat-Lacks, show_int,
  show_nat, is_empty, map, pos, ok, err, bad_mapping,
}
use svc_lb_mux.Prelude.Dict.{Dict, put}
use svc_lb_mux.Model.{int}
use svc_lb_mux.Annotations.Mappings.{
  Mapping, format_mapping, format_channel_port_annotation, arrow, parse_mapping, parse_mappings,
  parse_port_mappings,
}

-- A port's name as Kubernetes has it: without white space, commas and colons.
abbrev pub IsPortName : Str → Type 0
IsPortName name = NoSpace name × Lacks b',' name × Lacks b':' name

-- A mapping of a named port between two port numbers.
abbrev pub IsMapping : Mapping → Type 0
IsMapping m = IsPortName m.0 × ((n : ℕ) × (m.1 ≡ int (pos n))) × ((n : ℕ) × (m.2 ≡ pos n))

-- What the annotation says: each name with the text of its mux port, the last one if a name stands
-- twice.
abbrev pub put_mappings : Dict Str Str → List Mapping → Dict Str Str
put_mappings d [] = d
put_mappings d (m ∷ ms) = put_mappings (put Str-discrete d m.0 (show_int m.2)) ms

unfoldable pub mapping_text : Str → ℕ → ℕ → Str
mapping_text name a b = name ++ b':' ∷ (show_nat a ++ b'-' ∷ (b'>' ∷ show_nat b))

-- An item of the list is taken as the mapping that it shows.
parse_mapping_text :
    (d : Dict Str Str) (name : Str) (a b : ℕ)
    → IsPortName name
    → parse_mapping d (mapping_text name a b) ≡ ok (put Str-discrete d name (show_nat b))
unfolding parse_mapping mapping_text
parse_mapping_text d name a b (spaces, _, colons) =
    let (r, found) = partition_found b'-' (b'>' ∷ []) (name ++ b':' ∷ show_nat a) (show_nat b) in
    let arrow_there : partition arrow (name ++ b':' ∷ (show_nat a ++ b'-' ∷ (b'>' ∷ show_nat b)))
        ≡ some r =
      ap (partition arrow)
        (sym (append_assoc name (b':' ∷ show_nat a) (b'-' ∷ (b'>' ∷ show_nat b))))
      ∙ found in
    rw (
      partition-append b':' [] name (show_nat a ++ b'-' ∷ (b'>' ∷ show_nat b)) colons,
      arrow_there,
      partition-append b'-' (b'>' ∷ []) (show_nat a) (show_nat b)
          (show_nat-Lacks b'-' a (omega arith)),
      strip-NoSpace name spaces,
      strip-NoSpace (show_nat b) (show_nat-NoSpace b),
    )

pub mapping_text-shape :
    (name : Str) (a b : ℕ)
    → IsPortName name
    → NoSpace (mapping_text name a b) × Lacks b',' (mapping_text name a b)
unfolding mapping_text
mapping_text-shape name a b (spaces, commas, _) = (
  NoSpace-append name _ spaces
      (refl, NoSpace-append (show_nat a) _ (show_nat-NoSpace a) (refl, (refl, show_nat-NoSpace b))),
  Lacks-append b',' name _ commas (
    omega arith,
    Lacks-append b',' (show_nat a) _ (show_nat-Lacks b',' a (omega arith))
        (omega arith, (omega arith, show_nat-Lacks b',' b (omega arith))),
  ),
)

pub format_mapping-text :
    (m : Mapping) (h : IsMapping m) → format_mapping m ≡ mapping_text m.0 h.1.0 h.2.0
unfolding format_mapping mapping_text show_int
format_mapping-text (name, v, z) (_, (a, e), (b, f)) = rw (e, f)

parse_mapping-format_mapping :
    (d : Dict Str Str) (m : Mapping)
    → IsMapping m
    → parse_mapping d (strip (format_mapping m)) ≡ ok (put Str-discrete d m.0 (show_int m.2))
unfolding show_int
parse_mapping-format_mapping d (name, v, z) (h, (a, e), (b, f)) =
    let (spaces, _) = mapping_text-shape name a b h in
    rw
      (
        format_mapping-text (name, v, z) (h, (a, e), (b, f)),
        strip-NoSpace (mapping_text name a b) spaces,
        f,
      )
      (parse_mapping_text d name a b h)

pub format_mapping-Lacks : (m : Mapping) → IsMapping m → Lacks b',' (format_mapping m)
format_mapping-Lacks m h =
    subst (Lacks b',') (sym (format_mapping-text m h)) (mapping_text-shape m.0 h.1.0 h.2.0 h.0).1

-- White space before an item does not count. `lead` is the space that stands before all but the first.
abbrev pub IsLead : Str → Type 0
IsLead lead = Lacks b',' lead × ((t : Str) → strip (lead ++ t) ≡ strip t)

pub space-IsLead : IsLead (32 ∷ [])
space-IsLead = ((omega arith, tt), λ t. strip_space t)

parse_mappings-join :
    (lead : Str) (d : Dict Str Str) (m : Mapping) (ms : List Mapping)
    → IsLead lead
    → All IsMapping (m ∷ ms)
    → parse_mappings d (split b',' (lead ++ join (codes ", ") (map format_mapping (m ∷ ms))))
      ≡ ok (put_mappings d (m ∷ ms))
unfolding parse_mappings join
parse_mappings-join lead d m [] (commas, spaces) (h, _) = rw (
  split-Lacks b',' (lead ++ format_mapping m)
      (Lacks-append b',' lead (format_mapping m) commas (format_mapping-Lacks m h)),
  spaces (format_mapping m),
  parse_mapping-format_mapping d m h,
)
parse_mappings-join lead d m (q ∷ ms) (commas, spaces) (h, hs) =
    let rest = 32 ∷ join (codes ", ") (map format_mapping (q ∷ ms)) in
    rw
      (
        sym (append_assoc lead (format_mapping m) (b',' ∷ rest)),
        split-append b',' (lead ++ format_mapping m) rest
            (Lacks-append b',' lead (format_mapping m) commas (format_mapping-Lacks m h)),
        spaces (format_mapping m),
        parse_mapping-format_mapping d m h,
      )
      (parse_mappings-join (32 ∷ []) (put Str-discrete d m.0 (show_int m.2)) q ms space-IsLead hs)

pub format_mapping-ne-nil : (m : Mapping) → is_empty (format_mapping m) ≡ false
unfolding format_mapping
format_mapping-ne-nil ([], v, z) = refl
format_mapping-ne-nil (c ∷ name, v, z) = refl

-- The annotation that a channel is given is read back as its mappings: each name with the decimal
-- text of its mux port. The names are those of Kubernetes, the ports are not negative.
pub parse_port_mappings-format :
    (ms : List Mapping)
    → All IsMapping ms
    → parse_port_mappings (format_channel_port_annotation ms) ≡ ok (put_mappings [] ms)
unfolding parse_port_mappings format_channel_port_annotation
parse_port_mappings-format [] h = unfold join in refl
parse_port_mappings-format (m ∷ ms) h =
    rw (annotation-ne-nil m ms) (parse_mappings-join [] [] m ms (tt, λ t. refl) h)
  where
    annotation-ne-nil :
        (m : Mapping) (ms : List Mapping)
        → is_empty (join (codes ", ") (map format_mapping (m ∷ ms))) ≡ false
    annotation-ne-nil m [] = unfold join in format_mapping-ne-nil m
    annotation-ne-nil m (q ∷ ms) =
        unfold join in is_empty-append (format_mapping m) _ (format_mapping-ne-nil m)

-- A mapping with its arrow before its colon.
abbrev pub lost_mapping : Str → Str → Str → Str
lost_mapping before after port = (before ++ b'-' ∷ (b'>' ∷ after)) ++ b':' ∷ port

parse_mapping_lost :
    (d : Dict Str Str) (before after port : Str)
    → Lacks b':' (before ++ b'-' ∷ (b'>' ∷ after))
    → Lacks b'-' port
    → parse_mapping d (lost_mapping before after port) ≡ err bad_mapping
unfolding parse_mapping
parse_mapping_lost d before after port colons arrows =
    let (r, found) = partition_found b'-' (b'>' ∷ []) before (after ++ b':' ∷ port) in
    let split_at = partition-append b':' [] (before ++ b'-' ∷ (b'>' ∷ after)) port colons in
    let no_arrow = partition-Lacks b'-' (b'>' ∷ []) port arrows in
    let assoc = append_assoc before (b'-' ∷ (b'>' ∷ after)) (b':' ∷ port) in
    rw (split_at, ap (partition arrow) assoc ∙ found, no_arrow) refl

-- A text without white space and commas that has an arrow before its first colon and no dash behind
-- it makes `parse_port_mappings` raise, although it means to skip what it cannot read.
pub parse_port_mappings_raises :
    (before after port : Str)
    → NoSpace (lost_mapping before after port)
    → Lacks b',' (lost_mapping before after port)
    → Lacks b':' (before ++ b'-' ∷ (b'>' ∷ after))
    → Lacks b'-' port
    → parse_port_mappings (lost_mapping before after port) ≡ err bad_mapping
unfolding parse_port_mappings parse_mappings
parse_port_mappings_raises before after port spaces commas colons arrows =
    let text = lost_mapping before after port in
    rw
      (
        is_not_empty before after port,
        split-Lacks b',' text commas,
        strip-NoSpace text spaces,
        parse_mapping_lost [] before after port colons arrows,
      )
      refl
  where
    is_not_empty : (before after port : Str) → is_empty (lost_mapping before after port) ≡ false
    is_not_empty [] after port = refl
    is_not_empty (c ∷ before) after port = refl
