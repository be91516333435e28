-- ===== src/Refs.antt =====
-- `src/refs.py`: the mux that a `loadBalancerClass` names.
pub mod Laws
use svc_lb_mux.Prelude.{
  ℕ, Bool, true, false, ◌&&◌, ◌||◌, not, Option, none, some, List, [], ◌∷◌, ◌++◌, ltb, leb, ◌==◌,
  if◌then◌else◌, Str, split, after_prefix, is_empty, length, Result, ok, err, ◌>>=◌, bad_lb_class,
  bad_label,
}

-- `[a-z0-9]`
abbrev pub is_alnum : ℕ → Bool
is_alnum c = (leb b'a' c && leb c b'z') || (leb b'0' c && leb c b'9')

-- `([-a-z0-9]*[a-z0-9])?`
unfoldable pub is_label_rest : Str → Bool
is_label_rest [] = true
is_label_rest (c ∷ []) = is_alnum c
is_label_rest (c ∷ d ∷ s) = (is_alnum c || c == b'-') && is_label_rest (d ∷ s)

unfoldable pub is_label : Str → Bool
unfolding is_label_rest
is_label [] = false
is_label (c ∷ s) = is_alnum c && is_label_rest s

-- `$` also matches before a newline at the end.
unfoldable pub without_newline : Str → Str
without_newline [] = []
without_newline (c ∷ []) = if c == 10 then [] else c ∷ []
without_newline (c ∷ d ∷ s) = c ∷ without_newline (d ∷ s)

-- `DNS_LABEL_RE.match`
unfoldable pub matches_label : Str → Bool
unfolding is_label without_newline
matches_label value = is_label (without_newline value)

-- `validate_dns_label`
unfoldable pub validate_dns_label : Str → Result (Unit {0})
unfolding matches_label
validate_dns_label value =
    if is_empty value || ltb 63 (length value) || not (matches_label value)
    then err bad_label
    else ok tt

-- the parts of the reference between its dots, as namespace and name
abbrev pub mux_of_parts : Str → List Str → Result (Str × Str)
mux_of_parts default_mux_namespace (name ∷ []) = ok (default_mux_namespace, name)
mux_of_parts default_mux_namespace (name ∷ namespace ∷ []) = ok (namespace, name)
mux_of_parts default_mux_namespace _ = err bad_lb_class

abbrev pub mux_of_ref : Str → Option Str → Result (Str × Str)
mux_of_ref default_mux_namespace none = err bad_lb_class
mux_of_ref default_mux_namespace (some mux_ref) =
    mux_of_parts default_mux_namespace (split b'.' mux_ref)

-- `get_mux_from_lb_class`
unfoldable pub get_mux_from_lb_class : Str → Str → Str → Result (Str × Str)
unfolding validate_dns_label
get_mux_from_lb_class cls api_prefix default_mux_namespace = do
  mux ← mux_of_ref default_mux_namespace (after_prefix (api_prefix ++ b'/' ∷ []) cls)
  _ ← validate_dns_label mux.1
  _ ← validate_dns_label mux.0
  ok mux
