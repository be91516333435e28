-- ===== src/Tests/Store.antt =====
-- Tests of the ConfigMap store.
use svc_lb_mux.PortAllocations.Store.{ConfigMap, Store, mux_ref, state_for_mux, load, save}
use svc_lb_mux.PortAllocations.StoreLaws.{IsMerge, IsMarked, load-save, load-save_foreign}
use svc_lb_mux.Prelude.{◌+◌, ◌∙◌, sym, if_pos, if_neg}
use svc_lb_mux.Prelude.{foreign_configmap}
use svc_lb_mux.Prelude.{
  ℕ, ◌+◌, ◌≡◌, ◌≢◌, refl, sym, ap, ◌∙◌, true, Option, some, [], ◌∷◌, ◌++◌, arith, if_pos, if_neg,
  Str, codes, Str-discrete, ok, err,
}
use svc_lb_mux.Prelude.Dict.{Dict, get}
use svc_lb_mux.Model.{Annotations}
use svc_lb_mux.MuxState.Defs.{StoredDocument}
use svc_lb_mux.PortAllocations.Store.{empty_document}
use svc_lb_mux.Tests.Fixtures.{mux_one}

abbrev put_before : Annotations → Dict Str Str → ConfigMap → ConfigMap
put_before annotations entries c = record {
  annotations = annotations ++ c.annotations;
  entries = entries ++ c.entries;
}

get-append :
    (d e : Annotations) (k v : Str)
    → get Str-discrete d k ≡ some v
    → get Str-discrete (d ++ e) k ≡ some v
unfolding get
get-append [] e k v h = cc
get-append ((j, w) ∷ d) e k v h = elim (Str-discrete j k) [
  | yes same ↦
      if_pos (Str-discrete j k) same (some w) (get Str-discrete (d ++ e) k)
      ∙ sym (if_pos (Str-discrete j k) same (some w) (get Str-discrete d k))
      ∙ h
  | no other ↦
      if_neg (Str-discrete j k) other (some w) (get Str-discrete (d ++ e) k)
      ∙ get-append d e k v
          (sym (if_neg (Str-discrete j k) other (some w) (get Str-discrete d k)) ∙ h)
]

put_before-IsMerge : IsMerge put_before
put_before-IsMerge annotations entries c k v =
    (get-append annotations c.annotations k v, get-append entries c.entries k v)

abbrev store_one : Store
store_one = record {
  namespace = codes "n";
  name = codes "state";
  mux_key = mux_one;
  cluster = some (record { annotations = []; entries = [] });
  exists = true;
}

store_one-IsMarked : IsMarked store_one
store_one-IsMarked = refl

abbrev json : StoredDocument → Str
json d = codes "{}"

abbrev saved_document : StoredDocument
saved_document = state_for_mux store_one empty_document

abbrev of_json : Str → Option StoredDocument
of_json s = some saved_document

load-save_example :
    ((save json of_json put_before empty_document store_one).0 ≡ ok tt)
    × ((load json of_json put_before (save json of_json put_before empty_document store_one).1).0
        ≡ ok (state_for_mux store_one empty_document))
load-save_example =
    load-save json of_json put_before put_before-IsMerge store_one empty_document (refl, refl)
      store_one-IsMarked

abbrev store_two : Store
store_two = record (save json of_json put_before empty_document store_one).1 {
  mux_key = (codes "n", codes "m-2");
}

abbrev sum_of : Str → ℕ
sum_of [] = 0
sum_of (c ∷ s) = c + sum_of s

other_mux : mux_ref store_one ≢ mux_ref store_two
unfolding mux_ref
other_mux e = omega (arith, ap sum_of e)

load-save_foreign_example : (load json of_json put_before store_two).0 ≡ err foreign_configmap
load-save_foreign_example =
    load-save_foreign json of_json put_before put_before-IsMerge store_one empty_document
      (refl, refl) store_two store_one-IsMarked refl other_mux
