-- ===== src/PortAllocations/Store.antt =====
-- The class `ConfigMapAllocationStore` of `src/port_allocations.py`, with the JSON text behind
-- `dumps` and `loads` and the API server's merge of a patch behind `merge`.
use svc_lb_mux.Prelude.{
  Bool, true, false, Option, none, some, [], ◌∷◌, ◌++◌, if◌then◌else◌, ite, Str, codes,
  Str-discrete, is_empty, Result, ok, err, Exec, ◌>>=◌, foreign_configmap, foreign_state, bad_json,
  not_found, already_exists,
}
use svc_lb_mux.Prelude.Dict.{Dict}
use svc_lb_mux.Model.{annotation_key, Annotations, annotation_of}
use svc_lb_mux.MuxState.Defs.{StoredDocument}

-- A ConfigMap, as far as the store reads it.
pub record ConfigMap : Type 0 where
  pub annotations : Annotations
  pub entries : Dict Str Str

-- The store, with the ConfigMap of its name in the cluster.
pub record Store : Type 0 where
  pub namespace : Str
  pub name : Str
  pub mux_key : Str × Str
  pub cluster : Option ConfigMap
  pub exists : Bool

abbrev pub empty_document : StoredDocument
empty_document = record {
  schema_version = none;
  mux = none;
  port_claims = none;
  allocations = none;
}

-- `ALLOCATIONS_KEY`
unfoldable pub allocations_key : Str
allocations_key = codes "allocations.json"

unfoldable pub mux_annotation : Str
mux_annotation = annotation_key (codes "mux")

-- `mux_ref`
unfoldable pub mux_ref : Store → Str
mux_ref s = s.mux_key.0 ++ b'/' ∷ s.mux_key.1

-- `ConfigMapAllocationStore.__init__`
unfoldable pub new_store : Str → Str → Str × Str → Option ConfigMap → Store
new_store namespace name mux_key cluster = record {
  namespace = namespace;
  name = name;
  mux_key = mux_key;
  cluster = cluster;
  exists = false;
}

-- `_new_configmap`; its labels are constants
unfoldable pub new_configmap : Store → Dict Str Str → ConfigMap
unfolding mux_ref
new_configmap s entries = record {
  annotations = (mux_annotation, mux_ref s) ∷ [];
  entries = entries;
}

-- `_state_for_mux`
unfoldable pub state_for_mux : Store → StoredDocument → StoredDocument
state_for_mux s state = record state { schema_version = some 1; mux = some s.mux_key }

-- `_validate_configmap_owner`
unfoldable pub validate_configmap_owner : Store → ConfigMap → Result (Unit {0})
unfolding mux_ref
validate_configmap_owner s configmap =
    let owner = annotation_of configmap.annotations mux_annotation in
    if is_empty owner
    then ok tt
    else ite (Str-discrete owner (mux_ref s)) (ok tt) (err foreign_configmap)

abbrev pub same_mux : Str × Str → Str × Str → Bool
same_mux a b = ite (Str-discrete a.0 b.0) (ite (Str-discrete a.1 b.1) true false) false

-- `_validate_state_owner`
unfoldable pub validate_state_owner : Store → StoredDocument → Result (Unit {0})
validate_state_owner s state = elim state.mux [
  | none ↦ ok tt
  | some mux ↦ if same_mux mux s.mux_key then ok tt else err foreign_state
]

module _ (dumps : StoredDocument → Str) (loads : Str → Option StoredDocument)
    (merge : Annotations → Dict Str Str → ConfigMap → ConfigMap) where
  -- `encode_state`
  unfoldable pub encode_state : StoredDocument → Dict Str Str
  encode_state state = (allocations_key, dumps state) ∷ []

  abbrev pub decoded : Option StoredDocument → Result StoredDocument
  decoded none = err bad_json
  decoded (some state) = ok state

  -- `decode_state`
  unfoldable pub decode_state : Dict Str Str → Result StoredDocument
  decode_state entries =
      let raw = annotation_of entries allocations_key in
      if is_empty raw then ok empty_document else decoded (loads raw)

  abbrev pub load_configmap : Store → ConfigMap → Result StoredDocument
  load_configmap s configmap = do
    _ ← validate_configmap_owner s configmap
    state ← decode_state configmap.entries
    _ ← validate_state_owner s state
    ok state

  -- `load`
  unfoldable pub load : Exec Store StoredDocument
  unfolding validate_configmap_owner decode_state validate_state_owner
  load s = elim s.cluster [
    | none ↦ (ok empty_document, record s { exists = false })
    | some configmap ↦ (load_configmap s configmap, record s { exists = true })
  ]

  -- `self.configmap.patch` and `self.configmap.create`, with the API server's refusals
  abbrev pub patch_configmap : Dict Str Str → Option ConfigMap → Exec Store (Unit {0})
  patch_configmap entries none s = (err not_found, s)
  patch_configmap entries (some configmap) s = (
    ok tt,
    record s { cluster = some (merge ((mux_annotation, mux_ref s) ∷ []) entries configmap) },
  )

  abbrev pub create_configmap : Dict Str Str → Option ConfigMap → Exec Store (Unit {0})
  create_configmap entries (some configmap) s = (err already_exists, s)
  create_configmap entries none s =
      (ok tt, record s { cluster = some (new_configmap s entries); exists = true })

  -- `save`
  unfoldable pub save : StoredDocument → Exec Store (Unit {0})
  unfolding state_for_mux encode_state new_configmap mux_ref
  save state s =
      let entries = encode_state (state_for_mux s state) in
      if s.exists then patch_configmap entries s.cluster s else create_configmap entries s.cluster s
