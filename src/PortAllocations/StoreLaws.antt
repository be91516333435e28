-- ===== src/PortAllocations/StoreLaws.antt =====
-- What the store of the state reads back, and which mux may read it.
use svc_lb_mux.Prelude.{
  ◌≡◌, ◌≢◌, refl, ◌∙◌, true, false, Bool, if◌then◌else◌, Option, none, some, [], ◌∷◌, ◌++◌, ite,
  if_pos, if_neg, Str, Str-discrete, is_empty, ok, err, foreign_configmap,
}
use svc_lb_mux.Prelude.Dict.{Dict, get}
use svc_lb_mux.Model.{Annotations}
use svc_lb_mux.MuxState.Defs.{StoredDocument}
use svc_lb_mux.PortAllocations.Store.{
  ConfigMap, Store, allocations_key, mux_annotation, mux_ref, new_configmap, state_for_mux,
  validate_configmap_owner, validate_state_owner, same_mux, encode_state, decode_state, load, save,
  patch_configmap, create_configmap,
}

-- The JSON text of the document is read back as the document, and is not empty.
abbrev pub IsCodec :
    (StoredDocument → Str) → (Str → Option StoredDocument) → StoredDocument → Type 0
IsCodec dumps loads d = (loads (dumps d) ≡ some d) × (is_empty (dumps d) ≡ false)

-- A merged patch leaves what it says under its keys.
abbrev pub IsMerge : (Annotations → Dict Str Str → ConfigMap → ConfigMap) → Type 0
IsMerge merge =
    (annotations : Annotations) (entries : Dict Str Str) (c : ConfigMap) (k v : Str)
    → ((get Str-discrete annotations k ≡ some v)
        → get Str-discrete (merge annotations entries c).annotations k ≡ some v)
      × ((get Str-discrete entries k ≡ some v)
          → get Str-discrete (merge annotations entries c).entries k ≡ some v)

-- The mark of existence is right: it says whether the ConfigMap is in the cluster.
abbrev pub is_there : Option ConfigMap → Bool
is_there none = false
is_there (some c) = true

abbrev pub IsMarked : Store → Type 0
IsMarked s = s.exists ≡ is_there s.cluster

module _ (dumps : StoredDocument → Str) (loads : Str → Option StoredDocument)
    (merge : Annotations → Dict Str Str → ConfigMap → ConfigMap) (merges : IsMerge merge)
    (s : Store) (state : StoredDocument) (codec : IsCodec dumps loads (state_for_mux s state)) where
  -- what is in the cluster after `save`
  Written : ConfigMap → Type 0
  Written c =
      (get Str-discrete c.annotations mux_annotation ≡ some (mux_ref s))
      × (get Str-discrete c.entries allocations_key ≡ some (dumps (state_for_mux s state)))

  get_single : (k v : Str) → get Str-discrete ((k, v) ∷ []) k ≡ some v
  unfolding get
  get_single k v = if_pos (Str-discrete k k) refl (some v) none

  save-Written :
      IsMarked s
      → ((save dumps loads merge state s).0 ≡ ok tt)
        × ((c : ConfigMap) × ((save dumps loads merge state s).1.cluster ≡ some c) × Written c)
  unfolding save Written encode_state new_configmap
  save-Written marked = by_cluster s.cluster refl
    where
      by_cluster :
          (o : Option ConfigMap)
          → s.cluster ≡ o
          → ((save dumps loads merge state s).0 ≡ ok tt)
            × ((c : ConfigMap) × ((save dumps loads merge state s).1.cluster ≡ some c) × Written c)
      by_cluster none at =
          rw (marked, at)
            (
              refl,
              (
                new_configmap s (encode_state dumps loads merge (state_for_mux s state)),
                refl,
                (
                  get_single mux_annotation (mux_ref s),
                  get_single allocations_key (dumps (state_for_mux s state)),
                ),
              ),
            )
      by_cluster (some c) at =
          let annotations = (mux_annotation, mux_ref s) ∷ [] in
          let entries = encode_state dumps loads merge (state_for_mux s state) in
          rw (marked, at)
            (
              refl,
              (
                merge annotations entries c,
                refl,
                (
                  (merges annotations entries c mux_annotation (mux_ref s)).0
                      (get_single mux_annotation (mux_ref s)),
                  (merges annotations entries c allocations_key (dumps (state_for_mux s state))).1
                      (get_single allocations_key (dumps (state_for_mux s state))),
                ),
              ),
            )

  save-mux_key : (save dumps loads merge state s).1.mux_key ≡ s.mux_key
  unfolding save
  save-mux_key = by_mark s.exists s.cluster
    where
      by_mark :
          (b : Bool) (o : Option ConfigMap)
          → (if b
              then patch_configmap dumps loads merge
                  (encode_state dumps loads merge (state_for_mux s state))
                  o
                  s
              else create_configmap dumps loads merge
                  (encode_state dumps loads merge (state_for_mux s state))
                  o
                  s).1.mux_key
            ≡ s.mux_key
      by_mark true none = refl
      by_mark true (some c) = refl
      by_mark false none = refl
      by_mark false (some c) = refl

  mux_ref-ne-nil : is_empty (mux_ref s) ≡ false
  unfolding mux_ref
  mux_ref-ne-nil = not_nil s.mux_key.0
    where
      not_nil : (namespace : Str) → is_empty (namespace ++ b'/' ∷ s.mux_key.1) ≡ false
      not_nil [] = refl
      not_nil (c ∷ namespace) = refl

  same_mux_refl : (k : Str × Str) → same_mux k k ≡ true
  same_mux_refl k =
      if_pos (Str-discrete k.0 k.0) refl (ite (Str-discrete k.1 k.1) true false) false
      ∙ if_pos (Str-discrete k.1 k.1) refl true false

  validate_own :
      (t : Store) (c : ConfigMap)
      → t.mux_key ≡ s.mux_key
      → Written c
      → (validate_configmap_owner t c ≡ ok tt)
        × (validate_state_owner t (state_for_mux s state) ≡ ok tt)
  unfolding Written validate_configmap_owner validate_state_owner state_for_mux
  validate_own t c same (owner, entry) = (
    rw (owner, mux_ref-ne-nil)
        (if_pos (Str-discrete (mux_ref s) (mux_ref t)) (unfold mux_ref in rw same refl) (ok tt)
          (err foreign_configmap)),
    rw (same, same_mux_refl s.mux_key) refl,
  )

  load-Written :
      (t : Store) (c : ConfigMap)
      → t.mux_key ≡ s.mux_key
      → t.cluster ≡ some c
      → Written c
      → (load dumps loads merge t).0 ≡ ok (state_for_mux s state)
  unfolding load Written decode_state
  load-Written t c same at (owner, entry) =
      let (own, own_state) = validate_own t c same (unfold Written in (owner, entry)) in
      let (read, solid) = codec in rw (load, at, own, entry, solid, read, own_state) refl

  -- `save` returns, and the state is then loaded with the version and the mux that `save` writes, if the
  -- mark of existence was right, the JSON text of the saved document is not empty and reads back as the
  -- document, and a merged patch leaves what it says.
  pub load-save :
      IsMarked s
      → ((save dumps loads merge state s).0 ≡ ok tt)
        × ((load dumps loads merge (save dumps loads merge state s).1).0
            ≡ ok (state_for_mux s state))
  load-save marked =
      let (returned, (c, at, written)) = save-Written marked in
      (returned, load-Written (save dumps loads merge state s).1 c save-mux_key at written)

  validate_foreign :
      (t : Store) (c : ConfigMap)
      → mux_ref s ≢ mux_ref t
      → Written c
      → validate_configmap_owner t c ≡ err foreign_configmap
  unfolding Written validate_configmap_owner
  validate_foreign t c other (owner, entry) =
      rw (owner, mux_ref-ne-nil)
        (if_neg (Str-discrete (mux_ref s) (mux_ref t)) other (ok tt) (err foreign_configmap))

  -- A store of another mux refuses the ConfigMap that was saved, under the same conditions: the mark of
  -- existence was right, the JSON text of the saved document is not empty and reads back as the
  -- document, and a merged patch leaves what it says.
  pub load-save_foreign :
      (t : Store)
      → IsMarked s
      → t.cluster ≡ (save dumps loads merge state s).1.cluster
      → mux_ref s ≢ mux_ref t
      → (load dumps loads merge t).0 ≡ err foreign_configmap
  unfolding load
  load-save_foreign t marked same other =
      let (_, (c, at, written)) = save-Written marked in
      rw (load, same ∙ at) (rw (validate_foreign t c other written) refl)
