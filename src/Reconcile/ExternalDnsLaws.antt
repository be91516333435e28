-- ===== src/Reconcile/ExternalDnsLaws.antt =====
-- What the aggregation of the external-dns annotations leaves on the mux.
use svc_lb_mux.Prelude.{
  ◌≡◌, ◌≢◌, refl, sym, ap, subst, ◌∙◌, true, false, Option, none, some, List, [], ◌∷◌, arith,
  if◌then◌else◌, ite, if_pos, if_neg, Bool-cases, inl, inr, Str, Str-discrete, length,
}
use svc_lb_mux.Prelude.Dict.{member, get}
use svc_lb_mux.Model.{annotation_external_dns_aggregated, Annotations}
use svc_lb_mux.Prelude.Dict.Laws.{get-put, get-put_ne, get-remove}
use svc_lb_mux.Reconcile.ExternalDns.{
  external_dns_hostname, external_dns_cloudflare_proxied, aggregated_keys,
  parse_aggregated_external_dns_keys, is_user_owned, publish, apply_key, apply_keys, track,
  apply_aggregated_external_dns_annotations,
}

hostname≢proxied : external_dns_hostname ≢ external_dns_cloudflare_proxied
unfolding external_dns_hostname external_dns_cloudflare_proxied
hostname≢proxied e = omega (arith, ap length e)

-- What is published under a key: its user's value or the aggregated one.
abbrev pub published : Annotations → List Str → Annotations → Str → Option Str
published annotations managed_keys aggregated k =
    if is_user_owned annotations managed_keys k
    then get Str-discrete annotations k
    else get Str-discrete aggregated k

get-publish :
    (k : Str) (p : Annotations × List Str) (o : Option Str) (j : Str)
    → get Str-discrete (publish k p o).0 j ≡ ite (Str-discrete k j) o (get Str-discrete p.0 j)
get-publish k p none j = get-remove Str-discrete p.0 k j
get-publish k p (some v) j = get-put Str-discrete p.0 k v j

get-publish_self :
    (k : Str) (p : Annotations × List Str) (o : Option Str)
    → get Str-discrete (publish k p o).0 k ≡ o
get-publish_self k p o =
    get-publish k p o k ∙ if_pos (Str-discrete k k) refl o (get Str-discrete p.0 k)

get-publish_ne :
    (k : Str) (p : Annotations × List Str) (o : Option Str) (j : Str)
    → k ≢ j
    → get Str-discrete (publish k p o).0 j ≡ get Str-discrete p.0 j
get-publish_ne k p o j ne =
    get-publish k p o j ∙ if_neg (Str-discrete k j) ne o (get Str-discrete p.0 j)

get-apply_key_self :
    (managed : List Str) (aggregated : Annotations) (k : Str) (p : Annotations × List Str)
    → get Str-discrete (apply_key managed aggregated k p).0 k ≡ published p.0 managed aggregated k
unfolding apply_key
get-apply_key_self managed aggregated k p = elim (Bool-cases (is_user_owned p.0 managed k)) [
  | inl owned ↦ rw owned refl
  | inr free ↦ rw free (get-publish_self k p (get Str-discrete aggregated k))
]

get-apply_key_ne :
    (managed : List Str) (aggregated : Annotations) (k : Str) (p : Annotations × List Str) (j : Str)
    → k ≢ j
    → get Str-discrete (apply_key managed aggregated k p).0 j ≡ get Str-discrete p.0 j
unfolding apply_key
get-apply_key_ne managed aggregated k p j ne = elim (Bool-cases (is_user_owned p.0 managed k)) [
  | inl owned ↦ rw owned refl
  | inr free ↦ rw free (get-publish_ne k p (get Str-discrete aggregated k) j ne)
]

get-track_ne :
    (p : Annotations × List Str) (j : Str)
    → annotation_external_dns_aggregated ≢ j
    → get Str-discrete (track p) j ≡ get Str-discrete p.0 j
get-track_ne (d, []) j ne =
    get-remove Str-discrete d annotation_external_dns_aggregated j
    ∙ if_neg (Str-discrete annotation_external_dns_aggregated j) ne none (get Str-discrete d j)
get-track_ne (d, k ∷ ks) j ne = get-put_ne Str-discrete d _ _ j ne

-- The keys that the controller manages, as the mux says.
abbrev pub managed_by : Annotations → List Str
managed_by annotations =
    parse_aggregated_external_dns_keys
      (get Str-discrete annotations annotation_external_dns_aggregated)

-- The annotations after the two keys, one after the other.
abbrev both : Annotations → Annotations → List Str → Annotations
both annotations aggregated managed =
    (apply_key managed aggregated external_dns_cloudflare_proxied
      (apply_key managed aggregated external_dns_hostname (annotations, []))).0

get-both_hostname :
    (annotations aggregated : Annotations) (managed : List Str)
    → get Str-discrete (both annotations aggregated managed) external_dns_hostname
      ≡ published annotations managed aggregated external_dns_hostname
get-both_hostname annotations aggregated managed =
    get-apply_key_ne managed aggregated external_dns_cloudflare_proxied
      (apply_key managed aggregated external_dns_hostname (annotations, [])) external_dns_hostname
      (λ e. hostname≢proxied (sym e))
    ∙ get-apply_key_self managed aggregated external_dns_hostname (annotations, [])

published-get :
    (d annotations aggregated : Annotations) (managed : List Str) (k : Str)
    → get Str-discrete d k ≡ get Str-discrete annotations k
    → published d managed aggregated k ≡ published annotations managed aggregated k
unfolding is_user_owned
published-get d annotations aggregated managed k h = rw h refl

get-both_proxied :
    (annotations aggregated : Annotations) (managed : List Str)
    → get Str-discrete (both annotations aggregated managed) external_dns_cloudflare_proxied
      ≡ published annotations managed aggregated external_dns_cloudflare_proxied
get-both_proxied annotations aggregated managed =
    let p = apply_key managed aggregated external_dns_hostname (annotations, []) in
    get-apply_key_self managed aggregated external_dns_cloudflare_proxied p
    ∙ published-get p.0 annotations aggregated managed external_dns_cloudflare_proxied (
        get-apply_key_ne managed aggregated external_dns_hostname (annotations, [])
          external_dns_cloudflare_proxied hostname≢proxied)

-- The cases of a key: one of the two, or another.
get-both_cases :
    (annotations aggregated : Annotations) (managed : List Str) (k : Str)
    → (o : Dec (external_dns_hostname ≡ k)) → (q : Dec (external_dns_cloudflare_proxied ≡ k))
    → get Str-discrete (both annotations aggregated managed) k ≡ (
        if ite o true (ite q true false)
        then published annotations managed aggregated k
        else get Str-discrete annotations k)
get-both_cases annotations aggregated managed k (yes e) q =
    subst
      (λ j.
        get Str-discrete (both annotations aggregated managed) j
        ≡ published annotations managed aggregated j)
      e (get-both_hostname annotations aggregated managed)
get-both_cases annotations aggregated managed k (no n) (yes e) =
    subst
      (λ j.
        get Str-discrete (both annotations aggregated managed) j
        ≡ published annotations managed aggregated j)
      e (get-both_proxied annotations aggregated managed)
get-both_cases annotations aggregated managed k (no n) (no m) =
    get-apply_key_ne managed aggregated external_dns_cloudflare_proxied
      (apply_key managed aggregated external_dns_hostname (annotations, [])) k m
    ∙ get-apply_key_ne managed aggregated external_dns_hostname (annotations, []) k n

-- Of an external-dns key of the mux the value is afterwards the one that its user set, if the key
-- was there and not managed by the controller, and else the aggregated value, or none if there is
-- none. Any other annotation, but the one that tracks the managed keys, is as it was.
pub apply_aggregated-published :
    (annotations aggregated : Annotations) (k : Str)
    → annotation_external_dns_aggregated ≢ k
    → get Str-discrete (apply_aggregated_external_dns_annotations annotations aggregated) k ≡ (
        if member Str-discrete k aggregated_keys
        then published annotations (managed_by annotations) aggregated k
        else get Str-discrete annotations k)
unfolding apply_aggregated_external_dns_annotations apply_keys member
apply_aggregated-published annotations aggregated k ne =
    let managed = managed_by annotations in
    get-track_ne
      (apply_key managed aggregated external_dns_cloudflare_proxied
        (apply_key managed aggregated external_dns_hostname (annotations, [])))
      k ne
    ∙ get-both_cases annotations aggregated managed k (Str-discrete external_dns_hostname k)
        (Str-discrete external_dns_cloudflare_proxied k)
