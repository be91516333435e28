-- ===== src/Muxdebug/FindLaws.antt =====
-- What `find_pod_route` of `tools/muxdebug/debugger.py` finds, and that the debugger reads a
-- `loadBalancerClass` as the controller does.
use svc_lb_mux.Prelude.{
  true, false, ◌&&◌, Option, none, some, List, [], ◌∷◌, ◌++◌, ite, Str, Str-discrete, after_prefix,
  split, Result, ok, err, ◌>>=◌, ◌≡◌, ap, ◌∙◌, All, Some, inl, inr, >>=-eq-ok, ok-injective,
  err-ne-ok,
}
use svc_lb_mux.Model.{api_prefix, or_blank}
use svc_lb_mux.Refs.{get_mux_from_lb_class, mux_of_ref, validate_dns_label}
use svc_lb_mux.Muxdebug.Parse.{parse_mux_from_lb_class, mux_of_part}
use svc_lb_mux.Prelude.{
  sym, subst, ◌⊎◌, Some-map, All-map, false≢true, Error, no_service, no_length,
}
use svc_lb_mux.Muxdebug.Routes.{
  ServiceObject, PortRoute, MuxInfo, Client, JsonLength, names_mux, is_same_mux, routes_among,
}
use svc_lb_mux.Muxdebug.Find.{leads_to, muxes_among, find_among, find_pod_route}
use svc_lb_mux.Muxdebug.BuildLaws.{
  ReachedBy, ExposedBy, RaisedBy, RoutesOf, HasNoLength, routes_among-RoutesOf,
  mux_with_routes-WasRead, mux_with_routes-WasRefused,
}
use svc_lb_mux.Muxdebug.SearchLaws.{
  IsMux, IsPassed, Searched, ListedFrom, read_mux, find_among-Searched, muxes_among-ListedFrom,
}

part_agrees :
    (default_namespace : Str) (o : Option Str) (mux : Str × Str)
    → mux_of_ref default_namespace o ≡ ok mux
    → mux_of_part default_namespace o ≡ ok (mux.1, mux.0)
part_agrees default_namespace none mux h = absurd (err-ne-ok h)
part_agrees default_namespace (some ref) mux h = by_parts (split b'.' ref) h
  where
    by_parts :
        (parts : List Str)
        → svc_lb_mux.Refs.mux_of_parts default_namespace parts ≡ ok mux
        → svc_lb_mux.Muxdebug.Parse.mux_of_parts default_namespace parts ≡ ok (mux.1, mux.0)
    by_parts [] h = absurd (err-ne-ok h)
    by_parts (name ∷ []) h = ap (λ m. ok (m.1, m.0)) (ok-injective h)
    by_parts (name ∷ namespace ∷ []) h = ap (λ m. ok (m.1, m.0)) (ok-injective h)
    by_parts (name ∷ namespace ∷ more ∷ parts) h = absurd (err-ne-ok h)

parse_mux_from_lb_class-agrees :
    (lb_class default_namespace : Str) (mux : Str × Str)
    → get_mux_from_lb_class lb_class api_prefix default_namespace ≡ ok mux
    → parse_mux_from_lb_class lb_class default_namespace ≡ ok (mux.1, mux.0)
unfolding get_mux_from_lb_class parse_mux_from_lb_class
parse_mux_from_lb_class-agrees lb_class default_namespace mux h =
    let (found, from_ref, rest) =
      >>=-eq-ok (mux_of_ref default_namespace (after_prefix (api_prefix ++ b'/' ∷ []) lb_class)) _
        h in
    let (_, _, rest') = >>=-eq-ok (validate_dns_label found.1) _ rest in
    let (_, _, same) = >>=-eq-ok (validate_dns_label found.0) _ rest' in
    part_agrees default_namespace _ mux (from_ref ∙ same)

-- Where the controller, with the namespace of the mux as its default, takes a channel's
-- `loadBalancerClass` for a mux, the debugger lists the channel under this mux and under no other
-- mux of that namespace.
pub names_mux-agrees :
    (svc : ServiceObject) (mux_name mux_namespace : Str) (mux : Str × Str)
    → get_mux_from_lb_class (or_blank svc.load_balancer_class) api_prefix mux_namespace ≡ ok mux
    → names_mux mux_name mux_namespace svc ≡ (
        ite (Str-discrete mux.1 mux_name) true false
        && ite (Str-discrete mux.0 mux_namespace) true false)
names_mux-agrees svc mux_name mux_namespace mux h =
    ap (is_same_mux mux_name mux_namespace)
      (parse_mux_from_lb_class-agrees (or_blank svc.load_balancer_class) mux_namespace mux h)

module _ (json_length : Str → JsonLength) (client : Client) (pod_name namespace : Str) where
  -- The Service of that name can be read, and no channel that names it reaches the pod.
  abbrev pub HasNoRoute : Str → Str → Type 0
  HasNoRoute mux_name mux_namespace =
      (svc : ServiceObject) × (client.get_service mux_name mux_namespace ≡ some svc)
      × (ReachedBy client svc.name svc.namespace pod_name namespace client.services → ⊥)

  -- The Service of that name is the mux, and a channel that names it exposes the pod by the route.
  abbrev pub HasRoute : MuxInfo → PortRoute → Str → Str → Type 0
  HasRoute mux route mux_name mux_namespace =
      (svc : ServiceObject) × (client.get_service mux_name mux_namespace ≡ some svc)
      × (mux.name ≡ svc.name)
      × (mux.namespace ≡ svc.namespace)
      × ExposedBy client svc.name svc.namespace pod_name namespace route client.services

  -- The Service of that name is gone, or its list of channels has no length, or the ports annotation of
  -- a channel that names it cannot be read.
  abbrev pub Raises : Error → Str → Str → Type 0
  Raises e mux_name mux_namespace =
      (client.get_service mux_name mux_namespace ≡ none) × (e ≡ no_service)
      ⊎ ((svc : ServiceObject) × (client.get_service mux_name mux_namespace ≡ some svc)
          × (HasNoLength json_length client svc × (e ≡ no_length)
              ⊎ RaisedBy client svc.name svc.namespace pod_name namespace e client.services))

  -- The outcome of the search, over the listed Services with the annotation of a mux.
  abbrev pub IsFound : Result (Option (MuxInfo × PortRoute)) → Type 0
  IsFound (err e) =
      Some
        (λ s.
          IsMux s
          × (HasNoLength json_length client s × (e ≡ no_length) ⊎ Raises e s.name s.namespace))
        client.services
  IsFound (ok none) = All (λ s. IsMux s → HasNoRoute s.name s.namespace) client.services
  IsFound (ok (some (mux, route))) =
      Some (λ s. IsMux s × HasRoute mux route s.name s.namespace) client.services

  routes_of :
      (svc : ServiceObject)
      → RoutesOf client svc.name svc.namespace pod_name namespace client.services
          (routes_among client svc.name svc.namespace client.services)
  routes_of svc =
      routes_among-RoutesOf client svc.name svc.namespace pod_name namespace client.services

  no_such_route :
      (routes : List PortRoute)
      → All (λ r. leads_to pod_name namespace r ≡ false) routes
      → Some (λ r. leads_to pod_name namespace r ≡ true) routes
      → ⊥
  no_such_route [] all h = h
  no_such_route (r ∷ routes) (not_there, all) (inl there) = false≢true (sym not_there ∙ there)
  no_such_route (r ∷ routes) (not_there, all) (inr h) = no_such_route routes all h

  passed-HasNoRoute :
      (listed : MuxInfo)
      → IsPassed json_length client pod_name namespace listed
      → HasNoRoute listed.name listed.namespace
  passed-HasNoRoute listed (mux, read, none_leads) =
      let (svc, there, _, _, built) = mux_with_routes-WasRead json_length client _ mux read in
      let (_, reached) =
        subst (RoutesOf client svc.name svc.namespace pod_name namespace client.services) built
          (routes_of svc) in
      (svc, there, λ h. no_such_route mux.routes none_leads (reached h))

  read-HasRoute :
      (mux : MuxInfo) (route : PortRoute) (listed : MuxInfo)
      → leads_to pod_name namespace route ≡ true
      → Some (λ r. r ≡ route) mux.routes
      → read_mux json_length client pod_name namespace listed ≡ ok mux
      → HasRoute mux route listed.name listed.namespace
  read-HasRoute mux route listed leads among read =
      let (svc, there, named, placed, built) =
        mux_with_routes-WasRead json_length client _ mux read in
      let (exposed, _) =
        subst (RoutesOf client svc.name svc.namespace pod_name namespace client.services) built
          (routes_of svc) in
      (svc, there, named, placed, exposed route among leads)

  read-Raises :
      (e : Error) (listed : MuxInfo)
      → read_mux json_length client pod_name namespace listed ≡ err e
      → Raises e listed.name listed.namespace
  read-Raises e listed read = elim (mux_with_routes-WasRefused json_length client _ e read) [
    | inl gone ↦ inl gone
    | inr (svc, there, inl missing) ↦ inr (svc, there, inl missing)
    | inr (svc, there, inr raised) ↦ inr (
      svc,
      there,
      inr (
          subst (RoutesOf client svc.name svc.namespace pod_name namespace client.services) raised
            (routes_of svc)),
    )
  ]

  Searched-IsFound :
      (muxes : List MuxInfo) (r : Result (Option (MuxInfo × PortRoute)))
      → ((P : Str → Str → Type 0) → ListedFrom json_length client P client.services (ok muxes))
      → Searched json_length client pod_name namespace muxes r
      → IsFound r
  Searched-IsFound muxes (err e) listed h =
      Some-map client.services (λ s (is_mux, raised). (is_mux, inr raised))
        ((listed (Raises e)).0 (Some-map muxes (read-Raises e) h))
  Searched-IsFound muxes (ok none) listed h =
      (listed HasNoRoute).1 (All-map muxes passed-HasNoRoute h)
  Searched-IsFound muxes (ok (some (mux, route))) listed (read, leads, among) =
      (listed (HasRoute mux route)).0
        (Some-map muxes (λ m at. read-HasRoute mux route m leads among at) read)

-- `find_pod_route` returns a mux and a route only if a listed Service with the annotation of a mux can be
-- read and is that mux, and a listed channel whose class names it has Endpoints with the pod and a
-- port with the mux port of the route; it returns nothing only if each listed Service with the
-- annotation can be read and no listed channel that names it has such Endpoints and a port with a
-- mux port; and it raises only where the list of channels of a mux has no length, a listed mux is
-- gone, or the ports annotation of one of its channels cannot be read.
pub find_pod_route-IsFound :
    (json_length : Str → JsonLength) (client : Client) (pod_name namespace : Str)
    → IsFound json_length client pod_name namespace
        (find_pod_route json_length client pod_name namespace)
unfolding find_pod_route
find_pod_route-IsFound json_length client pod_name namespace =
    by_listing (muxes_among json_length client client.services)
      (λ P. muxes_among-ListedFrom json_length client P client.services)
  where
    by_listing :
        (r : Result (List MuxInfo))
        → ((P : Str → Str → Type 0) → ListedFrom json_length client P client.services r)
        → IsFound json_length client pod_name namespace
            (r >>= find_among json_length client pod_name namespace)
    by_listing (err e) listed =
        Some-map client.services (λ s (is_mux, missing, reason). (is_mux, inl (missing, reason)))
          (listed (λ _ _. Unit {0}))
    by_listing (ok muxes) listed =
        Searched-IsFound json_length client pod_name namespace muxes _ listed
          (find_among-Searched json_length client pod_name namespace muxes)
