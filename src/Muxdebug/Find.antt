-- ===== src/Muxdebug/Find.antt =====
-- `list_mux_services`, `find_pod_route` and the grouping of routes by channel of
-- `tools/muxdebug/debugger.py`.
use svc_lb_mux.Prelude.{
  Bool, true, false, ◌&&◌, Option, none, some, List, [], ◌∷◌, ◌++◌, ite, if◌then◌else◌, Str, codes,
  Str-discrete, Result, ok, err, ◌>>=◌, no_service, any,
}
use svc_lb_mux.Prelude.Dict.{Dict, get, put}
use svc_lb_mux.Model.{annotation_key}
use svc_lb_mux.Reconcile.Endpoints.{ServiceKey, ServiceKey-discrete}
use svc_lb_mux.Muxdebug.Routes.{
  ServiceObject, PodInfo, PortRoute, MuxInfo, Client, JsonLength, build_mux_info,
}

unfoldable pub annotation_multiplexer : Str
annotation_multiplexer = annotation_key (codes "multiplexer")

abbrev pub is_multiplexer : ServiceObject → Bool
is_multiplexer svc = elim (get Str-discrete svc.annotations annotation_multiplexer) [
  | none ↦ false
  | some value ↦ ite (Str-discrete value (codes "true")) true false
]

abbrev pub is_target : Str → Str → PodInfo → Bool
is_target pod_name namespace pod =
    ite (Str-discrete pod.name pod_name) true false
    && ite (Str-discrete pod.namespace namespace) true false

abbrev pub leads_to : Str → Str → PortRoute → Bool
leads_to pod_name namespace route = any (is_target pod_name namespace) route.target_pods

-- the loops of `find_pod_route` over the routes of a mux and their pods
unfoldable pub first_route : Str → Str → List PortRoute → Option PortRoute
first_route pod_name namespace [] = none
first_route pod_name namespace (route ∷ routes) =
    let rest = first_route pod_name namespace routes in
    if leads_to pod_name namespace route then some route else rest

abbrev pub route_or :
    MuxInfo
    → Option PortRoute
    → Result (Option (MuxInfo × PortRoute))
    → Result (Option (MuxInfo × PortRoute))
route_or mux none rest = rest
route_or mux (some route) rest = ok (some (mux, route))

module _ (json_length : Str → JsonLength) (client : Client) where
  -- the loop of `list_mux_services`
  abbrev pub cons_mux : Result MuxInfo → Result (List MuxInfo) → Result (List MuxInfo)
  cons_mux call rest = do mux ← call; muxes ← rest; ok (mux ∷ muxes)

  unfoldable pub muxes_among : List ServiceObject → Result (List MuxInfo)
  unfolding build_mux_info
  muxes_among [] = ok []
  muxes_among (svc ∷ services) =
      let rest = muxes_among services in
      if is_multiplexer svc
      then cons_mux (build_mux_info json_length client svc false) rest
      else rest

  -- `list_mux_services`
  abbrev pub list_mux_services : Result (List MuxInfo)
  list_mux_services = muxes_among client.services

  -- The mux with its routes; a mux that was listed and cannot be read makes `_build_mux_info` raise.
  abbrev pub mux_with_routes : Option ServiceObject → Result MuxInfo
  mux_with_routes none = err no_service
  mux_with_routes (some svc) = build_mux_info json_length client svc true

  unfoldable pub find_among : Str → Str → List MuxInfo → Result (Option (MuxInfo × PortRoute))
  unfolding build_mux_info first_route
  find_among pod_name namespace [] = ok none
  find_among pod_name namespace (listed ∷ muxes) =
      let rest = find_among pod_name namespace muxes in
      do
        mux ← mux_with_routes (client.get_service listed.name listed.namespace)
        route_or mux (first_route pod_name namespace mux.routes) rest

  -- `find_pod_route`
  unfoldable pub find_pod_route : Str → Str → Result (Option (MuxInfo × PortRoute))
  unfolding find_among muxes_among
  find_pod_route pod_name namespace = do
    muxes ← list_mux_services
    find_among pod_name namespace muxes

-- The grouping of routes by channel in `display_graph` and `test_mux`.
abbrev pub append_route : Option (List PortRoute) → PortRoute → List PortRoute
append_route none route = route ∷ []
append_route (some routes) route = routes ++ route ∷ []

unfoldable pub group_routes :
    Dict ServiceKey (List PortRoute) → List PortRoute → Dict ServiceKey (List PortRoute)
group_routes channels [] = channels
group_routes channels (route ∷ routes) =
    let key : ServiceKey = (route.channel_namespace, route.channel_name) in
    group_routes
      (put ServiceKey-discrete channels key
        (append_route (get ServiceKey-discrete channels key) route))
      routes
