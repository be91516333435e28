-- ===== src/Muxdebug/SearchLaws.antt =====
-- What the loops of `find_pod_route` of `tools/muxdebug/debugger.py` find among the muxes that are listed,
-- and which muxes `list_mux_services` lists.
use svc_lb_mux.Prelude.{
  true, false, Option, none, some, List, [], ◌∷◌, ite, if_pos, Str, codes, Str-discrete, Result, ok,
  err, ◌>>=◌, ◌≡◌, refl, sym, ap, subst, ◌∙◌, All, Some, inl, inr, Bool-cases, ◌↔◌, false≢true,
  no_length,
}
use svc_lb_mux.Prelude.Dict.{get}
use svc_lb_mux.Model.{annotation_key}
use svc_lb_mux.Muxdebug.Routes.{
  ServiceObject, PortRoute, MuxInfo, Client, JsonLength, mux_info, build_mux_info,
}
use svc_lb_mux.Muxdebug.Find.{
  annotation_multiplexer, is_multiplexer, leads_to, first_route, route_or, cons_mux, muxes_among,
  mux_with_routes, find_among,
}
use svc_lb_mux.Muxdebug.PodLaws.{ite_true}
use svc_lb_mux.Muxdebug.BuildLaws.{HasNoLength, mux_info_named, mux_info_refused}

-- What the search among the routes of a mux finds: a route to the pod among them, or that there is none.
abbrev pub IsFirst : Str → Str → List PortRoute → Option PortRoute → Type 0
IsFirst pod_name namespace routes none = All (λ r. leads_to pod_name namespace r ≡ false) routes
IsFirst pod_name namespace routes (some route) =
    (leads_to pod_name namespace route ≡ true) × Some (λ r. r ≡ route) routes

first_route-IsFirst :
    (pod_name namespace : Str) (routes : List PortRoute)
    → IsFirst pod_name namespace routes (first_route pod_name namespace routes)
unfolding first_route
first_route-IsFirst pod_name namespace [] = tt
first_route-IsFirst pod_name namespace (route ∷ routes) =
    elim (Bool-cases (leads_to pod_name namespace route)) [
      | inl leads ↦ rw leads (leads, inl refl)
      | inr not_there ↦ rw not_there (
          later not_there (first_route pod_name namespace routes)
            (first_route-IsFirst pod_name namespace routes))
    ]
  where
    later :
        leads_to pod_name namespace route ≡ false
        → (o : Option PortRoute) → IsFirst pod_name namespace routes o
        → IsFirst pod_name namespace (route ∷ routes) o
    later not_there none h = (not_there, h)
    later not_there (some found) (leads, there) = (leads, inr there)

module _ (json_length : Str → JsonLength) (client : Client) (pod_name namespace : Str) where
  -- What reading a listed mux with its routes gives.
  abbrev pub read_mux : MuxInfo → Result MuxInfo
  read_mux listed =
      mux_with_routes json_length client (client.get_service listed.name listed.namespace)

  -- The mux can be read, and none of its routes leads to the pod.
  abbrev pub IsPassed : MuxInfo → Type 0
  IsPassed listed =
      (mux : MuxInfo) × (read_mux listed ≡ ok mux)
      × All (λ r. leads_to pod_name namespace r ≡ false) mux.routes

  -- The outcome of the search: a route of a listed mux that leads to the pod; that no mux has one; or
  -- what reading a mux raises.
  abbrev pub Searched : List MuxInfo → Result (Option (MuxInfo × PortRoute)) → Type 0
  Searched muxes (err e) = Some (λ listed. read_mux listed ≡ err e) muxes
  Searched muxes (ok none) = All IsPassed muxes
  Searched muxes (ok (some (mux, route))) =
      Some (λ listed. read_mux listed ≡ ok mux) muxes
      × (leads_to pod_name namespace route ≡ true)
      × Some (λ r. r ≡ route) mux.routes

  Searched-later :
      (listed : MuxInfo) (muxes : List MuxInfo) (r : Result (Option (MuxInfo × PortRoute)))
      → IsPassed listed
      → Searched muxes r
      → Searched (listed ∷ muxes) r
  Searched-later listed muxes (err e) passed h = inr h
  Searched-later listed muxes (ok none) passed h = (passed, h)
  Searched-later listed muxes (ok (some (mux, route))) passed (there, leads, among) =
      (inr there, leads, among)

  Searched-here :
      (listed : MuxInfo) (muxes : List MuxInfo) (mux : MuxInfo) (o : Option PortRoute)
      (rest : Result (Option (MuxInfo × PortRoute)))
      → read_mux listed ≡ ok mux
      → IsFirst pod_name namespace mux.routes o
      → Searched muxes rest
      → Searched (listed ∷ muxes) (route_or mux o rest)
  Searched-here listed muxes mux none rest read first later =
      Searched-later listed muxes rest (mux, read, first) later
  Searched-here listed muxes mux (some route) rest read (leads, among) later =
      (inl read, leads, among)

  Searched-at :
      (listed : MuxInfo) (muxes : List MuxInfo) (read : Result MuxInfo)
      (rest : Result (Option (MuxInfo × PortRoute)))
      → read_mux listed ≡ read
      → Searched muxes rest
      → Searched
          (listed ∷ muxes)
          (read >>= (λ mux. route_or mux (first_route pod_name namespace mux.routes) rest))
  Searched-at listed muxes (err e) rest h later = inl h
  Searched-at listed muxes (ok mux) rest h later =
      Searched-here listed muxes mux (first_route pod_name namespace mux.routes) rest h
        (first_route-IsFirst pod_name namespace mux.routes) later

  pub find_among-Searched :
      (muxes : List MuxInfo)
      → Searched muxes (find_among json_length client pod_name namespace muxes)
  unfolding find_among
  find_among-Searched [] = tt
  find_among-Searched (listed ∷ muxes) =
      Searched-at listed muxes (read_mux listed)
        (find_among json_length client pod_name namespace muxes) refl (find_among-Searched muxes)

-- The Service has the annotation of a mux.
abbrev pub IsMux : ServiceObject → Type 0
IsMux svc =
    get Str-discrete svc.annotations (annotation_key (codes "multiplexer")) ≡ some (codes "true")

is_multiplexer-IsMux : (svc : ServiceObject) → (is_multiplexer svc ≡ true) ↔ IsMux svc
unfolding annotation_multiplexer
is_multiplexer-IsMux svc =
    by_value (get Str-discrete svc.annotations (annotation_key (codes "multiplexer")))
  where
    by_value :
        (o : Option Str)
        → (elim o [ none ↦ false | some value ↦ ite (Str-discrete value (codes "true")) true false ]
            ≡ true)
          ↔ (o ≡ some (codes "true"))
    by_value none = ((λ h. absurd (false≢true h)), (λ h. cc))
    by_value (some v) = (
      (λ h. ap some (ite_true (Str-discrete v (codes "true")) h)),
      (λ h. if_pos (Str-discrete v (codes "true")) (text_of h) true false),
    )
      where
        text_of : some v ≡ some (codes "true") → v ≡ codes "true"
        text_of h = cc

module _ (json_length : Str → JsonLength) (client : Client) (P : Str → Str → Type 0) where
  -- The muxes that are listed stand for the Services with the annotation of a mux: what is true of the
  -- name and namespace of one of them, or of all, is true of a Service, or of all; and the listing
  -- raises only for a mux whose list of channels has no length.
  abbrev pub ListedFrom : List ServiceObject → Result (List MuxInfo) → Type 0
  ListedFrom services (err e) =
      Some (λ s. IsMux s × HasNoLength json_length client s × (e ≡ no_length)) services
  ListedFrom services (ok muxes) =
      (Some (λ (m : MuxInfo). P m.name m.namespace) muxes
        → Some (λ s. IsMux s × P s.name s.namespace) services)
      × (All (λ (m : MuxInfo). P m.name m.namespace) muxes
          → All (λ s. IsMux s → P s.name s.namespace) services)

  ListedFrom-mux :
      (svc : ServiceObject) (services : List ServiceObject) (call : Result MuxInfo)
      (rest : Result (List MuxInfo))
      → IsMux svc
      → mux_info json_length svc ≡ call
      → ListedFrom services rest
      → ListedFrom (svc ∷ services) (cons_mux json_length client call rest)
  ListedFrom-mux svc services (err e) rest is_mux built h =
      let (missing, reason) = mux_info_refused json_length client svc e built in
      inl (is_mux, missing, reason)
  ListedFrom-mux svc services (ok mux) (err e) is_mux built h = inr h
  ListedFrom-mux svc services (ok mux) (ok muxes) is_mux built (one, all) =
      let (named, placed) = mux_info_named json_length client svc mux built in
      let own : P mux.name mux.namespace ≡ P svc.name svc.namespace = λ i. P (named i) (placed i) in
      (
        (λ h. elim h [
          | inl here ↦ inl (is_mux, subst (λ (X : Type 0). X) own here)
          | inr later ↦ inr (one later)
        ]),
        (λ (here, later). ((λ _. subst (λ (X : Type 0). X) own here), all later)),
      )

  ListedFrom-other :
      (svc : ServiceObject) (services : List ServiceObject) (rest : Result (List MuxInfo))
      → (IsMux svc → ⊥)
      → ListedFrom services rest
      → ListedFrom (svc ∷ services) rest
  ListedFrom-other svc services (err e) other h = inr h
  ListedFrom-other svc services (ok muxes) other (one, all) =
      ((λ h. inr (one h)), (λ h. ((λ is_mux. absurd (other is_mux)), all h)))

  without_routes :
      (svc : ServiceObject) (r : Result MuxInfo) → (r >>= (λ (info : MuxInfo). ok info)) ≡ r
  without_routes svc (err e) = refl
  without_routes svc (ok info) = refl

  pub muxes_among-ListedFrom :
      (services : List ServiceObject)
      → ListedFrom services (muxes_among json_length client services)
  unfolding muxes_among build_mux_info
  muxes_among-ListedFrom [] = ((λ h. absurd h), (λ h. tt))
  muxes_among-ListedFrom (svc ∷ services) =
      let (to, from) = is_multiplexer-IsMux svc in
      elim (Bool-cases (is_multiplexer svc)) [
        | inl is_mux ↦ rw is_mux (
            ListedFrom-mux svc services _ (muxes_among json_length client services) (to is_mux)
              (sym (without_routes svc (mux_info json_length svc)))
              (muxes_among-ListedFrom services))
        | inr other ↦ rw other (
            ListedFrom-other svc services (muxes_among json_length client services)
              (λ is_mux. false≢true (sym other ∙ from is_mux)) (muxes_among-ListedFrom services))
      ]
