-- ===== src/Muxdebug/BuildLaws.antt =====
-- What `_build_routes` and `_build_mux_info` of `tools/muxdebug/debugger.py` give for a mux, and when they
-- raise.
use svc_lb_mux.Prelude.{
  ◌≡◌, refl, sym, ap, ◌∙◌, true, Option, none, some, List, [], ◌∷◌, ◌++◌, Bool-cases, inl, inr, ◌⊎◌,
  Some, Str, Result, ok, err, Error, ◌>>=◌, >>=-eq-ok, ok-injective, err-ne-ok, false≢true,
  no_service, no_length, ℤ, ℕ,
}
use svc_lb_mux.Prelude.Dict.{Dict}
use svc_lb_mux.Muxdebug.Routes.{
  ServiceObject, PortRoute, MuxInfo, Client, JsonLength, not_json, without_length, of_length,
  count_listed, listed_channels, mux_info, with_routes, names_mux, channel_routes, append_routes,
  routes_among, build_mux_info,
}
use svc_lb_mux.Muxdebug.Find.{leads_to, mux_with_routes}
use svc_lb_mux.Muxdebug.RouteLaws.{
  Names, mappings_of, Exposes, Reaches, names_mux-Names, channel_routes-Exposes,
  channel_routes-Reaches,
}

module _ {A : Type 0} (P : A → Type 0) where
  pub Some-append : (xs ys : List A) → Some P (xs ++ ys) → Some P xs ⊎ Some P ys
  Some-append [] ys h = inr h
  Some-append (x ∷ xs) ys (inl p) = inl (inl p)
  Some-append (x ∷ xs) ys (inr h) = elim (Some-append xs ys h) [
    | inl first ↦ inl (inr first)
    | inr second ↦ inr second
  ]

  pub Some-left : (xs ys : List A) → Some P xs → Some P (xs ++ ys)
  Some-left [] ys h = absurd h
  Some-left (x ∷ xs) ys (inl p) = inl p
  Some-left (x ∷ xs) ys (inr h) = inr (Some-left xs ys h)

  pub Some-right : (xs ys : List A) → Some P ys → Some P (xs ++ ys)
  Some-right [] ys h = h
  Some-right (x ∷ xs) ys h = inr (Some-right xs ys h)

module _ (client : Client) (mux_name mux_namespace pod_name namespace : Str) where
  -- The channels that name the mux and expose the pod by the route; that reach the pod; whose ports
  -- annotation raises.
  abbrev pub ExposedBy : PortRoute → List ServiceObject → Type 0
  ExposedBy route services =
      Some
        (λ c.
          Names client mux_name mux_namespace c
          × Exposes client mux_name mux_namespace pod_name namespace route c)
        services

  abbrev pub ReachedBy : List ServiceObject → Type 0
  ReachedBy services =
      Some
        (λ c.
          Names client mux_name mux_namespace c
          × Reaches client mux_name mux_namespace pod_name namespace c)
        services

  abbrev pub RaisedBy : Error → List ServiceObject → Type 0
  RaisedBy e services =
      Some
        (λ c.
          Names client mux_name mux_namespace c
          × (mappings_of client mux_name mux_namespace c ≡ err e))
        services

  -- The routes that lead to the pod are those of channels of the mux that expose it; there is one if a
  -- channel reaches it; and what raises is the ports annotation of a channel of the mux.
  abbrev pub RoutesOf : List ServiceObject → Result (List PortRoute) → Type 0
  RoutesOf services (err e) = RaisedBy e services
  RoutesOf services (ok routes) =
      ((route : PortRoute)
        → Some (λ r. r ≡ route) routes
        → leads_to pod_name namespace route ≡ true
        → ExposedBy route services)
      × (ReachedBy services → Some (λ r. leads_to pod_name namespace r ≡ true) routes)

  RoutesOf-named :
      (c : ServiceObject) (services : List ServiceObject) (call rest : Result (List PortRoute))
      → Names client mux_name mux_namespace c
      → channel_routes client c ≡ call
      → RoutesOf services rest
      → RoutesOf (c ∷ services) (append_routes call rest)
  unfolding channel_routes
  RoutesOf-named c services (err e) rest named built h =
      inl (named, by_mappings (mappings_of client mux_name mux_namespace c) _ built)
    where
      by_mappings :
          (m : Result (Dict Str ℤ)) (f : Dict Str ℤ → List PortRoute)
          → (m >>= λ d. ok (f d)) ≡ err e
          → m ≡ err e
      by_mappings (err e') f at = cc
      by_mappings (ok d) f at = absurd (err-ne-ok (sym at))
  RoutesOf-named c services (ok routes) (err e) named built h = inr h
  RoutesOf-named c services (ok routes) (ok others) named built (exposed, reached) = (
    (λ route among leads. elim (Some-append (λ r. r ≡ route) routes others among) [
      | inl here ↦ inl (
        named,
        channel_routes-Exposes client mux_name mux_namespace pod_name namespace c routes route built
            here leads,
      )
      | inr later ↦ inr (exposed route later leads)
    ]),
    (λ h. elim h [
      | inl (_, reaches) ↦
          Some-left (λ r. leads_to pod_name namespace r ≡ true) routes others
            (channel_routes-Reaches client mux_name mux_namespace pod_name namespace c routes built
              reaches)
      | inr later ↦
          Some-right (λ r. leads_to pod_name namespace r ≡ true) routes others (reached later)
    ]),
  )

  RoutesOf-other :
      (c : ServiceObject) (services : List ServiceObject) (rest : Result (List PortRoute))
      → (Names client mux_name mux_namespace c → ⊥)
      → RoutesOf services rest
      → RoutesOf (c ∷ services) rest
  RoutesOf-other c services (err e) other h = inr h
  RoutesOf-other c services (ok routes) other (exposed, reached) = (
    (λ route among leads. inr (exposed route among leads)),
    (λ h. elim h [ inl (named, _) ↦ absurd (other named) | inr later ↦ reached later ]),
  )

  pub routes_among-RoutesOf :
      (services : List ServiceObject)
      → RoutesOf services (routes_among client mux_name mux_namespace services)
  unfolding routes_among
  routes_among-RoutesOf [] = ((λ route among leads. absurd among), (λ h. absurd h))
  routes_among-RoutesOf (c ∷ services) =
      let (to, from) = names_mux-Names client mux_name mux_namespace c in
      elim (Bool-cases (names_mux mux_name mux_namespace c)) [
        | inl named ↦ rw named (
            RoutesOf-named c services (channel_routes client c)
              (routes_among client mux_name mux_namespace services) (to named) refl
              (routes_among-RoutesOf services))
        | inr other ↦ rw other (
            RoutesOf-other c services (routes_among client mux_name mux_namespace services)
              (λ named. false≢true (sym other ∙ from named)) (routes_among-RoutesOf services))
      ]

module _ (json_length : Str → JsonLength) (client : Client) where
  -- The annotation that lists the channels of the mux has a JSON value without a length.
  abbrev pub HasNoLength : ServiceObject → Type 0
  HasNoLength svc = listed_channels json_length svc ≡ without_length

  -- The mux was read, has the name and namespace of the Service, and the routes that were built.
  abbrev pub WasRead : Option ServiceObject → MuxInfo → Type 0
  WasRead o mux =
      (svc : ServiceObject) × (o ≡ some svc)
      × (mux.name ≡ svc.name)
      × (mux.namespace ≡ svc.namespace)
      × (routes_among client svc.name svc.namespace client.services ≡ ok mux.routes)

  -- Why reading a mux raised.
  abbrev pub WasRefused : Option ServiceObject → Error → Type 0
  WasRefused o e =
      (o ≡ none) × (e ≡ no_service)
      ⊎ ((svc : ServiceObject) × (o ≡ some svc)
          × (HasNoLength svc × (e ≡ no_length)
              ⊎ (routes_among client svc.name svc.namespace client.services ≡ err e)))

  pub count_listed-err :
      (n : JsonLength) (e : Error) → count_listed n ≡ err e → (n ≡ without_length) × (e ≡ no_length)
  count_listed-err not_json e h = absurd (err-ne-ok (sym h))
  count_listed-err without_length e h = (refl, cc)
  count_listed-err (of_length n) e h = absurd (err-ne-ok (sym h))

  pub mux_info_named :
      (svc : ServiceObject) (info : MuxInfo)
      → mux_info json_length svc ≡ ok info
      → (info.name ≡ svc.name) × (info.namespace ≡ svc.namespace)
  mux_info_named svc info h =
      let (_, _, same) = >>=-eq-ok (count_listed (listed_channels json_length svc)) _ h in
      (
        ap (λ (m : MuxInfo). m.name) (sym (ok-injective same)),
        ap (λ (m : MuxInfo). m.namespace) (sym (ok-injective same)),
      )

  pub mux_info_refused :
      (svc : ServiceObject) (e : Error)
      → mux_info json_length svc ≡ err e
      → HasNoLength svc × (e ≡ no_length)
  mux_info_refused svc e h = by_count (count_listed (listed_channels json_length svc)) _ refl h
    where
      by_count :
          (r : Result ℕ) (f : ℕ → MuxInfo)
          → count_listed (listed_channels json_length svc) ≡ r
          → (r >>= λ n. ok (f n)) ≡ err e
          → HasNoLength svc × (e ≡ no_length)
      by_count (err e') f at h =
          let (missing, reason) = count_listed-err (listed_channels json_length svc) e' at in
          (missing, same_error h ∙ reason)
        where
          same_error : ◌≡◌ {A = Result MuxInfo} (err e') (err e) → e ≡ e'
          same_error h = cc
      by_count (ok n) f at h = absurd (err-ne-ok (sym h))

  -- The routes that are built are those of the name and namespace of the Service.
  own_routes :
      (svc : ServiceObject) (info : MuxInfo)
      → mux_info json_length svc ≡ ok info
      → routes_among client info.name info.namespace client.services
        ≡ routes_among client svc.name svc.namespace client.services
  own_routes svc info h =
      let (named, placed) = mux_info_named svc info h in
      λ i. routes_among client (named i) (placed i) client.services

  pub mux_with_routes-WasRead :
      (o : Option ServiceObject) (mux : MuxInfo)
      → mux_with_routes json_length client o ≡ ok mux
      → WasRead o mux
  unfolding build_mux_info
  mux_with_routes-WasRead none mux h = absurd (err-ne-ok h)
  mux_with_routes-WasRead (some svc) mux h =
      let (info, built, rest) = >>=-eq-ok (mux_info json_length svc) _ h in
      let (routes, called, same) =
        >>=-eq-ok (routes_among client info.name info.namespace client.services) _ rest in
      let (named, placed) = mux_info_named svc info built in
      let eq = sym (ok-injective same) in
      (
        svc,
        refl,
        ap (λ (m : MuxInfo). m.name) eq ∙ named,
        ap (λ (m : MuxInfo). m.namespace) eq ∙ placed,
        sym (own_routes svc info built) ∙ called ∙ ap (λ (m : MuxInfo). ok m.routes) (sym eq),
      )

  pub mux_with_routes-WasRefused :
      (o : Option ServiceObject) (e : Error)
      → mux_with_routes json_length client o ≡ err e
      → WasRefused o e
  unfolding build_mux_info
  mux_with_routes-WasRefused none e h = inl (refl, cc)
  mux_with_routes-WasRefused (some svc) e h = by_info (mux_info json_length svc) refl h
    where
      by_routes :
          (info : MuxInfo) (call : Result (List PortRoute))
          → with_routes json_length info call ≡ err e
          → call ≡ err e
      by_routes info (err e') h = cc
      by_routes info (ok routes) h = absurd (err-ne-ok (sym h))

      by_info :
          (r : Result MuxInfo)
          → mux_info json_length svc ≡ r
          → (r >>= (λ (info : MuxInfo).
              with_routes json_length info
                (routes_among client info.name info.namespace client.services)))
            ≡ err e
          → WasRefused (some svc) e
      by_info (err e') built h =
          let (missing, reason) = mux_info_refused svc e' built in
          inr (svc, refl, inl (missing, same_error h ∙ reason))
        where
          same_error : ◌≡◌ {A = Result MuxInfo} (err e') (err e) → e ≡ e'
          same_error h = cc
      by_info (ok info) built h =
          inr (svc, refl, inr (sym (own_routes svc info built) ∙ by_routes info _ h))
