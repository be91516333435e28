-- ===== src/Muxdebug/RouteLaws.antt =====
-- Which routes `_build_routes` of `tools/muxdebug/debugger.py` gives a mux, and which of them lead to a
-- pod.
use svc_lb_mux.Prelude.{
  ◌≡◌, refl, sym, ap, subst, ◌∙◌, true, false, Option, none, some, List, [], ◌∷◌, if_pos,
  Bool-cases, inl, inr, ◌↔◌, Some, any, Str, Str-discrete, Result, ok, err, >>=-eq-ok, ok-injective,
  false≢true, ℤ,
}
use svc_lb_mux.Prelude.Dict.{Dict}
use svc_lb_mux.Model.{Port, annotation_of, annotation_ports, or_blank, or_tcp}
use svc_lb_mux.Muxdebug.Parse.{parse_mux_from_lb_class, parse_channel_port_mappings}
use svc_lb_mux.Muxdebug.Routes.{
  ServiceObject, PodSubset, PodInfo, PortRoute, Client, pod_infos_of, is_truthy, mux_port_of,
  port_routes, is_same_mux, names_mux, channel_routes,
}
use svc_lb_mux.Muxdebug.Find.{is_target, leads_to}
use svc_lb_mux.Muxdebug.PodLaws.{ite_true, both, HasPod, extract_pod_infos-HasPod}

-- The route is that of a port of the channel, which has a mux port: the one that the controller wrote
-- for the name of the port, or else its own number.
abbrev pub Carries : ServiceObject → Dict Str ℤ → PortRoute → Port → Type 0
Carries channel mappings route port =
    (is_truthy (mux_port_of mappings port) ≡ true)
    × (route.mux_port ≡ mux_port_of mappings port)
    × (route.protocol ≡ or_tcp port.protocol)
    × (route.channel_port ≡ port.port)
    × (route.channel_name ≡ channel.name)
    × (route.channel_namespace ≡ channel.namespace)

module _ (channel : ServiceObject) (mappings : Dict Str ℤ) (pods : List PodInfo) where
  port_routes-Carries :
      (ports : List Port) (route : PortRoute)
      → Some (λ r. r ≡ route) (port_routes channel mappings pods ports)
      → Some (Carries channel mappings route) ports × (route.target_pods ≡ pods)
  unfolding port_routes
  port_routes-Carries [] route h = absurd h
  port_routes-Carries (p ∷ ports) route h = elim (Bool-cases (is_truthy (mux_port_of mappings p))) [
    | inl truthy ↦ elim (rw truthy at h) [
      | inl same ↦ (
        inl (
          truthy,
          ap (λ (q : PortRoute). q.mux_port) (sym same),
          ap (λ (q : PortRoute). q.protocol) (sym same),
          ap (λ (q : PortRoute). q.channel_port) (sym same),
          ap (λ (q : PortRoute). q.channel_name) (sym same),
          ap (λ (q : PortRoute). q.channel_namespace) (sym same),
        ),
        ap (λ (q : PortRoute). q.target_pods) (sym same),
      )
      | inr behind ↦
          let (carried, targets) = port_routes-Carries ports route behind in (inr carried, targets)
    ]
    | inr falsy ↦
        let (carried, targets) = port_routes-Carries ports route (rw falsy at h) in
        (inr carried, targets)
  ]

  port_routes-leads :
      (pod_name namespace : Str) (ports : List Port)
      → any (is_target pod_name namespace) pods ≡ true
      → Some (λ p. is_truthy (mux_port_of mappings p) ≡ true) ports
      → Some (λ r. leads_to pod_name namespace r ≡ true) (port_routes channel mappings pods ports)
  unfolding port_routes
  port_routes-leads pod_name namespace [] found h = absurd h
  port_routes-leads pod_name namespace (p ∷ ports) found (inl truthy) = rw truthy (inl found)
  port_routes-leads pod_name namespace (p ∷ ports) found (inr h) =
      elim (Bool-cases (is_truthy (mux_port_of mappings p))) [
        | inl truthy ↦ rw truthy (inl found)
        | inr falsy ↦ rw falsy (port_routes-leads pod_name namespace ports found h)
      ]

module _ (client : Client) (mux_name mux_namespace : Str) where
  -- The class of the channel names the mux.
  abbrev pub Names : ServiceObject → Type 0
  Names channel =
      parse_mux_from_lb_class (or_blank channel.load_balancer_class) mux_namespace
      ≡ ok (mux_name, mux_namespace)

  abbrev pub mappings_of : ServiceObject → Result (Dict Str ℤ)
  mappings_of channel =
      parse_channel_port_mappings (annotation_of channel.annotations annotation_ports)

  -- The ports annotation of the channel can be read, the Endpoints of the channel have the pod, and the
  -- route is that of one of its ports.
  abbrev pub Exposes : Str → Str → PortRoute → ServiceObject → Type 0
  Exposes pod_name namespace route channel =
      (mappings : Dict Str ℤ) × (subsets : List PodSubset) × (mappings_of channel ≡ ok mappings)
      × (client.get_endpoints channel.name channel.namespace ≡ some subsets)
      × HasPod pod_name namespace subsets
      × Some (Carries channel mappings route) channel.ports

  -- The same, of some port with a mux port.
  abbrev pub Reaches : Str → Str → ServiceObject → Type 0
  Reaches pod_name namespace channel =
      (mappings : Dict Str ℤ) × (subsets : List PodSubset) × (mappings_of channel ≡ ok mappings)
      × (client.get_endpoints channel.name channel.namespace ≡ some subsets)
      × HasPod pod_name namespace subsets
      × Some (λ p. is_truthy (mux_port_of mappings p) ≡ true) channel.ports

  pub names_mux-Names :
      (channel : ServiceObject) → (names_mux mux_name mux_namespace channel ≡ true) ↔ Names channel
  names_mux-Names channel = (
    (λ h.
        by_class (parse_mux_from_lb_class (or_blank channel.load_balancer_class) mux_namespace) h),
    (λ h. ap (is_same_mux mux_name mux_namespace) h ∙ own),
  )
    where
      by_class :
          (r : Result (Str × Str))
          → is_same_mux mux_name mux_namespace r ≡ true
          → r ≡ ok (mux_name, mux_namespace)
      by_class (err e) h = cc
      by_class (ok (name, namespace)) h =
          let (named, placed) = both [] [] _ _ h in
          let same_name = ite_true (Str-discrete name mux_name) named in
          let same_namespace = ite_true (Str-discrete namespace mux_namespace) placed in
          λ i. ok (same_name i, same_namespace i)

      own : is_same_mux mux_name mux_namespace (ok (mux_name, mux_namespace)) ≡ true
      own =
          rw
            (
              if_pos (Str-discrete mux_name mux_name) refl true false,
              if_pos (Str-discrete mux_namespace mux_namespace) refl true false,
            )
            refl

  pub channel_routes-Exposes :
      (pod_name namespace : Str) (channel : ServiceObject) (routes : List PortRoute)
      (route : PortRoute)
      → channel_routes client channel ≡ ok routes
      → Some (λ r. r ≡ route) routes
      → leads_to pod_name namespace route ≡ true
      → Exposes pod_name namespace route channel
  unfolding channel_routes
  channel_routes-Exposes pod_name namespace channel routes route h among leads =
      let (mappings, read, rest) = >>=-eq-ok (mappings_of channel) _ h in
      let (carried, targets) =
        port_routes-Carries channel mappings
          (pod_infos_of (client.get_endpoints channel.name channel.namespace)) channel.ports route
          (subst (Some (λ r. r ≡ route)) (sym (ok-injective rest)) among) in
      by_endpoints mappings read carried (client.get_endpoints channel.name channel.namespace) refl
        (ap (any (is_target pod_name namespace)) (sym targets) ∙ leads)
    where
      by_endpoints :
          (mappings : Dict Str ℤ)
          → mappings_of channel ≡ ok mappings
          → Some (Carries channel mappings route) channel.ports
          → (o : Option (List PodSubset)) → client.get_endpoints channel.name channel.namespace ≡ o
          → any (is_target pod_name namespace) (pod_infos_of o) ≡ true
          → Exposes pod_name namespace route channel
      by_endpoints mappings read carried none at h = absurd (false≢true h)
      by_endpoints mappings read carried (some subsets) at h = (
        mappings,
        subsets,
        read,
        at,
        (extract_pod_infos-HasPod pod_name namespace subsets).0 h,
        carried,
      )

  pub channel_routes-Reaches :
      (pod_name namespace : Str) (channel : ServiceObject) (routes : List PortRoute)
      → channel_routes client channel ≡ ok routes
      → Reaches pod_name namespace channel
      → Some (λ r. leads_to pod_name namespace r ≡ true) routes
  unfolding channel_routes
  channel_routes-Reaches pod_name namespace channel routes h
        (mappings, subsets, read, at, has, truthy) =
      let (mappings', read', rest) = >>=-eq-ok (mappings_of channel) _ h in
      let same : mappings' ≡ mappings = ok-injective (sym read' ∙ read) in
      subst (Some (λ r. leads_to pod_name namespace r ≡ true)) (ok-injective rest) (
        port_routes-leads channel mappings'
          (pod_infos_of (client.get_endpoints channel.name channel.namespace)) pod_name namespace
          channel.ports
          (ap (λ o. any (is_target pod_name namespace) (pod_infos_of o)) at
            ∙ (extract_pod_infos-HasPod pod_name namespace subsets).1 has)
          (subst (λ m. Some (λ p. is_truthy (mux_port_of m p) ≡ true) channel.ports) (sym same)
            truthy))
