-- ===== src/Controller/Readable.antt =====
-- When the reads of keys in an iteration of `mux_daemon` of `src/controller.py` do not raise: those of
-- the stored claims, by `_claims_by_key` of `src/mux_state.py`, and those of the Endpoints of a channel,
-- by `collect_channel_endpoints` of `src/reconcile.py`.
use svc_lb_mux.Prelude.{
  ◌≡◌, refl, Bool, true, false, ◌&&◌, Option, none, some, List, [], ◌∷◌, if◌then◌else◌, Str, All,
  is_empty, Result, ok, err,
}
use svc_lb_mux.Model.{Channel}
use svc_lb_mux.MuxState.Defs.{StoredClaim, StoredDocument}
use svc_lb_mux.MuxState.Lifecycle.{
  read_claim, read_claims, read_listed, older_claims, read_document,
}
use svc_lb_mux.Reconcile.Endpoints.{
  EndpointPort, Subset, EndpointsCache, cached, mux_endpoint_ports, with_ports, mux_subsets,
  collect_channel_endpoints,
}
use svc_lb_mux.Controller.Returns.{Returns, bind-Returns}

-- The key is there.
abbrev pub Has : Option Str → Type 0
Has o = (value : Str) × (o ≡ some value)

-- The claim has its namespace, service and port name.
abbrev pub HasKeys : StoredClaim → Type 0
HasKeys claim = Has claim.namespace × Has claim.service × Has claim.port_name

abbrev pub AllKeys : Option (List StoredClaim) → Type 0
AllKeys none = Unit {0}
AllKeys (some claims) = All HasKeys claims

-- The stored state cannot be loaded, which the iteration reports, or the claims that count have their
-- keys: the port claims, or without them the older allocations.
abbrev pub IsReadableState : Result StoredDocument → Type 0
IsReadableState (err e) = Unit {0}
IsReadableState (ok stored) = AllKeys stored.port_claims × AllKeys (older_claims stored)

-- The ports of the cached Endpoints of the channel have names.
abbrev pub HasNamedEndpoints : EndpointsCache → Channel → Type 0
HasNamedEndpoints cache channel =
    All (λ (s : Subset). All (λ (p : EndpointPort). Has p.name) s.ports)
      (cached cache (channel.namespace, channel.name))

read_claim-Returns : (claim : StoredClaim) → HasKeys claim → Returns (read_claim claim)
unfolding read_claim
read_claim-Returns claim ((n, namespace), (s, service), (p, port_name)) =
    rw (namespace, service, port_name) (_, refl)

read_claims-Returns :
    (claims : List StoredClaim) → All HasKeys claims → Returns (read_claims claims)
unfolding read_claims
read_claims-Returns [] h = ([], refl)
read_claims-Returns (claim ∷ claims) (first, others) =
    bind-Returns (read_claim claim) _ (read_claim-Returns claim first) (λ _ _.
      bind-Returns (read_claims claims) _ (read_claims-Returns claims others) (λ _ _. (_, refl)))

read_listed-Returns :
    (listed : Option (List StoredClaim)) → AllKeys listed → Returns (read_listed listed)
read_listed-Returns none h = (none, refl)
read_listed-Returns (some claims) h =
    bind-Returns (read_claims claims) _ (read_claims-Returns claims h) (λ _ _. (_, refl))

pub read_document-Returns :
    (stored : StoredDocument) → IsReadableState (ok stored) → Returns (read_document stored)
unfolding read_document
read_document-Returns stored (claims, older) =
    bind-Returns (read_listed stored.port_claims) _ (read_listed-Returns stored.port_claims claims)
      (λ _ _.
        bind-Returns (read_listed (older_claims stored)) _
          (read_listed-Returns (older_claims stored) older) (λ _ _. (_, refl)))

module _ (hex : Str → Str) (channel : Channel) where
  ports-Returns :
      (ps : List EndpointPort)
      → All (λ (p : EndpointPort). Has p.name) ps
      → Returns (mux_endpoint_ports hex channel ps)
  unfolding mux_endpoint_ports
  ports-Returns [] h = ([], refl)
  ports-Returns (p ∷ ps) ((name, there), h) =
      rw there
        (bind-Returns (mux_endpoint_ports hex channel ps) _ (ports-Returns ps h) (λ _ _. (_, refl)))

  subsets-Returns :
      (subsets : List Subset)
      → All (λ (s : Subset). All (λ (p : EndpointPort). Has p.name) s.ports) subsets
      → Returns (mux_subsets hex channel subsets)
  unfolding mux_subsets
  subsets-Returns [] h = ([], refl)
  subsets-Returns (s ∷ subsets) (named, h) =
      by_addresses (is_empty s.addresses && is_empty s.not_ready_addresses)
        (subsets-Returns subsets h)
    where
      by_addresses :
          (b : Bool)
          → Returns (mux_subsets hex channel subsets)
          → Returns (
              if b
              then mux_subsets hex channel subsets
              else with_ports hex channel s
                  (mux_endpoint_ports hex channel s.ports)
                  (mux_subsets hex channel subsets))
      by_addresses true rest = rest
      by_addresses false rest =
          bind-Returns (mux_endpoint_ports hex channel s.ports) _ (ports-Returns s.ports named)
            (λ _ _. bind-Returns (mux_subsets hex channel subsets) _ rest (λ _ _. (_, refl)))

  pub collect-Returns :
      (cache : EndpointsCache)
      → HasNamedEndpoints cache channel
      → Returns (collect_channel_endpoints hex channel cache)
  unfolding collect_channel_endpoints
  collect-Returns cache h = subsets-Returns (cached cache (channel.namespace, channel.name)) h
