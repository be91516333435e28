-- ===== src/Controller/Limit.antt =====
-- A mux never gets more ports than its limit.
use svc_lb_mux.Prelude.{
  ℕ, ◌+◌, ◌≤◌, ◌≡◌, refl, sym, subst, Bool, true, false, not, Option, none, some, List, [], ◌∷◌,
  ◌++◌, arith, ltb, Bool-cases, inl, inr, Str, filter, length, Result, ok, err, >>=-eq-ok,
  ok-injective,
}
use svc_lb_mux.Prelude.Sort.{sort}
use svc_lb_mux.Model.{Channel, MuxPort, MuxPort-discrete, channel_leb}
use svc_lb_mux.Prelude.Dict.Laws.{length-union-le}
use svc_lb_mux.Model.{Mux}
use svc_lb_mux.MuxState.Defs.{StoredDocument}
use svc_lb_mux.Reconcile.ResolveLaws.{resolve_channel_ports-length}
use svc_lb_mux.MuxState.Defs.{allocate}
use svc_lb_mux.Reconcile.Limits.{
  would_exceed_mux_port_limit, effective_mux_max_ports, gke_max_ports_warning, requested_max_ports,
  is_gke_load_balancer_service, cap_at, gke_max_ports, Warning,
}
use svc_lb_mux.Reconcile.Endpoints.{build_mux_ports, is_placeholder}
use svc_lb_mux.Controller.Pass.{
  Cluster, Pass, Outcome, limit_events, start, reconcile_channels, iterate,
}
use svc_lb_mux.Controller.Steps.{Step, reconcile_channels_induction, iterate_run}

within_limit :
    (n : ℕ) (ports : List MuxPort) (channel : Channel)
    → would_exceed_mux_port_limit ports channel (some n) ≡ false
    → length ports + length channel.ports ≤ n
unfolding would_exceed_mux_port_limit
within_limit n ports channel h = ground arith

module _ (hex : Str → Str) (cluster : Cluster) (n : ℕ) where
  Step-limit :
      (c : Channel) (p p' : Pass)
      → Step hex cluster (some n) c p p'
      → length p.ports ≤ n
      → length p'.ports ≤ n
  Step-limit c p p' (Step.skipped ports owners) h = rw ports h
  Step-limit c p p' (Step.accepted ch_ports annotation s fits resolved free owners ports) h =
      rw ports (
        omega (
          arith,
          length-union-le MuxPort-discrete p.ports ch_ports,
          resolve_channel_ports-length hex (some (allocate hex)) c p.mux_state ch_ports annotation s
              resolved,
          within_limit n p.ports c fits,
        ))

  -- With a limit, and from ports that do not exceed it, the loop over the channels never exceeds it,
  -- whatever the channels ask for.
  pub reconcile_channels-limit :
      (channels : List Channel) (p p' : Pass)
      → reconcile_channels hex cluster (some n) channels p ≡ ok p'
      → length p.ports ≤ n
      → length p'.ports ≤ n
  reconcile_channels-limit =
      reconcile_channels_induction hex cluster (some n) (λ p. length p.ports ≤ n) Step-limit

-- The limit of a mux on GKE is at most 100.
effective_mux_max_ports-gke :
    (mux : Mux) (limit : Option ℕ)
    → is_gke_load_balancer_service mux ≡ true
    → effective_mux_max_ports mux ≡ ok limit
    → (n : ℕ) × (limit ≡ some n) × (n ≤ 100)
unfolding effective_mux_max_ports
effective_mux_max_ports-gke mux limit gke h =
    let (asked, _, capped) = >>=-eq-ok (requested_max_ports mux) _ h in
    from_cap asked (sym (ok-injective (rw gke at capped)))
  where
    from_cap :
        (o : Option ℕ) → limit ≡ cap_at gke_max_ports o → (n : ℕ) × (limit ≡ some n) × (n ≤ 100)
    from_cap none e = (100, e, omega arith)
    from_cap (some m) e = elim (Bool-cases (ltb gke_max_ports m)) [
      | inl large ↦ (100, rw large at e, omega arith)
      | inr small ↦ (m, rw small at e, ground arith)
    ]

limit_events-gke :
    (mux : Mux) (w : Result (Option Warning)) (r : Result (Option ℕ))
    → is_gke_load_balancer_service mux ≡ true
    → effective_mux_max_ports mux ≡ r
    → (n : ℕ) × ((limit_events w r).0 ≡ some n) × (n ≤ 100)
limit_events-gke mux (err e) r gke h = (0, refl, omega arith)
limit_events-gke mux (ok w) (err e) gke h = (0, refl, omega arith)
limit_events-gke mux (ok none) (ok limit) gke h = effective_mux_max_ports-gke mux limit gke h
limit_events-gke mux (ok (some w)) (ok limit) gke h = effective_mux_max_ports-gke mux limit gke h

length-filter-le : (p : MuxPort → Bool) (xs : List MuxPort) → length (filter p xs) ≤ length xs
length-filter-le p [] = omega arith
length-filter-le p (x ∷ xs) = ground (arith, length-filter-le p xs)

length-build_mux_ports :
    (ports : List MuxPort) → length ports ≤ 100 → length (build_mux_ports ports) ≤ 100
unfolding build_mux_ports
length-build_mux_ports [] h = omega arith
length-build_mux_ports (p ∷ ports) h =
    omega (arith, length-filter-le (λ (q : MuxPort). not (is_placeholder q)) (p ∷ ports))

-- On GKE, an iteration gives the mux Service at most 100 ports, whatever the channels, the
-- annotations of the mux and the stored state are.
pub iterate-gke_limit :
    (hex : Str → Str) (cluster : Cluster) (mux : Mux) (old_ports : List MuxPort)
    (channels : List Channel) (exists : Bool) (stored : Result StoredDocument) (o : Outcome)
    → is_gke_load_balancer_service mux ≡ true
    → iterate hex cluster mux old_ports channels exists stored ≡ ok o
    → length o.mux_ports ≤ 100
iterate-gke_limit hex cluster mux old_ports channels exists stored o gke h =
    let (recovered, built, final, _, _, run, passed, shown) =
      iterate_run hex cluster mux old_ports channels exists stored o h in
    let (n, limit, small) =
      limit_events-gke mux (gke_max_ports_warning mux) (effective_mux_max_ports mux) gke refl in
    let begin =
      start hex cluster recovered built.0
        ((limit_events (gke_max_ports_warning mux) (effective_mux_max_ports mux)).1 ++ built.2) in
    let bounded : length final.ports ≤ n =
      reconcile_channels-limit hex cluster n (sort channel_leb channels) begin final
        (subst (λ l. reconcile_channels hex cluster l (sort channel_leb channels) begin ≡ ok final)
          limit run)
        (omega arith) in
    rw shown (length-build_mux_ports final.ports (omega arith))
