-- ===== src/Controller/Steps.antt =====
-- What one round of the loop over the channels does to the ports and their owners.
use svc_lb_mux.Prelude.{
  ℕ, ◌≡◌, refl, sym, ap, subst, ◌∙◌, Bool, false, Option, some, List, [], ◌∷◌, ◌++◌, Bool-cases,
  inl, inr, Str, Result, ok, err, >>=-eq-ok, ok-injective,
}
use svc_lb_mux.Prelude.Dict.{Dict, union}
use svc_lb_mux.Prelude.Sort.{sort}
use svc_lb_mux.Model.{Channel, MuxPort, MuxPort-discrete, PortKey, channel_leb}
use mathlib.Core.List.{cons-ne-nil}
use svc_lb_mux.MuxState.Defs.{MuxState, allocate}
use svc_lb_mux.MuxState.Lifecycle.{record_channel_claims}
use svc_lb_mux.Reconcile.ExternalPorts.{resolve_channel_ports}
use svc_lb_mux.Reconcile.Limits.{would_exceed_mux_port_limit}
use svc_lb_mux.Reconcile.Conflicts.{Conflict, find_mux_port_conflicts}
use svc_lb_mux.Reconcile.ConflictLaws.{find_mux_port_conflicts_refused}
use svc_lb_mux.Reconcile.Endpoints.{collect_channel_endpoints}
use svc_lb_mux.Model.{Mux}
use svc_lb_mux.MuxState.Defs.{StoredDocument}
use svc_lb_mux.Reconcile.Limits.{effective_mux_max_ports, gke_max_ports_warning}
use svc_lb_mux.Reconcile.Owners.{collect_existing_port_owners}
use svc_lb_mux.Reconcile.Endpoints.{build_mux_ports}
use svc_lb_mux.Controller.Pass.{
  Cluster, Event, Outcome, limit_events, build_mux_state, start, iterate, Pass, accept,
  after_conflicts, after_resolve, reconcile_channel, reconcile_channels,
}

module _ (hex : Str → Str) (cluster : Cluster) (max_ports : Option ℕ) where
  -- A channel is skipped, with the ports and their owners as they were, or accepted with its ports.
  pub data Step (channel : Channel) (p p' : Pass) : Type 0 where
    skipped : p'.ports ≡ p.ports → p'.owners ≡ p.owners → Step channel p p'
    accepted :
        (ch_ports : List MuxPort) (annotation : Str) (s : MuxState)
        → would_exceed_mux_port_limit p.ports channel max_ports ≡ false
        → resolve_channel_ports hex (some (allocate hex)) channel p.mux_state
          ≡ (ok (ch_ports, annotation), s)
        → (find_mux_port_conflicts channel.namespace channel.name p.owners ch_ports).1 ≡ []
        → p'.owners ≡ (find_mux_port_conflicts channel.namespace channel.name p.owners ch_ports).0
        → p'.ports ≡ union MuxPort-discrete p.ports ch_ports
        → Step channel p p'

  module _ (channel : Channel) (p p' : Pass) where
    accept_ok :
        (ch_ports : List MuxPort) (annotation : Str) (owners : Dict PortKey Str) (s : MuxState)
        → accept hex cluster max_ports channel ch_ports annotation owners s p ≡ ok p'
        → (p'.owners ≡ owners) × (p'.ports ≡ union MuxPort-discrete p.ports ch_ports)
    accept_ok ch_ports annotation owners s h =
        let (_, _, rest) = >>=-eq-ok (record_channel_claims channel annotation s).0 _ h in
        let (_, _, patched) = >>=-eq-ok (cluster.patch_channel channel annotation) _ rest in
        let (_, _, same) =
          >>=-eq-ok (collect_channel_endpoints hex channel cluster.endpoints) _ patched in
        (
          ap (λ (q : Pass). q.owners) (sym (ok-injective same)),
          ap (λ (q : Pass). q.ports) (sym (ok-injective same)),
        )

    after_conflicts-Step :
        (ch_ports : List MuxPort) (annotation : Str) (s : MuxState)
        (r : Dict PortKey Str × List Conflict)
        → would_exceed_mux_port_limit p.ports channel max_ports ≡ false
        → resolve_channel_ports hex (some (allocate hex)) channel p.mux_state
          ≡ (ok (ch_ports, annotation), s)
        → r ≡ find_mux_port_conflicts channel.namespace channel.name p.owners ch_ports
        → after_conflicts hex cluster max_ports channel ch_ports annotation s p r ≡ ok p'
        → Step channel p p'
    after_conflicts-Step ch_ports annotation s (owners, []) fits resolved found h =
        let (owned, ported) = accept_ok ch_ports annotation owners s h in
        accepted ch_ports annotation s fits resolved (λ i. (sym found i).1)
          (owned ∙ λ i. (found i).0) ported
    after_conflicts-Step ch_ports annotation s (owners, c ∷ cs) fits resolved found h =
        let same = sym (ok-injective h) in
        skipped (ap (λ (q : Pass). q.ports) same) (
          ap (λ (q : Pass). q.owners) same
          ∙ (λ i. (found i).0)
          ∙ find_mux_port_conflicts_refused channel.namespace channel.name p.owners ch_ports
              (λ none_left. cons-ne-nil c cs ((λ i. (found i).1) ∙ none_left)))

    after_resolve-Step :
        (r : Result (List MuxPort × Str) × MuxState)
        → would_exceed_mux_port_limit p.ports channel max_ports ≡ false
        → resolve_channel_ports hex (some (allocate hex)) channel p.mux_state ≡ r
        → after_resolve hex cluster max_ports channel p r ≡ ok p'
        → Step channel p p'
    after_resolve-Step (err e, s) fits resolved h =
        skipped (ap (λ (q : Pass). q.ports) (sym (ok-injective h)))
          (ap (λ (q : Pass). q.owners) (sym (ok-injective h)))
    after_resolve-Step (ok (ch_ports, annotation), s) fits resolved h =
        after_conflicts-Step ch_ports annotation s
          (find_mux_port_conflicts channel.namespace channel.name p.owners ch_ports) fits resolved
          refl h

    pub reconcile_channel-Step :
        reconcile_channel hex cluster max_ports channel p ≡ ok p' → Step channel p p'
    unfolding reconcile_channel
    reconcile_channel-Step h =
        elim (Bool-cases (would_exceed_mux_port_limit p.ports channel max_ports)) [
          | inl exceeds ↦
              let same = sym (ok-injective (rw exceeds at h)) in
              skipped (ap (λ (q : Pass). q.ports) same) (ap (λ (q : Pass). q.owners) same)
          | inr fits ↦
              after_resolve-Step
                (resolve_channel_ports hex (some (allocate hex)) channel p.mux_state) fits refl
                (rw fits at h)
        ]

  -- What every round keeps, the loop keeps.
  pub reconcile_channels_induction {ℓ} :
      (P : Pass → Type ℓ)
      → ((c : Channel) (p p' : Pass) → Step c p p' → P p → P p')
      → (channels : List Channel) (p p' : Pass)
      → reconcile_channels hex cluster max_ports channels p ≡ ok p'
      → P p
      → P p'
  unfolding reconcile_channels
  reconcile_channels_induction P keep [] p p' h start = subst P (ok-injective h) start
  reconcile_channels_induction P keep (c ∷ channels) p p' h start =
      let (q, first, rest) =
        >>=-eq-ok (reconcile_channel hex cluster max_ports c p)
          (reconcile_channels hex cluster max_ports channels) h in
      reconcile_channels_induction P keep channels q p' rest
        (keep c p q (reconcile_channel-Step c p q first) start)

-- What a completed iteration has computed.
pub iterate_run :
    (hex : Str → Str) (cluster : Cluster) (mux : Mux) (old_ports : List MuxPort)
    (channels : List Channel) (exists : Bool) (stored : Result StoredDocument) (o : Outcome)
    → iterate hex cluster mux old_ports channels exists stored ≡ ok o
    → (recovered : Dict PortKey Str) × (built : MuxState × Bool × List Event) × (final : Pass)
      × (collect_existing_port_owners hex (sort channel_leb channels) old_ports ≡ ok recovered)
      × (build_mux_state mux (sort channel_leb channels) stored recovered ≡ ok built)
      × (reconcile_channels hex cluster
            (limit_events (gke_max_ports_warning mux) (effective_mux_max_ports mux)).0
            (sort channel_leb channels)
            (start hex cluster recovered built.0 (
              (limit_events (gke_max_ports_warning mux) (effective_mux_max_ports mux)).1
              ++ built.2))
          ≡ ok final)
      × (o.pass ≡ final)
      × (o.mux_ports ≡ build_mux_ports final.ports)
unfolding iterate
iterate_run hex cluster mux old_ports channels exists stored o h =
    let (recovered, first, h₁) =
      >>=-eq-ok (collect_existing_port_owners hex (sort channel_leb channels) old_ports) _ h in
    let (built, second, h₂) =
      >>=-eq-ok (build_mux_state mux (sort channel_leb channels) stored recovered) _ h₁ in
    let (final, third, h₃) =
      >>=-eq-ok
        (reconcile_channels hex cluster
          (limit_events (gke_max_ports_warning mux) (effective_mux_max_ports mux)).0
          (sort channel_leb channels)
          (start hex cluster recovered built.0 (
            (limit_events (gke_max_ports_warning mux) (effective_mux_max_ports mux)).1 ++ built.2)))
        _ h₂ in
    (
      recovered,
      built,
      final,
      first,
      second,
      third,
      ap (λ (q : Outcome). q.pass) (sym (ok-injective h₃)),
      ap (λ (q : Outcome). q.mux_ports) (sym (ok-injective h₃)),
    )
