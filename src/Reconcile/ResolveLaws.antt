-- ===== src/Reconcile/ResolveLaws.antt =====
-- The ports that `resolve_channel_ports` gives a channel.
use svc_lb_mux.Prelude.{
  continue_ok, err-ne-ok, ◌+◌, ◌≤◌, ◌≡◌, refl, subst, ◌∙◌, List, [], ◌∷◌, ◌++◌, arith, All, Str,
  length, ℤ, Result, ok, err,
}
use svc_lb_mux.Prelude.Dict.{Dict, add}
use svc_lb_mux.Model.{Port, Channel, MuxPort, MuxPort-discrete, or_empty}
use svc_lb_mux.Prelude.Dict.Laws.{All-add, length-add-le}
use svc_lb_mux.Annotations.Mappings.{Mapping, format_channel_port_annotation}
use svc_lb_mux.Reconcile.ExternalPorts.{
  Allocator, Requested, mux_port_of, resolve_channel_external_port, resolve_ports, resolve_explicit,
  with_annotation, resolve_channel_ports, channel_port_claims,
}

module _ {S : Type 0} (hex : Str → Str) (allocator : Allocator S) (channel : Channel) where
  resolve_ports-length :
      (explicit_ports : Dict Str Requested) (ps : List Port) (ports : List MuxPort)
      (mappings : List Mapping) (s : S) (ports' : List MuxPort) (mappings' : List Mapping) (s' : S)
      → resolve_ports hex allocator channel explicit_ports ps ports mappings s
        ≡ (ok (ports', mappings'), s')
      → length ports' ≤ length ports + length ps
  unfolding resolve_ports
  resolve_ports-length explicit [] ports mappings s ports' mappings' s' h =
      let same : ports ≡ ports' = cc in rw (← same) (omega arith)
  resolve_ports-length explicit (p ∷ ps) ports mappings s ports' mappings' s' h =
      let (z, s₁, first, rest) =
        continue_ok (resolve_channel_external_port allocator channel explicit p s) _
          (ports', mappings') s' h in
      omega (
        arith,
        resolve_ports-length explicit ps (add MuxPort-discrete (mux_port_of hex channel p z) ports)
            (mappings ++ (or_empty p.name, p.port, z) ∷ []) s₁ ports' mappings' s' rest,
        length-add-le MuxPort-discrete (mux_port_of hex channel p z) ports,
      )

  -- What holds of all ports of the channel, whatever their number, holds of all resolved ports.
  resolve_ports-All :
      (P : MuxPort → Type 0)
      → ((p : Port) (z : ℤ) → P (mux_port_of hex channel p z))
      → (explicit_ports : Dict Str Requested) (ps : List Port) (ports : List MuxPort)
        (mappings : List Mapping) (s : S) (ports' : List MuxPort) (mappings' : List Mapping)
        (s' : S)
      → resolve_ports hex allocator channel explicit_ports ps ports mappings s
        ≡ (ok (ports', mappings'), s')
      → All P ports
      → All P ports'
  unfolding resolve_ports
  resolve_ports-All P each explicit [] ports mappings s ports' mappings' s' h start =
      let same : ports ≡ ports' = cc in subst (All P) same start
  resolve_ports-All P each explicit (p ∷ ps) ports mappings s ports' mappings' s' h start =
      let (z, s₁, first, rest) =
        continue_ok (resolve_channel_external_port allocator channel explicit p s) _
          (ports', mappings') s' h in
      resolve_ports-All P each explicit ps
        (add MuxPort-discrete (mux_port_of hex channel p z) ports)
        (mappings ++ (or_empty p.name, p.port, z) ∷ []) s₁ ports' mappings' s' rest
        (All-add MuxPort-discrete P (mux_port_of hex channel p z) ports (each p z) start)

  resolve_explicit_run :
      (r : Result (Dict Str Requested)) (s : S) (ports : List MuxPort) (annotation : Str) (s' : S)
      → resolve_explicit hex allocator channel r s ≡ (ok (ports, annotation), s')
      → (explicit_ports : Dict Str Requested) × (mappings : List Mapping) × (r ≡ ok explicit_ports)
        × (resolve_ports hex allocator channel explicit_ports channel.ports [] [] s
            ≡ (ok (ports, mappings), s'))
        × (annotation ≡ format_channel_port_annotation mappings)
  resolve_explicit_run (err e) s ports annotation s' h = absurd (err-ne-ok (λ i. (h i).0))
  resolve_explicit_run (ok explicit) s ports annotation s' h =
      let ((found, mappings), s₁, run, rest) =
        continue_ok (resolve_ports hex allocator channel explicit channel.ports [] [] s)
          (with_annotation hex allocator channel) (ports, annotation) s' h in
      let same : found ≡ ports = cc in
      let state : s₁ ≡ s' = cc in
      let shown : annotation ≡ format_channel_port_annotation mappings = cc in
      (explicit, mappings, refl, run ∙ (λ i. (ok (same i, mappings), state i)), shown)

  -- The call of the loop behind a successful resolution.
  pub resolve_channel_ports_run :
      (s : S) (ports : List MuxPort) (annotation : Str) (s' : S)
      → resolve_channel_ports hex allocator channel s ≡ (ok (ports, annotation), s')
      → (explicit_ports : Dict Str Requested) × (mappings : List Mapping) × (channel_port_claims
            channel
          ≡ ok explicit_ports)
        × (resolve_ports hex allocator channel explicit_ports channel.ports [] [] s
            ≡ (ok (ports, mappings), s'))
        × (annotation ≡ format_channel_port_annotation mappings)
  unfolding resolve_channel_ports
  resolve_channel_ports_run s ports annotation s' h =
      resolve_explicit_run (channel_port_claims channel) s ports annotation s' h

  -- A channel never gets more mux ports than its spec has ports.
  pub resolve_channel_ports-length :
      (s : S) (ports : List MuxPort) (annotation : Str) (s' : S)
      → resolve_channel_ports hex allocator channel s ≡ (ok (ports, annotation), s')
      → length ports ≤ length channel.ports
  resolve_channel_ports-length s ports annotation s' h =
      let (explicit, mappings, _, run, _) = resolve_channel_ports_run s ports annotation s' h in
      omega (arith, resolve_ports-length explicit channel.ports [] [] s ports mappings s' run)

  pub resolve_channel_ports-All :
      (P : MuxPort → Type 0)
      → ((p : Port) (z : ℤ) → P (mux_port_of hex channel p z))
      → (s : S) (ports : List MuxPort) (annotation : Str) (s' : S)
      → resolve_channel_ports hex allocator channel s ≡ (ok (ports, annotation), s')
      → All P ports
  resolve_channel_ports-All P each s ports annotation s' h =
      let (explicit, mappings, _, run, _) = resolve_channel_ports_run s ports annotation s' h in
      resolve_ports-All P each explicit channel.ports [] [] s ports mappings s' run tt
