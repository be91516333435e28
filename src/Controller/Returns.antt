-- ===== src/Controller/Returns.antt =====
-- What the calls of an iteration of `mux_daemon` of `src/controller.py` return for channels as the API
-- server has them.
use svc_lb_mux.Prelude.{
  ℕ, ◌≡◌, refl, sym, subst, ap, ◌∙◌, true, Option, none, some, List, [], ◌∷◌, ◌++◌, if◌then◌else◌,
  Str, ℤ, pos, negsuc, All, All-append, Result, ok, err, ◌>>=◌, ok-injective, err-ne-ok,
  continue_ok,
}
use svc_lb_mux.Prelude.Dict.{Dict, add}
use svc_lb_mux.Model.{
  int, Port, Channel, MuxPort, PortKey, PortKey-discrete, MuxPort-discrete, in_port_range, or_tcp,
  or_empty, annotation_of, annotation_ports, from_channel_port,
}
use svc_lb_mux.Annotations.Mappings.{Mapping, parse_port_mappings}
use svc_lb_mux.Annotations.RoundTrip.{IsPortName, IsMapping, parse_port_mappings-format}
use svc_lb_mux.PortAllocations.Ranges.{Range, contains_port}
use svc_lb_mux.MuxState.Defs.{MuxState, allocate, ref_owner}
use svc_lb_mux.MuxState.Found.{Found}
use svc_lb_mux.MuxState.Allocate.{allocate-Found}
use svc_lb_mux.MuxState.Lifecycle.{record_channel_claims, record_mappings}
use svc_lb_mux.Reconcile.ExternalPorts.{
  Requested, automatic, fixed, requested_for, is_auto, resolve_requested,
  resolve_channel_external_port, validate_port_number, mux_port_of, resolve_ports,
  resolve_channel_ports, channel_port_claims, static_claims, static_claims_of,
  collect_static_port_claims, int_result,
}
use svc_lb_mux.Reconcile.ResolveLaws.{resolve_channel_ports_run}
use svc_lb_mux.Reconcile.Owners.{owners_from_channel_port_annotations, note_mappings}

-- A port of a Service as the API server accepts it: a name without white space, commas and colons, and
-- a port number.
abbrev pub IsServicePort : Port → Type 0
IsServicePort p =
    IsPortName (or_empty p.name)
    × ((n : ℕ) × (p.port ≡ int (pos n)) × (in_port_range (pos n) ≡ ok n))

-- A channel with such ports, whose annotation of mux ports, if it has one, can be read.
abbrev pub IsReadableChannel : Channel → Type 0
IsReadableChannel c =
    All IsServicePort c.ports
    × ((mappings : Dict Str Str) × (parse_port_mappings
            (annotation_of c.annotations annotation_ports)
          ≡ ok mappings))

-- The call returns.
abbrev pub Returns : {A : Type 0} → Result A → Type 0
Returns {A} r = (a : A) × (r ≡ ok a)

pub bind-Returns :
    {X Y : Type 0} (call : Result X) (rest : X → Result Y)
    → Returns call
    → ((x : X) → call ≡ ok x → Returns (rest x))
    → Returns (call >>= rest)
bind-Returns (ok x) rest h later = later x refl
bind-Returns (err e) rest (x, h) later = absurd (err-ne-ok h)

pub annotations-Returns :
    (hex : Str → Str) (channels : List Channel) (owners : Dict PortKey (List Str))
    → All IsReadableChannel channels
    → Returns (owners_from_channel_port_annotations hex channels owners)
unfolding owners_from_channel_port_annotations
annotations-Returns hex [] owners h = (owners, refl)
annotations-Returns hex (c ∷ channels) owners ((ports, readable), h) =
    bind-Returns (parse_port_mappings (annotation_of c.annotations annotation_ports)) _ readable
      (λ mappings _.
        annotations-Returns hex channels (note_mappings hex c mappings c.ports owners) h)

static-Returns :
    (channel : Channel) (explicit : Dict Str Requested) (ps : List Port) (claims : List PortKey)
    → All IsServicePort ps
    → Returns (static_claims channel explicit ps claims)
unfolding static_claims resolve_channel_external_port validate_port_number
static-Returns channel explicit [] claims h = (claims, refl)
static-Returns channel explicit (p ∷ ps) claims (good, h) =
    by_request (requested_for explicit p) (static-Returns channel explicit ps claims h) (λ z.
      static-Returns channel explicit ps (add PortKey-discrete (z, or_tcp p.protocol) claims) h)
  where
    by_request :
        (r : Option Requested)
        → Returns (static_claims channel explicit ps claims)
        → ((z : ℤ)
            → Returns (
                static_claims channel explicit ps
                  (add PortKey-discrete (z, or_tcp p.protocol) claims)))
        → Returns (
            if is_auto r
            then static_claims channel explicit ps claims
            else ((resolve_requested {S = Unit {0}} none channel p r tt).0 >>= (λ z.
                static_claims channel explicit ps
                  (add PortKey-discrete (z, or_tcp p.protocol) claims))))
    by_request (some automatic) skipped later = skipped
    by_request (some (fixed n)) skipped later = later (pos n)
    by_request none skipped later =
        let (_, (n, number, range)) = good in rw (number, range) (later (pos n))

pub collect_static-Returns :
    (channels : List Channel) (claims : List PortKey)
    → All IsReadableChannel channels
    → Returns (collect_static_port_claims channels claims)
unfolding collect_static_port_claims
collect_static-Returns [] claims h = (claims, refl)
collect_static-Returns (c ∷ channels) claims ((ports, _), h) =
    bind-Returns (static_claims_of c (channel_port_claims c) claims) _
      (by_claims (channel_port_claims c)) (λ more _. collect_static-Returns channels more h)
  where
    by_claims : (r : Result (Dict Str Requested)) → Returns (static_claims_of c r claims)
    by_claims (err e) = (claims, refl)
    by_claims (ok explicit) = static-Returns c explicit c.ports claims ports

-- The number is not negative.
abbrev pub IsNatural : ℤ → Type 0
IsNatural z = (n : ℕ) × (z ≡ pos n)

contains_port-IsNatural :
    (ranges : List Range) (z : ℤ) → contains_port ranges z ≡ true → IsNatural z
unfolding contains_port
contains_port-IsNatural ranges (pos n) h = (n, refl)
contains_port-IsNatural [] (negsuc n) h = cc
contains_port-IsNatural (r ∷ ranges) (negsuc n) h = contains_port-IsNatural ranges (negsuc n) h

module _ (hex : Str → Str) (channel : Channel) where
  allocate-IsNatural :
      (p : Port) (s : MuxState) (z : ℤ) (s' : MuxState)
      → allocate hex channel p s ≡ (ok z, s')
      → IsNatural z
  allocate-IsNatural p s z s' h = from_found (allocate-Found hex channel p s z s' h)
    where
      from_found :
          Found s
            (from_channel_port channel p)
            p.port
            (ref_owner hex (from_channel_port channel p))
            z
            s'
          → IsNatural z
      from_found (Found.kept c there at inside free same) =
          contains_port-IsNatural s.ranges z inside
      from_found (Found.fresh n number found written) = (n, number)

  resolve-IsNatural :
      (explicit : Dict Str Requested) (p : Port) (s : MuxState) (z : ℤ) (s' : MuxState)
      → resolve_channel_external_port (some (allocate hex)) channel explicit p s ≡ (ok z, s')
      → IsNatural z
  unfolding resolve_channel_external_port
  resolve-IsNatural explicit p s z s' h = by_request (requested_for explicit p) h
    where
      by_number :
          (r : Result ℕ) → ◌≡◌ {A = Result ℤ × MuxState} (int_result r, s) (ok z, s') → IsNatural z
      by_number (ok n) h = (n, sym (ok-injective (λ i. (h i).0)))
      by_number (err e) h = absurd (err-ne-ok (λ i. (h i).0))

      by_request :
          (r : Option Requested)
          → resolve_requested (some (allocate hex)) channel p r s ≡ (ok z, s')
          → IsNatural z
      by_request (some automatic) h = allocate-IsNatural p s z s' h
      by_request (some (fixed n)) h = (n, sym (ok-injective (λ i. (h i).0)))
      by_request none h = by_number (validate_port_number p.port) h

  resolve_ports-IsMapping :
      (explicit : Dict Str Requested) (ps : List Port) (ports : List MuxPort)
      (mappings : List Mapping) (s : MuxState) (ports' : List MuxPort) (mappings' : List Mapping)
      (s' : MuxState)
      → All IsServicePort ps
      → All IsMapping mappings
      → resolve_ports hex (some (allocate hex)) channel explicit ps ports mappings s
        ≡ (ok (ports', mappings'), s')
      → All IsMapping mappings'
  unfolding resolve_ports
  resolve_ports-IsMapping explicit [] ports mappings s ports' mappings' s' good h run =
      let same : mappings ≡ mappings' = cc in subst (All IsMapping) same h
  resolve_ports-IsMapping explicit (p ∷ ps) ports mappings s ports' mappings' s'
        ((name, (n, number, _)), good) h run =
      let (z, s₁, first, rest) =
        continue_ok (resolve_channel_external_port (some (allocate hex)) channel explicit p s) _
          (ports', mappings') s' run in
      resolve_ports-IsMapping explicit ps (add MuxPort-discrete (mux_port_of hex channel p z) ports)
        (mappings ++ (or_empty p.name, p.port, z) ∷ []) s₁ ports' mappings' s' good
        (All-append IsMapping mappings ((or_empty p.name, p.port, z) ∷ []) h
          ((name, (n, number), resolve-IsNatural explicit p s z s₁ first), tt))
        rest

  -- The annotation of a channel whose ports were resolved can be read back.
  pub resolved-IsReadable :
      (s : MuxState) (ports : List MuxPort) (annotation : Str) (s' : MuxState)
      → All IsServicePort channel.ports
      → resolve_channel_ports hex (some (allocate hex)) channel s ≡ (ok (ports, annotation), s')
      → Returns (parse_port_mappings annotation)
  resolved-IsReadable s ports annotation s' good run =
      let (explicit, mappings, _, loop, shown) =
        resolve_channel_ports_run hex (some (allocate hex)) channel s ports annotation s' run in
      (
        _,
        ap parse_port_mappings shown
            ∙ parse_port_mappings-format mappings (
                resolve_ports-IsMapping explicit channel.ports [] [] s ports mappings s' good tt
                  loop),
      )

pub record_claims-Returns :
    (channel : Channel) (annotation : Str) (s : MuxState)
    → Returns (parse_port_mappings annotation)
    → Returns (record_channel_claims channel annotation s).0
unfolding record_channel_claims
record_claims-Returns channel annotation s h = by_mappings (parse_port_mappings annotation) h
  where
    by_mappings : (r : Result (Dict Str Str)) → Returns r → Returns (record_mappings channel r s).0
    by_mappings (ok mappings) h = (tt, refl)
    by_mappings (err e) (m, h) = absurd (err-ne-ok h)
