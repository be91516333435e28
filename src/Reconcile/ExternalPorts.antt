-- ===== src/Reconcile/ExternalPorts.antt =====
-- The desired mux ports of a channel: `parse_external_ports_annotation` to `collect_static_port_claims` of
-- `src/reconcile.py`. `hex` is `sha256(...).hexdigest()`.
use svc_lb_mux.Prelude.{
  ℕ, Bool, true, false, not, Option, none, some, List, [], ◌∷◌, ◌++◌, if◌then◌else◌, ite, Str,
  Str-discrete, strip, lower, split, partition, is_empty, any, map, take, ℤ, pos, Result, ok, err,
  Exec, continue, ◌>>=◌, no_allocator, missing_separator, missing_port_name, unnamed_port,
  unknown_port_name,
}
use svc_lb_mux.Prelude.Dict.{Dict, keys, add, difference, get, put}
use svc_lb_mux.Model.{
  Value, text, int_of, Port, Channel, MuxPort, MuxPort-discrete, PortKey, PortKey-discrete,
  from_channel_port, key, or_tcp, or_empty, has_name, checked, annotation_external_ports,
  annotation_of,
}
use svc_lb_mux.Annotations.Mappings.{Mapping, format_channel_port_annotation}
use svc_lb_mux.MuxState.Defs.{auto}

-- `port_hash` of the three parts of a port's name
unfoldable pub port_hash : (Str → Str) → Str → Str → Str → Str
port_hash hex namespace name port_name =
    take 7 (hex (namespace ++ b'/' ∷ (name ++ b'/' ∷ port_name)))

-- The mux port that an annotation asks for: `AUTO_PORT` or a number.
pub data Requested : Type 0 where
  automatic : Requested
  fixed : ℕ → Requested

-- `validate_port_number`
unfoldable pub validate_port_number : Value → Result ℕ
validate_port_number value = checked (int_of value)

abbrev pub requested_of : Str → Result Requested
requested_of port_text =
    ite (Str-discrete (lower (strip port_text)) auto) (ok automatic)
      (do port ← validate_port_number (text (strip port_text)); ok (fixed port))

abbrev pub add_requested : Dict Str Requested → Option (Str × Str) → Result (Dict Str Requested)
add_requested ports none = err missing_separator
add_requested ports (some (name, port_text)) =
    if is_empty (strip name)
    then err missing_port_name
    else do r ← requested_of port_text; ok (put Str-discrete ports (strip name) r)

-- one round of the loop
unfoldable pub parse_external_port : Dict Str Requested → Str → Result (Dict Str Requested)
unfolding validate_port_number
parse_external_port ports item =
    if is_empty item then ok ports else add_requested ports (partition (b':' ∷ []) item)

unfoldable pub parse_external_ports : Dict Str Requested → List Str → Result (Dict Str Requested)
unfolding parse_external_port
parse_external_ports ports [] = ok ports
parse_external_ports ports (item ∷ items) = do
  more ← parse_external_port ports (strip item)
  parse_external_ports more items

-- `parse_external_ports_annotation`
unfoldable pub parse_external_ports_annotation : Str → Result (Dict Str Requested)
unfolding parse_external_ports
parse_external_ports_annotation value =
    if is_empty value then ok [] else parse_external_ports [] (split b',' value)

abbrev pub declared_names : List Port → List Str
declared_names ports = map (λ p. or_empty p.name) ports

-- `validate_declared_port_names`
unfoldable pub validate_declared_port_names : Channel → Dict Str Requested → Result (Unit {0})
validate_declared_port_names channel explicit_ports =
    if any (λ p. not (has_name p)) channel.ports
    then err unnamed_port
    else if is_empty (difference Str-discrete (keys explicit_ports) (declared_names channel.ports))
    then ok tt
    else err unknown_port_name

-- `explicit_ports.get(port.get("name"))`
abbrev pub requested_for : Dict Str Requested → Port → Option Requested
requested_for explicit_ports port = elim port.name [
  | none ↦ none
  | some name ↦ get Str-discrete explicit_ports name
]

abbrev pub int_result : Result ℕ → Result ℤ
int_result (ok n) = ok (pos n)
int_result (err e) = err e

-- An object with a method `allocate`, on a state; `none` where no allocator is given.
abbrev pub Allocator : Type 0 → Type 0
Allocator S = Option (Channel → Port → Exec S ℤ)

module _ (hex : Str → Str) (channel : Channel) where
  abbrev pub mux_port_of : Port → ℤ → MuxPort
  mux_port_of port mux_port = record {
    name = port_hash hex channel.namespace channel.name (or_empty port.name);
    port = mux_port;
    protocol = or_tcp port.protocol;
  }

module _ {S : Type 0} where
  abbrev pub allocate_by : Allocator S → Channel → Port → Exec S ℤ
  allocate_by none channel port s = (err no_allocator, s)
  allocate_by (some allocate) channel port s = allocate channel port s

  abbrev pub resolve_requested : Allocator S → Channel → Port → Option Requested → Exec S ℤ
  resolve_requested allocator channel port (some automatic) s = allocate_by allocator channel port s
  resolve_requested allocator channel port (some (fixed n)) s = (ok (pos n), s)
  resolve_requested allocator channel port none s = (int_result (validate_port_number port.port), s)

  -- `resolve_channel_external_port`
  unfoldable pub resolve_channel_external_port :
      Allocator S → Channel → Dict Str Requested → Port → Exec S ℤ
  unfolding validate_port_number
  resolve_channel_external_port allocator channel explicit_ports port s =
      resolve_requested allocator channel port (requested_for explicit_ports port) s

  module _ (hex : Str → Str) (allocator : Allocator S) (channel : Channel) where
    -- the loop of `resolve_channel_ports`, over the ports of the spec
    unfoldable pub resolve_ports :
        Dict Str Requested
        → List Port
        → List MuxPort
        → List Mapping
        → Exec S (List MuxPort × List Mapping)
    unfolding resolve_channel_external_port
    resolve_ports explicit_ports [] ports mappings s = (ok (ports, mappings), s)
    resolve_ports explicit_ports (p ∷ ps) ports mappings s =
        continue (resolve_channel_external_port allocator channel explicit_ports p s)
          (λ mux_port s'.
            resolve_ports explicit_ports ps
              (add MuxPort-discrete (mux_port_of hex channel p mux_port) ports)
              (mappings ++ (or_empty p.name, p.port, mux_port) ∷ []) s')

    abbrev pub with_annotation : List MuxPort × List Mapping → S → Result (List MuxPort × Str) × S
    with_annotation r s = (ok (r.0, format_channel_port_annotation r.1), s)

    abbrev pub resolve_explicit : Result (Dict Str Requested) → Exec S (List MuxPort × Str)
    resolve_explicit (err e) s = (err e, s)
    resolve_explicit (ok explicit_ports) s =
        continue (resolve_ports explicit_ports channel.ports [] [] s) with_annotation

-- `channel_port_claims`, which `resolve_channel_ports` does too
unfoldable pub channel_port_claims : Channel → Result (Dict Str Requested)
channel_port_claims channel = do
  explicit_ports ←
      parse_external_ports_annotation (annotation_of channel.annotations annotation_external_ports)
  _ ← validate_declared_port_names channel explicit_ports
  ok explicit_ports

-- `resolve_channel_ports`, the part of `process_channel_ports` that is not the client's object
unfoldable pub resolve_channel_ports :
    {S : Type 0} → (Str → Str) → Allocator S → Channel → Exec S (List MuxPort × Str)
resolve_channel_ports hex allocator channel s =
    resolve_explicit hex allocator channel (channel_port_claims channel) s

-- The loops over the ports of the channels whose annotation is valid; an invalid one is skipped.
abbrev pub is_auto : Option Requested → Bool
is_auto (some automatic) = true
is_auto _ = false

unfoldable pub auto_keys : Channel → Dict Str Requested → List Port → List Str → List Str
auto_keys channel explicit_ports [] found = found
auto_keys channel explicit_ports (p ∷ ps) found = auto_keys channel explicit_ports ps (
    if is_auto (requested_for explicit_ports p)
    then add Str-discrete (key (from_channel_port channel p)) found
    else found)

-- `collect_auto_allocation_keys`
abbrev pub auto_keys_of : Channel → Result (Dict Str Requested) → List Str → List Str
auto_keys_of channel (err e) found = found
auto_keys_of channel (ok explicit_ports) found =
    auto_keys channel explicit_ports channel.ports found

unfoldable pub collect_auto_allocation_keys : List Channel → List Str → List Str
unfolding auto_keys channel_port_claims
collect_auto_allocation_keys [] found = found
collect_auto_allocation_keys (c ∷ channels) found =
    collect_auto_allocation_keys channels (auto_keys_of c (channel_port_claims c) found)

-- the inner loop of `collect_static_port_claims`; a bad number raises
unfoldable pub static_claims :
    Channel → Dict Str Requested → List Port → List PortKey → Result (List PortKey)
static_claims channel explicit_ports [] claims = ok claims
static_claims channel explicit_ports (p ∷ ps) claims =
    let rest = static_claims channel explicit_ports ps claims in
    let more = (do
      mux_port ← (resolve_channel_external_port {S = Unit {0}} none channel explicit_ports p tt).0
      static_claims channel explicit_ports ps
          (add PortKey-discrete (mux_port, or_tcp p.protocol) claims)) in
    if is_auto (requested_for explicit_ports p) then rest else more

abbrev pub static_claims_of :
    Channel → Result (Dict Str Requested) → List PortKey → Result (List PortKey)
static_claims_of channel (err e) claims = ok claims
static_claims_of channel (ok explicit_ports) claims =
    static_claims channel explicit_ports channel.ports claims

-- `collect_static_port_claims`
unfoldable pub collect_static_port_claims : List Channel → List PortKey → Result (List PortKey)
unfolding static_claims channel_port_claims
collect_static_port_claims [] claims = ok claims
collect_static_port_claims (c ∷ channels) claims = do
  more ← static_claims_of c (channel_port_claims c) claims
  collect_static_port_claims channels more
