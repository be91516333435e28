-- ===== src/Reconcile/Owners.antt =====
-- Who owns the ports that a mux has: `collect_existing_port_owners` and its helpers of
-- `src/reconcile.py`.
use svc_lb_mux.Prelude.{
  Option, none, some, List, [], ◌∷◌, ◌++◌, if◌then◌else◌, Str, Str-discrete, pos, Result, ok, err,
  ◌>>=◌,
}
use svc_lb_mux.Prelude.Dict.{Dict, add, get, put, setdefault}
use svc_lb_mux.Model.{
  text, Port, Channel, MuxPort, PortKey, PortKey-discrete, or_tcp, or_empty, has_name,
  annotation_ports, annotation_of,
}
use svc_lb_mux.Annotations.Mappings.{parse_port_mappings}
use svc_lb_mux.Reconcile.ExternalPorts.{port_hash, validate_port_number}

-- `f"{namespace}/{name}:{mux_name}"`
unfoldable pub owner_of : Str → Str → Str → Str
owner_of namespace name mux_name = namespace ++ b'/' ∷ (name ++ b':' ∷ mux_name)

-- `d.setdefault(k, set()).add(x)`
module _ {K : Type 0} (dec : Discrete K) where
  abbrev pub or_none : Option (List Str) → List Str
  or_none none = []
  or_none (some s) = s

  unfoldable pub add_candidate : Dict K (List Str) → K → Str → Dict K (List Str)
  add_candidate d k x = put dec d k (add Str-discrete x (or_none (get dec d k)))

-- The only element of a set.
abbrev pub sole : List Str → Option Str
sole (x ∷ []) = some x
sole _ = none

module _ (hex : Str → Str) where
  unfoldable pub owners_of_ports : Channel → List Port → Dict Str (List Str) → Dict Str (List Str)
  unfolding add_candidate
  owners_of_ports channel [] owners = owners
  owners_of_ports channel (p ∷ ps) owners =
      let mux_name = port_hash hex channel.namespace channel.name (or_empty p.name) in
      owners_of_ports channel ps (
        if has_name p
        then add_candidate Str-discrete owners mux_name
            (owner_of channel.namespace channel.name mux_name)
        else owners)

  unfoldable pub owners_of_channels : List Channel → Dict Str (List Str) → Dict Str (List Str)
  unfolding owners_of_ports
  owners_of_channels [] owners = owners
  owners_of_channels (c ∷ channels) owners =
      owners_of_channels channels (owners_of_ports c c.ports owners)

  -- `_channel_owners_by_mux_name`
  abbrev pub channel_owners_by_mux_name : List Channel → Dict Str (List Str)
  channel_owners_by_mux_name channels = owners_of_channels channels []

  -- `_owners_from_existing_mux_ports`
  abbrev pub claim_existing : Dict PortKey Str → PortKey → Option Str → Dict PortKey Str
  claim_existing port_owners port_key none = port_owners
  claim_existing port_owners port_key (some owner) =
      setdefault PortKey-discrete port_owners port_key owner

  unfoldable pub owners_from_existing_mux_ports :
      Dict Str (List Str) → List MuxPort → Dict PortKey Str → Dict PortKey Str
  owners_from_existing_mux_ports by_name [] port_owners = port_owners
  owners_from_existing_mux_ports by_name (p ∷ ps) port_owners =
      owners_from_existing_mux_ports by_name ps (
        claim_existing port_owners (p.port, p.protocol)
          (sole (or_none Str-discrete (get Str-discrete by_name p.name))))

  -- one port of the loop of `_owners_from_channel_port_annotations`
  abbrev pub note_mapping :
      Channel → Port → Option Str → Dict PortKey (List Str) → Dict PortKey (List Str)
  note_mapping channel port none owners = owners
  note_mapping channel port (some mux_port_text) owners =
      elim (validate_port_number (text mux_port_text)) [
        | err e ↦ owners
        | ok n ↦
            let mux_name = port_hash hex channel.namespace channel.name (or_empty port.name) in
            add_candidate PortKey-discrete owners (pos n, or_tcp port.protocol)
              (owner_of channel.namespace channel.name mux_name)
      ]

  unfoldable pub note_mappings :
      Channel → Dict Str Str → List Port → Dict PortKey (List Str) → Dict PortKey (List Str)
  unfolding add_candidate
  note_mappings channel mappings [] owners = owners
  note_mappings channel mappings (p ∷ ps) owners = note_mappings channel mappings ps (
      if has_name p
      then note_mapping channel p (get Str-discrete mappings (or_empty p.name)) owners
      else owners)

  -- `_owners_from_channel_port_annotations`; `parse_port_mappings` may raise
  unfoldable pub owners_from_channel_port_annotations :
      List Channel → Dict PortKey (List Str) → Result (Dict PortKey (List Str))
  unfolding note_mappings
  owners_from_channel_port_annotations [] owners = ok owners
  owners_from_channel_port_annotations (c ∷ channels) owners = do
    mappings ← parse_port_mappings (annotation_of c.annotations annotation_ports)
    owners_from_channel_port_annotations channels (note_mappings c mappings c.ports owners)

  -- the loop of `collect_existing_port_owners`: what the mux shows wins, and a port that several
  -- channels claim has no owner
  abbrev pub add_recovered : Dict PortKey Str → PortKey → Option Str → Option Str → Dict PortKey Str
  add_recovered port_owners port_key none (some owner) =
      put PortKey-discrete port_owners port_key owner
  add_recovered port_owners port_key _ _ = port_owners

  unfoldable pub add_annotation_owners :
      Dict PortKey Str → Dict PortKey (List Str) → Dict PortKey Str
  add_annotation_owners port_owners [] = port_owners
  add_annotation_owners port_owners ((port_key, candidates) ∷ rest) =
      add_annotation_owners
        (add_recovered port_owners port_key (get PortKey-discrete port_owners port_key)
          (sole candidates))
        rest

  -- `collect_existing_port_owners`
  unfoldable pub collect_existing_port_owners :
      List Channel → List MuxPort → Result (Dict PortKey Str)
  unfolding owners_of_channels owners_from_existing_mux_ports owners_from_channel_port_annotations
      add_annotation_owners
  collect_existing_port_owners channels existing_ports = do
    annotation_owners ← owners_from_channel_port_annotations channels []
    ok (
        add_annotation_owners
          (owners_from_existing_mux_ports (channel_owners_by_mux_name channels) existing_ports [])
          annotation_owners)
