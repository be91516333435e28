-- ===== src/MuxState/Lifecycle.antt =====
-- `MuxState.__init__`, `record_channel_claims` and `to_state` of `src/mux_state.py`, with their helpers.
use svc_lb_mux.Prelude.{
  ℕ, Bool, true, false, ◌&&◌, ◌||◌, not, Option, none, some, List, [], ◌∷◌, if◌then◌else◌, ite, Str,
  Str-discrete, int_of_text, is_empty, filter, ℤ, pos, Result, ok, err, ◌>>=◌, missing_key, Exec,
  str_leb,
}
use svc_lb_mux.Prelude.Dict.{Dict, keys, add, difference, get, put, remove_all}
use svc_lb_mux.Prelude.Sort.{sort}
use svc_lb_mux.Model.{
  int, Port, Channel, PortKey, from_channel_port, key, or_empty, has_name, checked,
  annotation_external_ports, annotation_of,
}
use svc_lb_mux.Annotations.Mappings.{parse_port_mappings}
use svc_lb_mux.PortAllocations.Ranges.{Range}
use svc_lb_mux.MuxState.Defs.{
  Claim, StateDocument, StoredClaim, StoredDocument, MuxState, auto, static, claim_mux_port,
  claim_ref, external_port_modes, set_claim,
}

-- The reads of `claim["namespace"]`, `claim["service"]` and `claim["portName"]` of `_claims_by_key`,
-- which raise where the key is missing.
abbrev pub read_key : Option Str → Result Str
read_key none = err missing_key
read_key (some value) = ok value

unfoldable pub read_claim : StoredClaim → Result Claim
read_claim claim = do
  namespace ← read_key claim.namespace
  service ← read_key claim.service
  port_name ← read_key claim.port_name
  ok (record {
    namespace = namespace;
    service = service;
    port_name = port_name;
    protocol = claim.protocol;
    channel_port = claim.channel_port;
    mux_port = claim.mux_port;
    port = claim.port;
    source = claim.source;
  })

unfoldable pub read_claims : List StoredClaim → Result (List Claim)
unfolding read_claim
read_claims [] = ok []
read_claims (claim ∷ claims) = do c ← read_claim claim; cs ← read_claims claims; ok (c ∷ cs)

abbrev pub read_listed : Option (List StoredClaim) → Result (Option (List Claim))
read_listed none = ok none
read_listed (some claims) = do cs ← read_claims claims; ok (some cs)

-- The document whose claims `_claims_by_key` has read; the older list is read only without port claims.
abbrev pub older_claims : StoredDocument → Option (List StoredClaim)
older_claims stored = elim stored.port_claims [ some _ ↦ none | none ↦ stored.allocations ]

unfoldable pub read_document : StoredDocument → Result StateDocument
unfolding read_claims
read_document stored = do
  port_claims ← read_listed stored.port_claims
  allocations ← read_listed (older_claims stored)
  ok (record {
    schema_version = stored.schema_version;
    mux = stored.mux;
    port_claims = port_claims;
    allocations = allocations;
  })

-- `_claims_by_key`: the port is written as a number under both names, the source is `auto` unless
-- it is stored.
abbrev pub with_port : Claim → Option ℤ → Claim
with_port claim none = claim
with_port claim (some z) = record claim { mux_port = some (int z); port = some (int z) }

abbrev pub or_auto : Option Str → Option Str
or_auto none = some auto
or_auto (some s) = some s

unfoldable pub normalize : Claim → Claim
normalize claim = record (with_port claim (claim_mux_port claim)) { source = or_auto claim.source }

unfoldable pub index_claims : Dict Str Claim → List Claim → Dict Str Claim
unfolding normalize
index_claims claims [] = claims
index_claims claims (c ∷ cs) =
    index_claims (put Str-discrete claims (key (claim_ref c)) (normalize c)) cs

abbrev pub or_no_claims : Option (List Claim) → List Claim
or_no_claims none = []
or_no_claims (some cs) = cs

-- `_state_claims`
abbrev pub state_claims : StateDocument → List Claim
state_claims state = elim state.port_claims [ some cs ↦ cs | none ↦ or_no_claims state.allocations ]

unfoldable pub claims_by_key : StateDocument → Dict Str Claim
unfolding index_claims
claims_by_key state = index_claims [] (state_claims state)

-- `_state_needs_claim_write`: there is a state, and it has no port claims.
abbrev pub has_field {ℓ} : {A : Type ℓ} → Option A → Bool
has_field none = false
has_field (some _) = true

unfoldable pub state_needs_claim_write : StateDocument → Bool
state_needs_claim_write state =
    not (has_field state.port_claims)
    && (has_field state.schema_version || has_field state.mux || has_field state.allocations)

-- `_active_claim_keys`
unfoldable pub active_keys_of : Channel → List Port → List Str → List Str
active_keys_of channel [] found = found
active_keys_of channel (p ∷ ps) found =
    active_keys_of channel ps
      (if has_name p then add Str-discrete (key (from_channel_port channel p)) found else found)

unfoldable pub active_claim_keys : List Channel → List Str → List Str
unfolding active_keys_of
active_claim_keys [] found = found
active_claim_keys (c ∷ channels) found = active_claim_keys channels (active_keys_of c c.ports found)

-- `_prune_inactive`
abbrev pub inactive : MuxState → List Str
inactive s = difference Str-discrete (keys s.claims) s.active_keys

unfoldable pub prune_inactive : MuxState → MuxState
prune_inactive s = record s {
  claims = remove_all Str-discrete s.claims (inactive s);
  changed = if is_empty (inactive s) then s.changed else true;
}

-- `MuxState.__init__`
unfoldable pub init :
    Str × Str
    → List Range
    → StateDocument
    → List Channel
    → List PortKey
    → Dict PortKey Str
    → MuxState
unfolding claims_by_key state_needs_claim_write active_claim_keys prune_inactive
init mux_key ranges state channels reserved_ports reserved_port_owners = prune_inactive (record {
  mux_key = mux_key;
  ranges = ranges;
  active_keys = active_claim_keys channels [];
  reserved_ports = reserved_ports;
  reserved_port_owners = reserved_port_owners;
  claims = claims_by_key state;
  changed = state_needs_claim_write state;
})

-- the mode of a port of `record_channel_claims`
abbrev pub mode_of : Option Str → Str
mode_of none = static
mode_of (some mode) = mode

-- The body of its loop, for a port with its mapping: a number that is no port is skipped.
abbrev pub record_number : Channel → Port → Dict Str Str → Result ℕ → MuxState → MuxState
record_number channel port modes (err e) s = s
record_number channel port modes (ok n) s =
    set_claim (from_channel_port channel port) port.port (int (pos n))
      (mode_of (get Str-discrete modes (or_empty port.name))) s

-- `_validate_port_number`
unfoldable pub validate_port_text : Str → Result ℕ
validate_port_text value = checked (int_of_text value)

abbrev pub record_mapping : Channel → Port → Dict Str Str → Option Str → MuxState → MuxState
record_mapping channel port modes none s = s
record_mapping channel port modes (some value) s =
    record_number channel port modes (validate_port_text value) s

unfoldable pub record_ports :
    Channel → Dict Str Str → Dict Str Str → List Port → MuxState → MuxState
unfolding validate_port_text set_claim
record_ports channel mappings modes [] s = s
record_ports channel mappings modes (p ∷ ps) s = record_ports channel mappings modes ps (
    if has_name p
    then record_mapping channel p modes (get Str-discrete mappings (or_empty p.name)) s
    else s)

abbrev pub record_mappings : Channel → Result (Dict Str Str) → Exec MuxState (Unit {0})
record_mappings channel (err e) s = (err e, s)
record_mappings channel (ok mappings) s = (
  ok tt,
  record_ports channel mappings
      (external_port_modes (annotation_of channel.annotations annotation_external_ports))
      channel.ports s,
)

-- `MuxState.record_channel_claims`
unfoldable pub record_channel_claims : Channel → Str → Exec MuxState (Unit {0})
unfolding record_ports
record_channel_claims channel ports_annotation s =
    record_mappings channel (parse_port_mappings ports_annotation) s

-- `[self.claims[key] for key in keys]`
abbrev pub and_claim : Option Claim → List Claim → List Claim
and_claim none cs = cs
and_claim (some c) cs = c ∷ cs

unfoldable pub claims_at : Dict Str Claim → List Str → List Claim
claims_at claims [] = []
claims_at claims (k ∷ ks) = and_claim (get Str-discrete claims k) (claims_at claims ks)

unfoldable pub is_auto_claim : Claim → Bool
is_auto_claim claim = elim claim.source [
  | none ↦ false
  | some mode ↦ ite (Str-discrete mode auto) true false
]

-- `MuxState.to_state`
unfoldable pub to_state : MuxState → StateDocument
unfolding claims_at is_auto_claim
to_state s =
    let claims = claims_at s.claims (sort str_leb (keys s.claims)) in
    record {
      schema_version = some 1;
      mux = some s.mux_key;
      port_claims = some claims;
      allocations = some (filter is_auto_claim claims);
    }
