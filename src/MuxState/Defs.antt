-- ===== src/MuxState/Defs.antt =====
-- `MuxState` of `src/mux_state.py` and its helpers. `hex` is `sha256(...).hexdigest()`.
use svc_lb_mux.Prelude.{
  ℕ, zero, suc, ◌+◌, ◌-◌, Bool, true, false, ◌&&◌, ◌||◌, not, Option, none, some, List, [], ◌∷◌,
  ◌++◌, if◌then◌else◌, ite, Str, codes, Str-discrete, strip, lower, split, partition, is_empty, any,
  take, ℤ, pos, Result, ok, err, Exec, no_range, no_free_port, ℕ_discrete,
}
use svc_lb_mux.Prelude.Dict.{Dict, values, member, add, get, put, setdefault}
use svc_lb_mux.Model.{
  Value, int, int_of, Port, Channel, PortKey, PortKey-discrete, PortAllocationRef,
  from_channel_port, key, or_tcp,
}
use svc_lb_mux.PortAllocations.Ranges.{Range, contains_port}

-- `MODE_AUTO`, which is `AUTO_PORT`, and `MODE_STATIC`
abbrev pub auto : Str
auto = codes "auto"

abbrev pub static : Str
static = codes "static"

-- A claim of the state. What a key of the JSON object may lack is an `Option`.
pub record Claim : Type 0 where
  pub namespace : Str
  pub service : Str
  pub port_name : Str
  pub protocol : Option Str
  pub channel_port : Option Value
  pub mux_port : Option Value
  pub port : Option Value
  pub source : Option Str

unfoldable pub Claim-discrete : Discrete Claim
unfolding ℕ_discrete
Claim-discrete = hlevel ℕ_discrete

-- A claim as it stands in the stored JSON: each key may be missing.
pub record StoredClaim : Type 0 where
  pub namespace : Option Str
  pub service : Option Str
  pub port_name : Option Str
  pub protocol : Option Str
  pub channel_port : Option Value
  pub mux_port : Option Value
  pub port : Option Value
  pub source : Option Str

-- The stored JSON document; `{}` has no field.
pub record StoredDocument : Type 0 where
  pub schema_version : Option ℕ
  pub mux : Option (Str × Str)
  pub port_claims : Option (List StoredClaim)
  pub allocations : Option (List StoredClaim)

-- The document with claims that have the keys that name their port.
pub record StateDocument : Type 0 where
  pub schema_version : Option ℕ
  pub mux : Option (Str × Str)
  pub port_claims : Option (List Claim)
  pub allocations : Option (List Claim)

pub record MuxState : Type 0 where
  pub mux_key : Str × Str
  pub ranges : List Range
  pub active_keys : List Str
  pub reserved_ports : List PortKey
  pub reserved_port_owners : Dict PortKey Str
  pub claims : Dict Str Claim
  pub changed : Bool

abbrev pub or_value : Option Value → Option Value → Value
or_value (some v) other = v
or_value none (some v) = v
or_value none none = Value.null

-- `_claim_mux_port`
abbrev pub claim_mux_port : Claim → Option ℤ
claim_mux_port claim = int_of (or_value claim.mux_port claim.port)

abbrev pub claim_protocol : Claim → Str
claim_protocol claim = or_tcp claim.protocol

abbrev pub claim_ref : Claim → PortAllocationRef
claim_ref claim = record {
  namespace = claim.namespace;
  service = claim.service;
  port_name = claim.port_name;
  protocol = claim_protocol claim;
}

module _ (hex : Str → Str) where
  -- `_claim_mux_name`
  unfoldable pub claim_mux_name : Str → Str → Str → Str
  claim_mux_name namespace service port_name =
      take 7 (hex (namespace ++ b'/' ∷ (service ++ b'/' ∷ port_name)))

  -- `_claim_owner`
  unfoldable pub claim_owner : Claim → Str
  unfolding claim_mux_name
  claim_owner claim =
      claim.namespace
      ++ b'/'
        ∷ (claim.service ++ b':' ∷ claim_mux_name claim.namespace claim.service claim.port_name)

  -- `_ref_owner`
  unfoldable pub ref_owner : PortAllocationRef → Str
  unfolding claim_mux_name
  ref_owner ref =
      ref.namespace
      ++ b'/' ∷ (ref.service ++ b':' ∷ claim_mux_name ref.namespace ref.service ref.port_name)

  -- the loop of `port_owners`
  unfoldable pub claim_owners : Dict PortKey Str → List Claim → Dict PortKey Str
  claim_owners owners [] = owners
  claim_owners owners (claim ∷ claims) =
      claim_owners
        (elim (claim_mux_port claim) [
          | none ↦ owners
          | some port ↦
              setdefault PortKey-discrete owners (port, claim_protocol claim) (claim_owner claim)
        ])
        claims

  -- `MuxState.port_owners`
  unfoldable pub port_owners : MuxState → Dict PortKey Str
  unfolding claim_owners
  port_owners s = claim_owners [] (values s.claims)

-- `_external_port_modes`: the names whose port is `auto`
unfoldable pub mode_of_item : Str → Dict Str Str → Dict Str Str
mode_of_item item modes = elim (partition (b':' ∷ []) item) [
  | none ↦ modes
  | some (name, port_text) ↦
      ite (Str-discrete (lower (strip port_text)) auto) (put Str-discrete modes (strip name) auto)
        modes
]

unfoldable pub modes_of_items : Dict Str Str → List Str → Dict Str Str
unfolding mode_of_item
modes_of_items modes [] = modes
modes_of_items modes (item ∷ items) = modes_of_items (mode_of_item (strip item) modes) items

unfoldable pub external_port_modes : Str → Dict Str Str
unfolding modes_of_items
external_port_modes value = if is_empty value then [] else modes_of_items [] (split b',' value)

-- `MuxState._set_claim`
abbrev pub new_claim : PortAllocationRef → Value → Value → Str → Claim
new_claim ref channel_port mux_port mode = record {
  namespace = ref.namespace;
  service = ref.service;
  port_name = ref.port_name;
  protocol = some ref.protocol;
  channel_port = some channel_port;
  mux_port = some mux_port;
  port = some mux_port;
  source = some mode;
}

abbrev pub is_claim : Claim → Option Claim → Bool
is_claim claim none = false
is_claim claim (some old) = ite (Claim-discrete old claim) true false

unfoldable pub set_claim : PortAllocationRef → Value → Value → Str → MuxState → MuxState
set_claim ref channel_port mux_port mode s =
    let claim = new_claim ref channel_port mux_port mode in
    if is_claim claim (get Str-discrete s.claims (key ref))
    then s
    else record s { claims = put Str-discrete s.claims (key ref) claim; changed = true }

-- the bodies of the two loops of `_used_port_protocols`, and the loops
unfoldable pub use_foreign : Str → PortKey → Str → List PortKey → List PortKey
use_foreign owner port_key reserved_owner used =
    ite (Str-discrete reserved_owner owner) used (add PortKey-discrete port_key used)

unfoldable pub use_port : Option ℤ → Str → List PortKey → List PortKey
use_port none protocol used = used
use_port (some port) protocol used = add PortKey-discrete (port, protocol) used

unfoldable pub add_foreign : Str → List PortKey → Dict PortKey Str → List PortKey
unfolding use_foreign
add_foreign owner used [] = used
add_foreign owner used ((port_key, reserved_owner) ∷ owners) =
    add_foreign owner (use_foreign owner port_key reserved_owner used) owners

unfoldable pub add_claims : List PortKey → List Claim → List PortKey
unfolding use_port
add_claims used [] = used
add_claims used (claim ∷ claims) =
    add_claims (use_port (claim_mux_port claim) (claim_protocol claim) used) claims

-- `MuxState._used_port_protocols`
unfoldable pub used_port_protocols : MuxState → Str → List PortKey
unfolding add_foreign add_claims
used_port_protocols s owner =
    add_claims (add_foreign owner s.reserved_ports s.reserved_port_owners) (values s.claims)

-- the inner loop of `_next_available_port`, over `count` ports from `port` on
unfoldable pub first_free : List PortKey → Str → ℕ → ℕ → Option ℕ
first_free used protocol port zero = none
first_free used protocol port (suc count) =
    let rest = first_free used protocol (port + 1) count in
    if member PortKey-discrete (pos port, protocol) used then rest else some port

-- the outer loop
abbrev or_later : Option ℕ → Option ℕ → Option ℕ
or_later (some p) later = some p
or_later none later = later

unfoldable pub first_free_of : List PortKey → Str → List Range → Option ℕ
unfolding first_free
first_free_of used protocol [] = none
first_free_of used protocol (r ∷ ranges) =
    or_later (first_free used protocol r.0 (r.1 + 1 - r.0)) (first_free_of used protocol ranges)

-- `MuxState._next_available_port`; `none` where it raises
unfoldable pub next_available_port : MuxState → Str → Str → Option ℕ
unfolding used_port_protocols first_free_of
next_available_port s protocol owner = first_free_of (used_port_protocols s owner) protocol s.ranges

abbrev pub has_port : PortKey → Claim → Bool
has_port port_key claim = elim (claim_mux_port claim) [
  | none ↦ false
  | some port ↦ ite (PortKey-discrete (port, claim_protocol claim) port_key) true false
]

abbrev pub claimed_by_other : PortKey → Str → Str × Claim → Bool
claimed_by_other port_key current_key e =
    ite (Str-discrete e.0 current_key) false (has_port port_key e.1)

abbrev pub is_foreign : Str → Option Str → Bool
is_foreign owner none = false
is_foreign owner (some reserved_owner) = ite (Str-discrete reserved_owner owner) false true

-- `MuxState._is_claimed`
unfoldable pub is_claimed : MuxState → PortKey → Str → Str → Bool
is_claimed s port_key current_key owner =
    any (claimed_by_other port_key current_key) s.claims
    || member PortKey-discrete port_key s.reserved_ports
    || is_foreign owner (get PortKey-discrete s.reserved_port_owners port_key)

-- the first `if` of `allocate`: the port of the existing claim, if it can be kept
abbrev pub keep_if_usable : MuxState → PortAllocationRef → Str → Option ℤ → Option ℤ
keep_if_usable s ref owner none = none
keep_if_usable s ref owner (some port) =
    if contains_port s.ranges port && not (is_claimed s (port, ref.protocol) (key ref) owner)
    then some port
    else none

unfoldable pub keep_port : MuxState → PortAllocationRef → Str → Option Claim → Option ℤ
keep_port s ref owner none = none
keep_port s ref owner (some existing) = keep_if_usable s ref owner (claim_mux_port existing)

abbrev pub assign : PortAllocationRef → Value → MuxState → Option ℤ → Option ℕ → Result ℤ × MuxState
assign ref channel_port s (some port) free = (ok port, s)
assign ref channel_port s none none = (err no_free_port, s)
assign ref channel_port s none (some port) =
    (ok (pos port), set_claim ref channel_port (int (pos port)) auto s)

-- `MuxState.allocate`
unfoldable pub allocate : (Str → Str) → Channel → Port → Exec MuxState ℤ
allocate hex channel port s =
    let ref = from_channel_port channel port in
    let owner = ref_owner hex ref in
    if is_empty s.ranges
    then (err no_range, s)
    else assign ref port.port s (keep_port s ref owner (get Str-discrete s.claims (key ref)))
        (next_available_port s ref.protocol owner)
