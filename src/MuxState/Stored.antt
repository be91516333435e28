-- ===== src/MuxState/Stored.antt =====
-- The states of `MuxState` that its methods lead to: each claim stands under the key of its port and
-- is as `_claims_by_key` of `src/mux_state.py` would read it.
use svc_lb_mux.Prelude.{
  ◌≡◌, refl, sym, ap, ◌∙◌, Bool, true, false, Option, none, some, List, [], ◌∷◌, if◌then◌else◌,
  Bool-cases, inl, inr, Str, Str-discrete, ℤ, pos, ℕ, All, Result, ok, err, is_empty,
}
use svc_lb_mux.Prelude.Dict.{Dict, get, put}
use svc_lb_mux.Prelude.Dict.Entries.{All-put, All-remove_all}
use svc_lb_mux.Model.{
  Value, int, Port, Channel, PortKey, PortAllocationRef, from_channel_port, key, has_name, or_empty,
}
use svc_lb_mux.Annotations.Mappings.{parse_port_mappings}
use svc_lb_mux.PortAllocations.Ranges.{Range}
use svc_lb_mux.MuxState.Defs.{
  Claim, StateDocument, MuxState, claim_mux_port, claim_ref, new_claim, is_claim, set_claim, auto,
  assign, allocate,
}
use svc_lb_mux.MuxState.Restart.{read_state}
use svc_lb_mux.MuxState.Lifecycle.{
  with_port, normalize, index_claims, claims_by_key, state_claims, inactive, prune_inactive, init,
  record_number, record_mapping, record_ports, record_channel_claims, record_mappings,
  validate_port_text, or_auto,
}

-- A claim under its key, in the form in which it is read.
abbrev pub IsStored : Str × Claim → Type 0
IsStored e = (key (claim_ref e.1) ≡ e.0) × (normalize e.1 ≡ e.1)

normalize-ref : (c : Claim) → claim_ref (normalize c) ≡ claim_ref c
unfolding normalize
normalize-ref c = by_port (claim_mux_port c)
  where
    by_port :
        (o : Option ℤ)
        → claim_ref (record (with_port c o) { source = or_auto c.source }) ≡ claim_ref c
    by_port none = refl
    by_port (some z) = refl

normalize_again : (c : Claim) → normalize (normalize c) ≡ normalize c
unfolding normalize
normalize_again c = by_port (claim_mux_port c) refl
  where
    stable : (o : Option Str) → or_auto (or_auto o) ≡ or_auto o
    stable none = refl
    stable (some s) = refl

    by_port :
        (o : Option ℤ)
        → claim_mux_port c ≡ o
        → normalize (record (with_port c o) { source = or_auto c.source })
          ≡ record (with_port c o) { source = or_auto c.source }
    by_port none h =
        ap
          (λ o. record (with_port (record c { source = or_auto c.source }) o) {
            source = or_auto (or_auto c.source);
          })
          h
        ∙ (λ i. record c { source = stable c.source i })
    by_port (some z) h =
        λ i. record c { mux_port = some (int z); port = some (int z); source = stable c.source i }

-- A dict of stored claims.
abbrev pub AreStored : Dict Str Claim → Type 0
AreStored claims = All IsStored claims

index_claims-AreStored :
    (claims : Dict Str Claim) (cs : List Claim)
    → AreStored claims
    → AreStored (index_claims claims cs)
unfolding index_claims
index_claims-AreStored claims [] h = h
index_claims-AreStored claims (c ∷ cs) h =
    index_claims-AreStored (put Str-discrete claims (key (claim_ref c)) (normalize c)) cs (
      All-put Str-discrete IsStored claims (key (claim_ref c)) (normalize c)
        (λ j same. (ap key (normalize-ref c) ∙ sym same, normalize_again c)) h)

prune-AreStored : (s : MuxState) → AreStored s.claims → AreStored (prune_inactive s).claims
unfolding prune_inactive
prune-AreStored s h = All-remove_all Str-discrete IsStored s.claims (inactive s) h

new_claim-normal :
    (ref : PortAllocationRef) (v : Value) (z : ℤ) (mode : Str)
    → normalize (new_claim ref v (int z) mode) ≡ new_claim ref v (int z) mode
unfolding normalize
new_claim-normal ref v z mode = refl

set_claim-AreStored :
    (ref : PortAllocationRef) (v : Value) (z : ℤ) (mode : Str) (s : MuxState)
    → AreStored s.claims
    → AreStored (set_claim ref v (int z) mode s).claims
unfolding set_claim
set_claim-AreStored ref v z mode s h =
    by_test (is_claim claim (get Str-discrete s.claims (key ref)))
  where
    claim : Claim
    claim = new_claim ref v (int z) mode

    by_test :
        (b : Bool)
        → let after : MuxState =
            if b
            then s
            else record s { claims = put Str-discrete s.claims (key ref) claim; changed = true } in
          AreStored after.claims
    by_test true = h
    by_test false =
        All-put Str-discrete IsStored s.claims (key ref) claim
          (λ j same. (sym same, new_claim-normal ref v z mode)) h

assign-AreStored :
    (ref : PortAllocationRef) (v : Value) (s : MuxState) (kept : Option ℤ) (free : Option ℕ)
    → AreStored s.claims
    → AreStored (assign ref v s kept free).1.claims
assign-AreStored ref v s (some z) free h = h
assign-AreStored ref v s none none h = h
assign-AreStored ref v s none (some n) h = set_claim-AreStored ref v (pos n) auto s h

allocate-AreStored :
    (hex : Str → Str) (channel : Channel) (port : Port) (s : MuxState)
    → AreStored s.claims
    → AreStored (allocate hex channel port s).1.claims
unfolding allocate
allocate-AreStored hex channel port s h = elim (Bool-cases (is_empty s.ranges)) [
  | inl empty ↦ rw empty h
  | inr filled ↦ rw filled (assign-AreStored ref port.port s _ _ h)
]
  where
    ref : PortAllocationRef
    ref = from_channel_port channel port

record_ports-AreStored :
    (channel : Channel) (mappings modes : Dict Str Str) (ps : List Port) (s : MuxState)
    → AreStored s.claims
    → AreStored (record_ports channel mappings modes ps s).claims
unfolding record_ports
record_ports-AreStored channel mappings modes [] s h = h
record_ports-AreStored channel mappings modes (p ∷ ps) s h =
    record_ports-AreStored channel mappings modes ps _ (by_name (has_name p))
  where
    by_number : (r : Result ℕ) → AreStored (record_number channel p modes r s).claims
    by_number (err e) = h
    by_number (ok n) = set_claim-AreStored (from_channel_port channel p) p.port (pos n) _ s h

    by_mapping : (o : Option Str) → AreStored (record_mapping channel p modes o s).claims
    by_mapping none = h
    by_mapping (some value) = by_number (validate_port_text value)

    by_name :
        (b : Bool)
        → let after : MuxState =
            if b
            then record_mapping channel p modes (get Str-discrete mappings (or_empty p.name)) s
            else s in
          AreStored after.claims
    by_name true = by_mapping (get Str-discrete mappings (or_empty p.name))
    by_name false = h

record_channel-AreStored :
    (channel : Channel) (annotation : Str) (s : MuxState)
    → AreStored s.claims
    → AreStored (record_channel_claims channel annotation s).1.claims
unfolding record_channel_claims
record_channel-AreStored channel annotation s h = by_mappings (parse_port_mappings annotation)
  where
    by_mappings : (r : Result (Dict Str Str)) → AreStored (record_mappings channel r s).1.claims
    by_mappings (err e) = h
    by_mappings (ok mappings) = record_ports-AreStored channel mappings _ channel.ports s h

-- The states after the constructor and any calls of the methods that change claims, those that raise
-- included.
pub data Reached (hex : Str → Str) : MuxState → Type 0 where
  constructed :
      (mux_key : Str × Str) (ranges : List Range) (state : StateDocument) (channels : List Channel)
      (reserved : List PortKey) (owners : Dict PortKey Str)
      → Reached hex (init mux_key ranges state channels reserved owners)
  allocated :
      (channel : Channel) (port : Port) (s : MuxState)
      → Reached hex s
      → Reached hex (allocate hex channel port s).1
  recorded :
      (channel : Channel) (annotation : Str) (s : MuxState)
      → Reached hex s
      → Reached hex (record_channel_claims channel annotation s).1

pub Reached-AreStored : (hex : Str → Str) (s : MuxState) → Reached hex s → AreStored s.claims
unfolding init claims_by_key
Reached-AreStored hex _ (constructed mux_key ranges state channels reserved owners) =
    prune-AreStored (read_state mux_key ranges state channels reserved owners)
      (index_claims-AreStored [] (state_claims state) tt)
Reached-AreStored hex _ (allocated channel port s r) =
    allocate-AreStored hex channel port s (Reached-AreStored hex s r)
Reached-AreStored hex _ (recorded channel annotation s r) =
    record_channel-AreStored channel annotation s (Reached-AreStored hex s r)
