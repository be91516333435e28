-- ===== src/MuxState/Restart.antt =====
-- Which claims the constructor of `MuxState` keeps.
use svc_lb_mux.Prelude.{
  ◌≡◌, refl, ◌∙◌, true, false, none, some, List, [], if◌then◌else◌, Bool-cases, Option-cases, inl,
  inr, ◌⊎◌, Str, Str-discrete,
}
use svc_lb_mux.Prelude.Dict.{Dict, keys, member, get}
use svc_lb_mux.Model.{Channel, PortKey}
use svc_lb_mux.Prelude.Dict.Laws.{get-remove_all, member-difference, member-keys, member-keys-none}
use svc_lb_mux.PortAllocations.Ranges.{Range}
use svc_lb_mux.MuxState.Defs.{Claim, StateDocument, MuxState}
use svc_lb_mux.MuxState.Lifecycle.{
  active_claim_keys, claims_by_key, state_needs_claim_write, inactive, prune_inactive, init,
}

get-prune_inactive :
    (s : MuxState) (k : Str)
    → get Str-discrete (prune_inactive s).claims k
      ≡ (if member Str-discrete k s.active_keys then get Str-discrete s.claims k else none)
unfolding prune_inactive
get-prune_inactive s k =
    get-remove_all Str-discrete s.claims (inactive s) k
    ∙ rw (member-difference Str-discrete k (keys s.claims) s.active_keys) (
        by_claim (Bool-cases (member Str-discrete k s.active_keys))
          (Option-cases (get Str-discrete s.claims k)))
  where
    by_claim :
        (member Str-discrete k s.active_keys ≡ true) ⊎ (member Str-discrete k s.active_keys ≡ false)
        → (get Str-discrete s.claims k ≡ none)
          ⊎ ((c : Claim) × (get Str-discrete s.claims k ≡ some c))
        → (if (if member Str-discrete k s.active_keys
              then false
              else member Str-discrete k (keys s.claims))
            then none
            else get Str-discrete s.claims k)
          ≡ (if member Str-discrete k s.active_keys then get Str-discrete s.claims k else none)
    by_claim (inl active) _ = rw active refl
    by_claim (inr gone) (inl nothing) =
        rw (gone, member-keys-none Str-discrete s.claims k nothing, nothing) refl
    by_claim (inr gone) (inr (c, at)) = rw (gone, member-keys Str-discrete s.claims k c at) refl

-- the state before the inactive claims are removed
abbrev pub read_state :
    Str × Str
    → List Range
    → StateDocument
    → List Channel
    → List PortKey
    → Dict PortKey Str
    → MuxState
read_state mux_key ranges state channels reserved owners = record {
  mux_key = mux_key;
  ranges = ranges;
  active_keys = active_claim_keys channels [];
  reserved_ports = reserved;
  reserved_port_owners = owners;
  claims = claims_by_key state;
  changed = state_needs_claim_write state;
}

-- The state that a pass starts from has the stored claim of every port that a channel still declares,
-- as it was read, and no other claim.
pub init-claims :
    (mux_key : Str × Str) (ranges : List Range) (state : StateDocument) (channels : List Channel)
    (reserved : List PortKey) (owners : Dict PortKey Str) (k : Str)
    → get Str-discrete (init mux_key ranges state channels reserved owners).claims k ≡ (
        if member Str-discrete k (active_claim_keys channels [])
        then get Str-discrete (claims_by_key state) k
        else none)
unfolding init
init-claims mux_key ranges state channels reserved owners k =
    get-prune_inactive (read_state mux_key ranges state channels reserved owners) k
