-- ===== src/MuxState/Survive.antt =====
-- An allocated port across a restart of the controller: `to_state`, the constructor and `allocate` of
-- `src/mux_state.py` in a row.
use svc_lb_mux.Prelude.{
  ◌≡◌, ◌≢◌, refl, sym, subst, ap, ◌∙◌, Bool, true, false, ◌||◌, Option, none, some, List, [], ◌∷◌,
  if◌then◌else◌, Bool-cases, inl, inr, Str, Str-discrete, ℤ, ok, any, any-Some, Some-any, Some,
}
use svc_lb_mux.Prelude.Dict.{Dict, get, put, member}
use svc_lb_mux.Prelude.Dict.Laws.{get-Some, none≢some}
use svc_lb_mux.Prelude.Dict.Unique.{UniqueKeys, put-UniqueKeys, HasEntry, get_of_HasEntry}
use svc_lb_mux.Prelude.Dict.Entries.{remove_all-UniqueKeys}
use svc_lb_mux.Model.{or_tcp, Port, Channel, PortKey, PortKey-discrete, from_channel_port, key}
use svc_lb_mux.PortAllocations.Ranges.{Range, contains_port}
use svc_lb_mux.MuxState.Defs.{
  Claim, StateDocument, MuxState, claim_ref, ref_owner, claimed_by_other, is_foreign, is_claimed,
  allocate,
}
use svc_lb_mux.MuxState.Lifecycle.{
  normalize, index_claims, claims_by_key, state_claims, active_claim_keys, inactive, init, to_state,
  prune_inactive,
}
use svc_lb_mux.MuxState.Restart.{read_state}
use svc_lb_mux.MuxState.Found.{allocate_keeps}
use svc_lb_mux.MuxState.Allocate.{allocate-IsHeld, contains_port-ne-nil}
use svc_lb_mux.MuxState.Stored.{Reached, allocated}
use svc_lb_mux.MuxState.Reload.{to_state-claims}

index_claims-UniqueKeys :
    (claims : Dict Str Claim) (cs : List Claim)
    → UniqueKeys claims
    → UniqueKeys (index_claims claims cs)
unfolding index_claims
index_claims-UniqueKeys claims [] h = h
index_claims-UniqueKeys claims (c ∷ cs) h =
    index_claims-UniqueKeys (put Str-discrete claims (key (claim_ref c)) (normalize c)) cs
      (put-UniqueKeys Str-discrete claims (key (claim_ref c)) (normalize c) h)

init-UniqueKeys :
    (mux_key : Str × Str) (ranges : List Range) (state : StateDocument) (channels : List Channel)
    (reserved : List PortKey) (owners : Dict PortKey Str)
    → UniqueKeys (init mux_key ranges state channels reserved owners).claims
unfolding init claims_by_key prune_inactive
init-UniqueKeys mux_key ranges state channels reserved owners =
    remove_all-UniqueKeys Str-discrete (index_claims [] (state_claims state))
      (inactive (read_state mux_key ranges state channels reserved owners))
      (index_claims-UniqueKeys [] (state_claims state) tt)

module _ {K V : Type 0} (dec : Discrete K) where
  entry_of :
      (p : K × V → Bool) (d whole : Dict K V)
      → Some (λ e. p e ≡ true) d
      → ((k : K) (v : V) → HasEntry k v d → HasEntry k v whole)
      → (k : K) × (v : V) × HasEntry k v whole × (p (k, v) ≡ true)
  entry_of p [] whole h inside = absurd h
  entry_of p ((k, v) ∷ d) whole (inl h) inside = (k, v, inside k v (inl (refl, refl)), h)
  entry_of p (e ∷ d) whole (inr h) inside =
      entry_of p d whole h (λ k v there. inside k v (inr there))

  -- A test that fails at each entry of a dict fails at each entry of a part of it.
  any_part :
      (p : K × V → Bool) (d whole : Dict K V)
      → UniqueKeys d
      → ((k : K) (v : V) → get dec d k ≡ some v → get dec whole k ≡ some v)
      → any p whole ≡ false
      → any p d ≡ false
  any_part p d whole unique part h = elim (Bool-cases (any p d)) [
    | inr failed ↦ failed
    | inl passed ↦
        let (k, v, entry, holds) = entry_of p d d (any-Some p d passed) (λ k v there. there) in
        let found = part k v (get_of_HasEntry dec d k v unique entry) in
        absurd (
          true_and_false
            (sym (Some-any p whole (get-Some dec (λ e. p e ≡ true) whole k v found holds)) ∙ h))
  ]
    where
      true_and_false : true ≢ false
      true_and_false e = cc

first_false : (a b c : Bool) → (a || b || c) ≡ false → a ≡ false
first_false true b c h = cc
first_false false b c h = refl

if_some :
    {A : Type 0} (b : Bool) (o : Option A) (a : A) → (if b then o else none) ≡ some a → o ≡ some a
if_some true o a h = h
if_some false o a h = absurd (none≢some h)

unclaimed_parts :
    (t : MuxState) (x : PortKey) (current owner : Str)
    → any (claimed_by_other x current) t.claims ≡ false
    → member PortKey-discrete x t.reserved_ports ≡ false
    → is_foreign owner (get PortKey-discrete t.reserved_port_owners x) ≡ false
    → is_claimed t x current owner ≡ false
unfolding is_claimed
unclaimed_parts t x current owner p q r = rw (p, q, r) refl

init-frame :
    (mux_key : Str × Str) (ranges : List Range) (state : StateDocument) (channels : List Channel)
    (reserved : List PortKey) (owners : Dict PortKey Str)
    → ((init mux_key ranges state channels reserved owners).ranges ≡ ranges)
      × ((init mux_key ranges state channels reserved owners).reserved_ports ≡ reserved)
      × ((init mux_key ranges state channels reserved owners).reserved_port_owners ≡ owners)
unfolding init prune_inactive
init-frame mux_key ranges state channels reserved owners = (refl, refl, refl)

-- What the next start of the controller works with: its ranges still have the port, and it is neither
-- reserved nor recovered as another channel's.
abbrev pub IsUsable :
    (Str → Str) → Channel → Port → ℤ → List Range → List PortKey → Dict PortKey Str → Type 0
IsUsable hex channel port z ranges reserved owners =
    (contains_port ranges z ≡ true)
    × (member PortKey-discrete (z, or_tcp port.protocol) reserved ≡ false)
    × (is_foreign (ref_owner hex (from_channel_port channel port))
          (get PortKey-discrete owners (z, or_tcp port.protocol))
        ≡ false)

-- An allocated port survives a restart: after `allocate` has returned a port, the state that is built
-- anew from the saved document gives the same port to the channel port, and is not changed by it. The
-- channel still declares the port, and the port is usable for the new state.
pub allocate-init :
    (hex : Str → Str) (channel : Channel) (port : Port) (s : MuxState) (z : ℤ) (s' : MuxState)
    → Reached hex s
    → allocate hex channel port s ≡ (ok z, s')
    → (mux_key : Str × Str) (ranges : List Range) (channels : List Channel)
      (reserved : List PortKey) (owners : Dict PortKey Str)
    → member Str-discrete (key (from_channel_port channel port)) (active_claim_keys channels [])
      ≡ true
    → IsUsable hex channel port z ranges reserved owners
    → allocate hex channel port (init mux_key ranges (to_state s') channels reserved owners)
      ≡ (ok z, init mux_key ranges (to_state s') channels reserved owners)
unfolding is_claimed
allocate-init hex channel port s z s' reached h mux_key ranges channels reserved owners active
      (inside, unreserved, own) =
    let ref = from_channel_port channel port in
    let restarted = init mux_key ranges (to_state s') channels reserved owners in
    let (c, _, there, at, _, free) = allocate-IsHeld hex channel port s z s' h in
    let read : (k : Str)
        → get Str-discrete restarted.claims k ≡ (
            if member Str-discrete k (active_claim_keys channels [])
            then get Str-discrete s'.claims k
            else none) =
      (to_state-claims hex s'
          (subst (Reached hex) (λ i. (h i).1) (allocated channel port s reached))).1
        mux_key ranges channels reserved owners in
    let unclaimed : any (claimed_by_other (z, ref.protocol) (key ref)) restarted.claims ≡ false =
      any_part Str-discrete (claimed_by_other (z, ref.protocol) (key ref)) restarted.claims
        s'.claims (init-UniqueKeys mux_key ranges (to_state s') channels reserved owners)
        (λ k v found.
          if_some (member Str-discrete k (active_claim_keys channels [])) _ v
            (sym (read k) ∙ found))
        (first_false _ _ _ free) in
    let (same_ranges, same_reserved, same_owners) =
      init-frame mux_key ranges (to_state s') channels reserved owners in
    let inside_restarted = ap (λ r. contains_port r z) same_ranges ∙ inside in
    allocate_keeps hex channel port restarted c z
      (contains_port-ne-nil restarted.ranges z inside_restarted) (rw (read (key ref), active) there)
      at inside_restarted
      (unclaimed_parts restarted (z, ref.protocol) (key ref) (ref_owner hex ref) unclaimed
        (ap (member PortKey-discrete (z, ref.protocol)) same_reserved ∙ unreserved)
        (ap (λ o. is_foreign (ref_owner hex ref) (get PortKey-discrete o (z, ref.protocol)))
            same_owners
          ∙ own))
