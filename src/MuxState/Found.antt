-- ===== src/MuxState/Found.antt =====
-- How `MuxState.allocate` finds a port, and what `_set_claim` writes.
use svc_lb_mux.Prelude.{
  ℕ, ◌≡◌, refl, ap, Bool, true, false, ◌&&◌, not, Option, none, some, arith, ite, if_pos, if_neg,
  Bool-cases, inl, inr, ◌⊎◌, false≢true, Str, Str-discrete, is_empty, ℤ, pos, Result, ok, err,
  Error, no_free_port,
}
use svc_lb_mux.Prelude.Dict.{get}
use svc_lb_mux.Prelude.Dict.Laws.{get-put, some_inj, none≢some}
use svc_lb_mux.Model.{Value, int, Port, Channel, PortAllocationRef, from_channel_port, key, or_tcp}
use svc_lb_mux.PortAllocations.Ranges.{contains_port}
use svc_lb_mux.MuxState.Defs.{
  Claim, Claim-discrete, MuxState, claim_mux_port, ref_owner, new_claim, is_claim, set_claim,
  next_available_port, is_claimed, keep_port, keep_if_usable, assign, allocate, auto,
}

-- The two ways in which a port is found.
pub data Found (s : MuxState) (ref : PortAllocationRef) (channel_port : Value) (owner : Str) (z : ℤ)
    (s' : MuxState) : Type 0 where
  kept :
      (c : Claim)
      → get Str-discrete s.claims (key ref) ≡ some c
      → claim_mux_port c ≡ some z
      → contains_port s.ranges z ≡ true
      → is_claimed s (z, ref.protocol) (key ref) owner ≡ false
      → s' ≡ s
      → Found s ref channel_port owner z s'
  fresh :
      (n : ℕ)
      → z ≡ pos n
      → next_available_port s ref.protocol owner ≡ some n
      → s' ≡ set_claim ref channel_port (int (pos n)) auto s
      → Found s ref channel_port owner z s'

module _ (s : MuxState) (ref : PortAllocationRef) (owner : Str) where
  usable : (a b : Bool) → a && not b ≡ true → (a ≡ true) × (b ≡ false)
  usable a b h = ground arith

  pub keep_if_usable-some :
      (o : Option ℤ) (z : ℤ)
      → keep_if_usable s ref owner o ≡ some z
      → (o ≡ some z)
        × (contains_port s.ranges z ≡ true)
        × (is_claimed s (z, ref.protocol) (key ref) owner ≡ false)
  keep_if_usable-some none z h = cc
  keep_if_usable-some (some p) z h =
      elim (Bool-cases
        (contains_port s.ranges p && not (is_claimed s (p, ref.protocol) (key ref) owner))) [
          | inl keeps ↦
              let same : p ≡ z = some_inj (rw keeps at h) in
              let (inside, free) =
                usable (contains_port s.ranges p) (is_claimed s (p, ref.protocol) (key ref) owner)
                  keeps in
              rw (← same) (refl, inside, free)
          | inr drops ↦ absurd (none≢some (rw drops at h))
        ]

  pub keep_port-some :
      (o : Option Claim) (z : ℤ)
      → keep_port s ref owner o ≡ some z
      → (c : Claim) × (o ≡ some c)
        × (claim_mux_port c ≡ some z)
        × (contains_port s.ranges z ≡ true)
        × (is_claimed s (z, ref.protocol) (key ref) owner ≡ false)
  unfolding keep_port
  keep_port-some none z h = cc
  keep_port-some (some c) z h =
      let (there, inside, free) = keep_if_usable-some (claim_mux_port c) z h in
      (c, refl, there, inside, free)

  pub assign_ok :
      (channel_port : Value) (kept_port : Option ℤ) (free : Option ℕ) (z : ℤ) (s' : MuxState)
      → assign ref channel_port s kept_port free ≡ (ok z, s')
      → (kept_port ≡ some z) × (s' ≡ s)
        ⊎ ((n : ℕ) × (free ≡ some n)
            × (z ≡ pos n)
            × (s' ≡ set_claim ref channel_port (int (pos n)) auto s))
  assign_ok v (some p) free z s' h = inl (cc, cc)
  assign_ok v none none z s' h = cc
  assign_ok v none (some n) z s' h = inr (n, refl, cc, cc)

pub err≢ok :
    {e : Error} {z : ℤ} {s s' : MuxState} → ◌≡◌ {A = Result ℤ × MuxState} (err e, s) (ok z, s') → ⊥
err≢ok h = cc

module _ (ref : PortAllocationRef) (channel_port mux_port : Value) (mode : Str) (s : MuxState) where
  pub is_claim-true : (claim : Claim) (o : Option Claim) → is_claim claim o ≡ true → o ≡ some claim
  is_claim-true claim none h = cc
  is_claim-true claim (some old) h = elim (Claim-discrete old claim) [
    | yes e ↦ ap some e
    | no ne ↦ absurd (false≢true (rw (if_neg _ ne) at h))
  ]

  -- After `_set_claim` the key has the claim, and every other key what it had.
  pub get-set_claim :
      (k : Str)
      → get Str-discrete (set_claim ref channel_port mux_port mode s).claims k
        ≡ ite
            (Str-discrete (key ref) k)
            (some (new_claim ref channel_port mux_port mode))
            (get Str-discrete s.claims k)
  unfolding set_claim
  get-set_claim k =
      let claim = new_claim ref channel_port mux_port mode in
      elim (Bool-cases (is_claim claim (get Str-discrete s.claims (key ref)))) [
        | inl same ↦ rw same (elim (Str-discrete (key ref) k) [
          | yes e ↦
              rw (if_pos _ e)
                (rw (← e) (is_claim-true claim (get Str-discrete s.claims (key ref)) same))
          | no ne ↦ rw (if_neg _ ne)
        ])
        | inr new ↦ rw new (get-put Str-discrete s.claims (key ref) claim k)
      ]

  -- `_set_claim` writes nothing but the claims and the mark of change.
  pub set_claim_frame :
      ((set_claim ref channel_port mux_port mode s).ranges ≡ s.ranges)
      × ((set_claim ref channel_port mux_port mode s).reserved_ports ≡ s.reserved_ports)
      × ((set_claim ref channel_port mux_port mode s).reserved_port_owners ≡ s.reserved_port_owners)
      × ((set_claim ref channel_port mux_port mode s).active_keys ≡ s.active_keys)
  unfolding set_claim
  set_claim_frame = ground arith

  pub set_claim-mux_key : (set_claim ref channel_port mux_port mode s).mux_key ≡ s.mux_key
  unfolding set_claim
  set_claim-mux_key = ground arith

  -- It marks the change unless the claim is there already.
  pub set_claim-changed :
      (set_claim ref channel_port mux_port mode s ≡ s)
      ⊎ ((set_claim ref channel_port mux_port mode s).changed ≡ true)
  unfolding set_claim
  set_claim-changed =
      let claim = new_claim ref channel_port mux_port mode in
      elim (Bool-cases (is_claim claim (get Str-discrete s.claims (key ref)))) [
        | inl same ↦ inl (rw same refl)
        | inr new ↦ inr (rw new refl)
      ]

pub err_pair :
    {d e : Error} {s s' : MuxState}
    → ◌≡◌ {A = Result ℤ × MuxState} (err d, s) (err e, s')
    → (s' ≡ s) × (e ≡ d)
err_pair h = (cc, cc)

pub assign_err :
    (s : MuxState) (ref : PortAllocationRef) (channel_port : Value) (kept_port : Option ℤ)
    (free : Option ℕ) (e : Error) (s' : MuxState)
    → assign ref channel_port s kept_port free ≡ (err e, s')
    → (s' ≡ s) × (free ≡ none) × (e ≡ no_free_port)
assign_err s ref v (some p) free e s' h = cc
assign_err s ref v none none e s' h = (cc, refl, cc)
assign_err s ref v none (some n) e s' h = cc

-- An existing claim whose port can be kept is returned as it is.
pub allocate_keeps :
    (hex : Str → Str) (channel : Channel) (port : Port) (s : MuxState) (c : Claim) (z : ℤ)
    → is_empty s.ranges ≡ false
    → get Str-discrete s.claims (key (from_channel_port channel port)) ≡ some c
    → claim_mux_port c ≡ some z
    → contains_port s.ranges z ≡ true
    → is_claimed s
        (z, or_tcp port.protocol)
        (key (from_channel_port channel port))
        (ref_owner hex (from_channel_port channel port))
      ≡ false
    → allocate hex channel port s ≡ (ok z, s)
unfolding allocate keep_port
allocate_keeps hex channel port s c z filled there at inside free =
    rw (filled, there, keep_port, at, inside, free)
