-- ===== src/MuxState/Allocate.antt =====
-- `MuxState.allocate`: what a returned port is, what is written, and when it raises.
use svc_lb_mux.Prelude.{
  true, false, List, ◌∷◌, negsuc, ℕ, ◌≡◌, ◌≢◌, refl, sym, subst, ◌∙◌, some, [], if_pos, if_neg,
  Bool-cases, inl, inr, ◌⊎◌, false≢true, Str, codes, Str-discrete, is_empty, is_empty_nil, ℤ, pos,
  ok, err, Error, no_range, no_free_port,
}
use svc_lb_mux.Prelude.Dict.{get}
use svc_lb_mux.Model.{
  int, Port, Channel, PortAllocationRef, from_channel_port, key, or_empty, or_tcp,
}
use svc_lb_mux.MuxState.Defs.{
  Claim, MuxState, claim_mux_port, ref_owner, new_claim, set_claim, used_port_protocols,
  next_available_port, keep_port, allocate, auto, is_claimed,
}
use svc_lb_mux.PortAllocations.Ranges.{Range, contains_port}
use svc_lb_mux.MuxState.Free.{
  IsFree, is_claimed-IsFree, not-Taken-IsFree, not-Taken-is_claimed, is_claimed-set_claim,
  InRanges-ne-nil, InRanges-contains_port,
}
use svc_lb_mux.MuxState.Used.{
  Taken, InRanges, used_port_protocols-Taken, first_free_of-some, first_free_of-none,
}
use svc_lb_mux.MuxState.Found.{
  Found, err≢ok, keep_port-some, assign_ok, get-set_claim, set_claim_frame, set_claim-mux_key,
  set_claim-changed, err_pair, assign_err, allocate_keeps,
}

pub contains_port-ne-nil :
    (ranges : List Range) (z : ℤ) → contains_port ranges z ≡ true → is_empty ranges ≡ false
unfolding contains_port
contains_port-ne-nil [] (pos n) h = cc
contains_port-ne-nil [] (negsuc n) h = cc
contains_port-ne-nil (r ∷ ranges) z h = refl

module _ (hex : Str → Str) (channel : Channel) (port : Port) (s : MuxState) where
  abbrev pub ref : PortAllocationRef
  ref = from_channel_port channel port

  abbrev pub owner : Str
  owner = ref_owner hex ref

  pub allocate-Found :
      (z : ℤ) (s' : MuxState)
      → allocate hex channel port s ≡ (ok z, s')
      → Found s ref port.port owner z s'
  unfolding allocate
  allocate-Found z s' h = elim (Bool-cases (is_empty s.ranges)) [
    | inl empty ↦ absurd (err≢ok (rw empty at h))
    | inr filled ↦
        elim (assign_ok s ref owner port.port
          (keep_port s ref owner (get Str-discrete s.claims (key ref)))
          (next_available_port s ref.protocol owner) z s' (rw filled at h)) [
            | inl (keeps, same) ↦
                let (c, there, at, inside, free) =
                  keep_port-some s ref owner (get Str-discrete s.claims (key ref)) z keeps in
                Found.kept c there at inside free same
            | inr (n, found, number, written) ↦ Found.fresh n number found written
          ]
  ]

  -- A port that `allocate` returns lies in a range of the mux, is not reserved, does not belong to
  -- another owner among the recovered ports, and no claim under another key holds it with the same
  -- protocol.
  pub allocate-IsFree :
      (z : ℤ) (s' : MuxState) → allocate hex channel port s ≡ (ok z, s') → IsFree s ref owner z
  allocate-IsFree z s' h = from_found (allocate-Found z s' h)
    where
      from_found : Found s ref port.port owner z s' → IsFree s ref owner z
      from_found (Found.kept c there at inside free same) =
          is_claimed-IsFree s ref owner z inside free
      from_found (Found.fresh n number found written) =
          let used = used_port_protocols s owner in
          let (inside, unused) =
            first_free_of-some used ref.protocol s.ranges n (unfold next_available_port in found) in
          rw number (
            not-Taken-IsFree s ref owner n inside (λ taken.
              false≢true
                (sym unused ∙ (used_port_protocols-Taken s owner (pos n, ref.protocol)).1 taken)))

  -- The claim that a new allocation writes.
  abbrev pub written_claim : ℤ → Claim
  written_claim z = record {
    namespace = channel.namespace;
    service = channel.name;
    port_name = or_empty port.name;
    protocol = some (or_tcp port.protocol);
    channel_port = some port.port;
    mux_port = some (int z);
    port = some (int z);
    source = some (codes "auto");
  }

  -- The state after a call of `allocate` that returned a port.
  pub record Allocated (z : ℤ) (s' : MuxState) : Type 0 where
    pub recorded :
        (c : Claim) × (get Str-discrete s'.claims (key ref) ≡ some c) × (claim_mux_port c ≡ some z)
    pub written :
        (s' ≡ s)
        ⊎ ((get Str-discrete s'.claims (key ref) ≡ some (written_claim z)) × (s'.changed ≡ true))
    pub others :
        (k : Str) → key ref ≢ k → get Str-discrete s'.claims k ≡ get Str-discrete s.claims k
    pub same_ranges : s'.ranges ≡ s.ranges
    pub same_reserved : s'.reserved_ports ≡ s.reserved_ports
    pub same_owners : s'.reserved_port_owners ≡ s.reserved_port_owners
    pub same_active : s'.active_keys ≡ s.active_keys
    pub same_mux_key : s'.mux_key ≡ s.mux_key

  -- When `allocate` returns a port, the claim of the channel port holds it; either the whole state is as
  -- it was, or that claim is a new one, of the channel port with its number and the source `auto`, and
  -- the state is marked as changed; and the claims under the other keys, the ranges, the reserved
  -- ports, the recovered owners, the active keys and the key of the mux are as they were.
  pub allocate-Allocated :
      (z : ℤ) (s' : MuxState) → allocate hex channel port s ≡ (ok z, s') → Allocated z s'
  allocate-Allocated z s' h = from_found (allocate-Found z s' h)
    where
      from_found : Found s ref port.port owner z s' → Allocated z s'
      from_found (Found.kept c there at inside free same) = rw same (record {
        recorded = (c, there, at);
        written = inl refl;
        others = λ k _. refl;
        same_ranges = refl;
        same_reserved = refl;
        same_owners = refl;
        same_active = refl;
        same_mux_key = refl;
      })
      from_found (Found.fresh n number found written) =
          let (r, p, o, a) = set_claim_frame ref port.port (int (pos n)) auto s in
          let here =
            get-set_claim ref port.port (int (pos n)) auto s (key ref)
            ∙ if_pos (Str-discrete (key ref) (key ref)) refl _ _ in
          rw (written, number)
            (record {
              recorded = (new_claim ref port.port (int (pos n)) auto, here, refl);
              written = elim (set_claim-changed ref port.port (int (pos n)) auto s) [
                | inl same ↦ inl same
                | inr changed ↦ inr (here, changed)
              ];
              others = λ k ne.
                  get-set_claim ref port.port (int (pos n)) auto s k
                  ∙ if_neg (Str-discrete (key ref) k) ne _ _;
              same_ranges = r;
              same_reserved = p;
              same_owners = o;
              same_active = a;
              same_mux_key = set_claim-mux_key ref port.port (int (pos n)) auto s;
            })

  -- `allocate` raises only if the mux has no range, or if every port of the ranges is taken; then it
  -- has changed nothing.
  pub allocate_err :
      (e : Error) (s' : MuxState)
      → allocate hex channel port s ≡ (err e, s')
      → (s' ≡ s)
        × ((e ≡ no_range) × (s.ranges ≡ [])
            ⊎ (e ≡ no_free_port)
              × ((n : ℕ) → InRanges s.ranges n → Taken s owner (pos n, ref.protocol)))
  unfolding allocate
  allocate_err e s' h = elim (Bool-cases (is_empty s.ranges)) [
    | inl empty ↦
        let (same, reason) = err_pair (rw empty at h) in
        (same, inl (reason, is_empty_nil s.ranges empty))
    | inr filled ↦
        let (same, none_free, reason) =
          assign_err s ref port.port (keep_port s ref owner (get Str-discrete s.claims (key ref)))
            (next_available_port s ref.protocol owner) e s' (rw filled at h) in
        (
          same,
          inr (
            reason,
            λ n inside. (used_port_protocols-Taken s owner (pos n, ref.protocol)).0 (
                first_free_of-none (used_port_protocols s owner) ref.protocol s.ranges n
                  (unfold next_available_port in none_free) inside),
          ),
        )
  ]

  -- The claim of the channel port holds a port that can be kept.
  abbrev pub IsHeld : ℤ → MuxState → Type 0
  IsHeld z s' =
      (c : Claim) × (is_empty s'.ranges ≡ false)
      × (get Str-discrete s'.claims (key ref) ≡ some c)
      × (claim_mux_port c ≡ some z)
      × (contains_port s'.ranges z ≡ true)
      × (is_claimed s' (z, ref.protocol) (key ref) owner ≡ false)

  pub allocate-IsHeld :
      (z : ℤ) (s' : MuxState) → allocate hex channel port s ≡ (ok z, s') → IsHeld z s'
  allocate-IsHeld z s' h = from_found (allocate-Found z s' h)
    where
      from_found : Found s ref port.port owner z s' → IsHeld z s'
      from_found (Found.kept c there at inside free same) =
          rw same (c, contains_port-ne-nil s.ranges z inside, there, at, inside, free)
      from_found (Found.fresh n number found written) =
          let write = set_claim ref port.port (int (pos n)) auto in
          let (inside, unused) =
            first_free_of-some (used_port_protocols s owner) ref.protocol s.ranges n
              (unfold next_available_port in found) in
          let ranges : (write s).ranges ≡ s.ranges =
            (set_claim_frame ref port.port (int (pos n)) auto s).0 in
          let again : InRanges (write s).ranges n = subst (λ r. InRanges r n) (sym ranges) inside in
          rw (written, number)
            (
              new_claim ref port.port (int (pos n)) auto,
              InRanges-ne-nil (write s).ranges n again,
              get-set_claim ref port.port (int (pos n)) auto s (key ref)
                  ∙ if_pos (Str-discrete (key ref) (key ref)) refl _ _,
              refl,
              InRanges-contains_port (write s).ranges n again,
              is_claimed-set_claim ref port.port (int (pos n)) auto s (pos n, ref.protocol) owner
                  ∙ not-Taken-is_claimed s owner (key ref) (pos n, ref.protocol)
                      (λ taken. false≢true (
                        sym unused
                        ∙ (used_port_protocols-Taken s owner (pos n, ref.protocol)).1 taken)),
            )

  -- Once a port is allocated, the next call for the same channel port returns it again and changes
  -- nothing.
  allocate_again :
      (z : ℤ) (s' : MuxState)
      → allocate hex channel port s ≡ (ok z, s')
      → allocate hex channel port s' ≡ (ok z, s')
  allocate_again z s' h =
      let (c, filled, there, at, inside, free) = allocate-IsHeld z s' h in
      allocate_keeps hex channel port s' c z filled there at inside free
