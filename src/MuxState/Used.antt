-- ===== src/MuxState/Used.antt =====
-- Which ports `_used_port_protocols` collects, and what `_next_available_port` finds.
use svc_lb_mux.Prelude.{
  ℕ, zero, suc, ◌+◌, ◌-◌, ◌≤◌, ◌<◌, ◌≡◌, ◌≢◌, ◌∙◌, true, false, Option, none, some, List, [], ◌∷◌,
  arith, if_pos, if_neg, Bool-cases, Option-cases, inl, inr, ◌⊎◌, ◌↔◌, Some, Str, Str-discrete, ℤ,
  pos, ℕ_discrete,
}
use svc_lb_mux.Prelude.Dict.{Dict, values, member, add}
use svc_lb_mux.Prelude.Dict.Laws.{member-add}
use svc_lb_mux.Model.{PortKey, PortKey-discrete}
use svc_lb_mux.PortAllocations.Ranges.{Range}
use svc_lb_mux.MuxState.Defs.{
  Claim, MuxState, claim_mux_port, claim_protocol, use_foreign, use_port, add_foreign, add_claims,
  used_port_protocols, first_free, first_free_of,
}

-- The claim holds the port.
abbrev pub HasPort : PortKey → Claim → Type 0
HasPort port_key claim =
    (claim_mux_port claim ≡ some port_key.0) × (claim_protocol claim ≡ port_key.1)

-- Nobody else may have the port: it is reserved, recovered for another owner, or claimed.
abbrev pub Taken : MuxState → Str → PortKey → Type 0
Taken s owner port_key =
    (member PortKey-discrete port_key s.reserved_ports ≡ true)
    ⊎ Some (λ e. (e.0 ≡ port_key) × (e.1 ≢ owner)) s.reserved_port_owners
    ⊎ Some (HasPort port_key) (values s.claims)

abbrev IsUsed : PortKey → List PortKey → Type 0
IsUsed x used = member PortKey-discrete x used ≡ true

IsUsed-add :
    (x y : PortKey) (used : List PortKey)
    → IsUsed x (add PortKey-discrete y used)
    → (y ≡ x) ⊎ IsUsed x used
IsUsed-add x y used h = elim (PortKey-discrete y x) [
  | yes e ↦ inl e
  | no ne ↦ inr (rw (member-add, if_neg _ ne) at h)
]

IsUsed-add_self :
    (x y : PortKey) (used : List PortKey)
    → (y ≡ x) ⊎ IsUsed x used
    → IsUsed x (add PortKey-discrete y used)
IsUsed-add_self x y used h = elim (PortKey-discrete y x) [
  | yes e ↦ rw (member-add, if_pos _ e)
  | no ne ↦ rw (member-add, if_neg _ ne) (ground arith)
]

-- What is in after two steps is in before them, or came with one of them.
chain_steps : {T U V W S : Type 0} → T ↔ (U ⊎ S) → U ↔ (V ⊎ W) → T ↔ (V ⊎ W ⊎ S)
chain_steps {T} {U} {V} {W} {S} f g = (λ t. forth (f.0 t), back)
  where
    forth_step : V ⊎ W → V ⊎ W ⊎ S
    forth_step (inl v) = inl v
    forth_step (inr w) = inr (inl w)

    forth : U ⊎ S → V ⊎ W ⊎ S
    forth (inl u) = forth_step (g.0 u)
    forth (inr s) = inr (inr s)

    back : V ⊎ W ⊎ S → T
    back (inl v) = f.1 (inl (g.1 (inl v)))
    back (inr (inl w)) = f.1 (inl (g.1 (inr w)))
    back (inr (inr s)) = f.1 (inr s)

module _ (x : PortKey) where
  use_foreign_lem :
      (owner : Str) (y : PortKey) (o : Str) (used : List PortKey)
      → IsUsed x (use_foreign owner y o used) ↔ (IsUsed x used ⊎ (y ≡ x) × (o ≢ owner))
  unfolding use_foreign
  use_foreign_lem owner y o used = elim (Str-discrete o owner) [
    | yes e ↦ rw (if_pos _ e) (λ h. inl h, λ h. ground arith)
    | no ne ↦
        rw (if_neg _ ne)
          (λ h. ground (arith, IsUsed-add x y used h), λ h. IsUsed-add_self x y used (ground arith))
  ]

  use_port_lem :
      (port : Option ℤ) (protocol : Str) (used : List PortKey)
      → IsUsed x (use_port port protocol used)
        ↔ (IsUsed x used ⊎ (port ≡ some x.0) × (protocol ≡ x.1))
  unfolding use_port
  use_port_lem none protocol used = (λ h. inl h, λ h. ground arith)
  use_port_lem (some z) protocol used = (
    λ h. ground (arith, IsUsed-add x (z, protocol) used h),
    λ h. IsUsed-add_self x (z, protocol) used (ground arith),
  )

  add_foreign_lem :
      (owner : Str) (used : List PortKey) (owners : Dict PortKey Str)
      → IsUsed x (add_foreign owner used owners)
        ↔ (IsUsed x used ⊎ Some (λ e. (e.0 ≡ x) × (e.1 ≢ owner)) owners)
  unfolding add_foreign
  add_foreign_lem owner used [] = (λ h. inl h, λ h. ground arith)
  add_foreign_lem owner used ((y, o) ∷ owners) =
      chain_steps (add_foreign_lem owner (use_foreign owner y o used) owners)
        (use_foreign_lem owner y o used)

  add_claims_lem :
      (used : List PortKey) (claims : List Claim)
      → IsUsed x (add_claims used claims) ↔ (IsUsed x used ⊎ Some (HasPort x) claims)
  unfolding add_claims
  add_claims_lem used [] = (λ h. inl h, λ h. ground arith)
  add_claims_lem used (c ∷ claims) =
      chain_steps (add_claims_lem (use_port (claim_mux_port c) (claim_protocol c) used) claims)
        (use_port_lem (claim_mux_port c) (claim_protocol c) used)

-- The set of used ports holds exactly the ports that nobody else may have.
pub used_port_protocols-Taken :
    (s : MuxState) (owner : Str) (x : PortKey)
    → (member PortKey-discrete x (used_port_protocols s owner) ≡ true) ↔ Taken s owner x
unfolding used_port_protocols
used_port_protocols-Taken s owner x =
    chain_steps
      (add_claims_lem x (add_foreign owner s.reserved_ports s.reserved_port_owners)
        (values s.claims))
      (add_foreign_lem x owner s.reserved_ports s.reserved_port_owners)

-- The number lies in one of the ranges.
abbrev pub InRanges : List Range → ℕ → Type 0
InRanges ranges n = Some (λ r. (r.0 ≤ n) × (n ≤ r.1)) ranges

module _ (used : List PortKey) (protocol : Str) where
  abbrev IsFreeAt : ℕ → Type 0
  IsFreeAt p = member PortKey-discrete (pos p, protocol) used ≡ false

  first_free-some :
      (start count p : ℕ)
      → first_free used protocol start count ≡ some p
      → (start ≤ p) × (p < start + count) × IsFreeAt p
  unfolding first_free
  first_free-some start zero p h = cc
  first_free-some start (suc count) p h =
      elim (Bool-cases (member PortKey-discrete (pos start, protocol) used)) [
        | inl taken ↦
            let (low, high, free) = first_free-some (start + 1) count p (rw taken at h) in
            (omega arith, omega arith, free)
        | inr free ↦ ground arith
      ]

  first_free-none :
      (start count p : ℕ)
      → first_free used protocol start count ≡ none
      → start ≤ p
      → p < start + count
      → member PortKey-discrete (pos p, protocol) used ≡ true
  unfolding first_free
  first_free-none start zero p h low high = absurd (omega arith)
  first_free-none start (suc count) p h low high = elim (ℕ_discrete start p) [
    | yes e ↦ ground arith
    | no ne ↦ first_free-none (start + 1) count p (ground arith) (omega arith) (omega arith)
  ]

  pub first_free_of-some :
      (ranges : List Range) (p : ℕ)
      → first_free_of used protocol ranges ≡ some p
      → InRanges ranges p × IsFreeAt p
  unfolding first_free_of
  first_free_of-some [] p h = cc
  first_free_of-some (r ∷ ranges) p h =
      elim (Option-cases (first_free used protocol r.0 (r.1 + 1 - r.0))) [
        | inl nothing ↦
            let (there, free) = first_free_of-some ranges p (rw nothing at h) in (inr there, free)
        | inr (q, found) ↦
            let (low, high, free) =
              first_free-some r.0 (r.1 + 1 - r.0) p (found ∙ (rw found at h)) in
            (inl (low, omega arith), free)
      ]

  pub first_free_of-none :
      (ranges : List Range) (p : ℕ)
      → first_free_of used protocol ranges ≡ none
      → InRanges ranges p
      → member PortKey-discrete (pos p, protocol) used ≡ true
  unfolding first_free_of
  first_free_of-none [] p h there = absurd there
  first_free_of-none (r ∷ ranges) p h (inl (low, high)) =
      first_free-none r.0 (r.1 + 1 - r.0) p (ground arith) low (omega arith)
  first_free_of-none (r ∷ ranges) p h (inr there) = first_free_of-none ranges p (ground arith) there
