-- ===== src/MuxState/Free.antt =====
-- When a port can be given to a channel port, and what `_is_claimed` and the set of used ports say of it.
use svc_lb_mux.Prelude.{
  ℕ, ◌≡◌, ◌≢◌, refl, sym, ◌∙◌, Bool, true, false, ◌||◌, Option, none, some, List, [], ◌∷◌, arith,
  if_pos, if_neg, Bool-cases, inl, inr, Some-map, any-Some, Some-any, false≢true, Str, Str-discrete,
  is_empty, any, ℤ, pos, negsuc,
}
use svc_lb_mux.Prelude.Dict.{Dict, member, get, put}
use svc_lb_mux.Prelude.Dict.Laws.{get-Some, get-Some-values, Some-values}
use svc_lb_mux.Model.{Value, PortKey, PortKey-discrete, PortAllocationRef, key}
use svc_lb_mux.PortAllocations.Ranges.{Range, contains_port, within}
use svc_lb_mux.MuxState.Defs.{
  Claim, MuxState, new_claim, is_claim, set_claim, has_port, claimed_by_other, is_foreign,
  is_claimed,
}
use svc_lb_mux.MuxState.Used.{HasPort, Taken, InRanges}

-- The port `z` can be given to `ref`: it lies in a range, is not reserved, was not recovered for
-- another owner, and no claim under another key holds it.
pub record IsFree (s : MuxState) (ref : PortAllocationRef) (owner : Str) (z : ℤ) : Type 0 where
  pub in_range : (n : ℕ) × (z ≡ pos n) × InRanges s.ranges n
  pub unreserved : member PortKey-discrete (z, ref.protocol) s.reserved_ports ≡ false
  pub unowned :
      (o : Str) → get PortKey-discrete s.reserved_port_owners (z, ref.protocol) ≡ some o → o ≡ owner
  pub unclaimed :
      (k : Str) (c : Claim)
      → get Str-discrete s.claims k ≡ some c
      → k ≢ key ref
      → ¬ HasPort (z, ref.protocol) c

pub contains_port_some :
    (ranges : List Range) (z : ℤ)
    → contains_port ranges z ≡ true
    → (n : ℕ) × (z ≡ pos n) × InRanges ranges n
unfolding contains_port
contains_port_some ranges (pos n) h =
    (n, refl, Some-map ranges (λ r p. ground arith) (any-Some (within (pos n)) ranges h))
contains_port_some ranges (negsuc n) h = absurd (no_range_below ranges h)
  where
    no_range_below : (rs : List Range) → any (within (negsuc n)) rs ≢ true
    no_range_below [] e = cc
    no_range_below (r ∷ rs) e = no_range_below rs e

pub InRanges-contains_port :
    (ranges : List Range) (n : ℕ) → InRanges ranges n → contains_port ranges (pos n) ≡ true
unfolding contains_port
InRanges-contains_port [] n h = absurd h
InRanges-contains_port (r ∷ ranges) n (inl h) = ground arith
InRanges-contains_port (r ∷ ranges) n (inr h) = ground (arith, InRanges-contains_port ranges n h)

has_port-HasPort : (x : PortKey) (c : Claim) → HasPort x c → has_port x c ≡ true
has_port-HasPort (z, protocol) c (p, q) = ground arith

claimed_by_other-HasPort :
    (x : PortKey) (current k : Str) (c : Claim)
    → k ≢ current
    → HasPort x c
    → claimed_by_other x current (k, c) ≡ true
claimed_by_other-HasPort x current k c ne has =
    if_neg (Str-discrete k current) ne false (has_port x c) ∙ has_port-HasPort x c has

is_foreign-false : (owner o : Str) → is_foreign owner (some o) ≡ false → o ≡ owner
is_foreign-false owner o h = elim (Str-discrete o owner) [
  | yes e ↦ e
  | no ne ↦ absurd (false≢true (sym (rw (if_neg _ ne) at h)))
]

or_false : (a b c : Bool) → a || b || c ≡ false → (a ≡ false) × (b ≡ false) × (c ≡ false)
or_false a b c h = ground arith

not_true : {b : Bool} → ¬ (b ≡ true) → b ≡ false
not_true {b} h = elim (Bool-cases b) [ inl e ↦ absurd (h e) | inr e ↦ e ]

pub is_claimed-IsFree :
    (s : MuxState) (ref : PortAllocationRef) (owner : Str) (z : ℤ)
    → contains_port s.ranges z ≡ true
    → is_claimed s (z, ref.protocol) (key ref) owner ≡ false
    → IsFree s ref owner z
unfolding is_claimed
is_claimed-IsFree s ref owner z inside h =
    let (any_part, reserved_part, foreign_part) =
      or_false (any (claimed_by_other (z, ref.protocol) (key ref)) s.claims)
        (member PortKey-discrete (z, ref.protocol) s.reserved_ports)
        (is_foreign owner (get PortKey-discrete s.reserved_port_owners (z, ref.protocol))) h in
    record {
      in_range = contains_port_some s.ranges z inside;
      unreserved = reserved_part;
      unowned = λ o e. is_foreign-false owner o (rw e at (foreign_part));
      unclaimed = λ k c there ne has. false≢true (
          sym (any_part)
          ∙ Some-any (claimed_by_other (z, ref.protocol) (key ref)) s.claims (
              get-Some Str-discrete (λ e. claimed_by_other (z, ref.protocol) (key ref) e ≡ true)
                s.claims k c there
                (claimed_by_other-HasPort (z, ref.protocol) (key ref) k c ne has)));
    }

-- A port that nobody has is free for everybody.
pub not-Taken-IsFree :
    (s : MuxState) (ref : PortAllocationRef) (owner : Str) (n : ℕ)
    → InRanges s.ranges n
    → ¬ Taken s owner (pos n, ref.protocol)
    → IsFree s ref owner (pos n)
not-Taken-IsFree s ref owner n inside free = record {
  in_range = (n, refl, inside);
  unreserved = not_true (λ m. free (inl m));
  unowned = λ o e. elim (Str-discrete o owner) [
    | yes same ↦ same
    | no other ↦ absurd (
        free (
          inr (
            inl (
              get-Some PortKey-discrete _ s.reserved_port_owners (pos n, ref.protocol) o e
                (refl, other)))))
  ];
  unclaimed = λ k c there _ has. free (
      inr (
        inr (get-Some-values Str-discrete (HasPort (pos n, ref.protocol)) s.claims k c there has)));
}

-- The claim under a key does not count against that key.
pub any-put :
    (x : PortKey) (k : Str) (claim : Claim) (d : Dict Str Claim)
    → any (claimed_by_other x k) (put Str-discrete d k claim) ≡ any (claimed_by_other x k) d
unfolding put
any-put x k claim [] = rw (if_pos (Str-discrete k k) refl false (has_port x claim))
any-put x k claim ((j, w) ∷ d) = elim (Str-discrete j k) [
  | yes e ↦ rw (
    if_pos (Str-discrete j k) e ((j, claim) ∷ d) ((j, w) ∷ put Str-discrete d k claim),
    if_pos (Str-discrete j k) e false (has_port x claim),
    if_pos (Str-discrete j k) e false (has_port x w),
  )
  | no ne ↦ rw (
    if_neg (Str-discrete j k) ne ((j, claim) ∷ d) ((j, w) ∷ put Str-discrete d k claim),
    any-put x k claim d,
  )
]

claimed_by_other-has :
    (x : PortKey) (current : Str) (e : Str × Claim)
    → claimed_by_other x current e ≡ true
    → HasPort x e.1
claimed_by_other-has (z, protocol) current (k, c) h = ground arith

pub not-Taken-is_claimed :
    (s : MuxState) (owner current : Str) (x : PortKey)
    → ¬ Taken s owner x
    → is_claimed s x current owner ≡ false
unfolding is_claimed
not-Taken-is_claimed s owner current x free =
    and_false
      (not_true λ h. free (
        inr (
          inr (
            Some-values (HasPort x) s.claims (
              Some-map s.claims (claimed_by_other-has x current)
                (any-Some (claimed_by_other x current) s.claims h))))))
      (not_true λ h. free (inl h))
      (not_foreign (get PortKey-discrete s.reserved_port_owners x) (λ o there ne.
        free (inr (inl (get-Some PortKey-discrete _ s.reserved_port_owners x o there (refl, ne))))))
  where
    and_false : {a b c : Bool} → a ≡ false → b ≡ false → c ≡ false → a || b || c ≡ false
    and_false p q r = rw (p, q, r)

    not_foreign :
        (o : Option Str) → ((w : Str) → o ≡ some w → w ≢ owner → ⊥) → is_foreign owner o ≡ false
    not_foreign none h = refl
    not_foreign (some w) h = elim (Str-discrete w owner) [
      | yes e ↦ if_pos (Str-discrete w owner) e false true
      | no ne ↦ absurd (h w refl ne)
    ]

pub is_claimed-set_claim :
    (ref : PortAllocationRef) (channel_port mux_port : Value) (mode : Str) (s : MuxState)
    (x : PortKey) (owner : Str)
    → is_claimed (set_claim ref channel_port mux_port mode s) x (key ref) owner
      ≡ is_claimed s x (key ref) owner
unfolding is_claimed set_claim
is_claimed-set_claim ref v m mode s x owner =
    let claim = new_claim ref v m mode in
    elim (Bool-cases (is_claim claim (get Str-discrete s.claims (key ref)))) [
      | inl same ↦ rw same
      | inr new ↦ rw (new, any-put x (key ref) claim s.claims)
    ]

pub InRanges-ne-nil : (ranges : List Range) (n : ℕ) → InRanges ranges n → is_empty ranges ≡ false
InRanges-ne-nil [] n h = absurd h
InRanges-ne-nil (r ∷ ranges) n h = refl
