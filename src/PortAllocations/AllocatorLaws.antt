-- ===== src/PortAllocations/AllocatorLaws.antt =====
-- What `PortAllocator.allocate` of `src/port_allocations.py` promises.
use svc_lb_mux.Prelude.{
  ℕ, ◌≡◌, ◌≢◌, refl, sym, ap, subst, ◌∙◌, Bool, true, false, ◌&&◌, not, Option, none, some, List,
  [], ◌∷◌, if◌then◌else◌, ite, All, Str, Str-discrete, is_empty, any, ℤ, pos, ok, err, ok-injective,
  no_range, err-ne-ok,
}
use svc_lb_mux.Prelude.Dict.{Dict, values, member, add, get}
use svc_lb_mux.Model.{
  Port, Channel, PortKey, PortKey-discrete, PortAllocationRef, from_channel_port, key,
}
use svc_lb_mux.Prelude.Dict.Laws.{member-add, some_inj}
use svc_lb_mux.PortAllocations.Ranges.{contains_port}
use svc_lb_mux.PortAllocations.Allocator.{
  Allocation, PortAllocator, port_key, used_ports, holds_port, is_allocated, kept_port,
  allocate_free, activate, allocate_port,
}
use svc_lb_mux.MuxState.Defs.{first_free_of}
use svc_lb_mux.MuxState.Used.{first_free_of-some}
use svc_lb_mux.MuxState.Free.{InRanges-contains_port}

used_ports-not :
    (x : PortKey) (used : List PortKey) (allocations : List Allocation)
    → member PortKey-discrete x (used_ports used allocations) ≡ false
    → (member PortKey-discrete x used ≡ false) × All (λ a. port_key a ≢ x) allocations
unfolding used_ports
used_ports-not x used [] h = (h, tt)
used_ports-not x used (a ∷ rest) h =
    let (unused, others) = used_ports-not x (add PortKey-discrete (port_key a) used) rest h in
    let (other, before) =
      apart (PortKey-discrete (port_key a) x)
        (sym (member-add PortKey-discrete x (port_key a) used) ∙ unused) in
    (before, (other, others))
  where
    apart :
        (o : Dec (port_key a ≡ x))
        → ite o true (member PortKey-discrete x used) ≡ false
        → (port_key a ≢ x) × (member PortKey-discrete x used ≡ false)
    apart (yes e) h = cc
    apart (no n) h = (n, h)

not_held :
    (x : PortKey) (k : Str) (d : Dict Str Allocation)
    → All (λ a. port_key a ≢ x) (values d)
    → any (holds_port x k) d ≡ false
not_held x k [] h = refl
not_held x k ((j, a) ∷ d) (other, others) =
    rw (unheld (Str-discrete j k) (PortKey-discrete (port_key a) x), not_held x k d others) refl
  where
    unheld : (o : Dec (j ≡ k)) (q : Dec (port_key a ≡ x)) → ite o false (ite q true false) ≡ false
    unheld (yes e) q = refl
    unheld (no n) (yes e) = absurd (other e)
    unheld (no n) (no m) = refl

-- A port of the ranges that is not reserved and that no allocation under another key holds.
abbrev pub IsUnclaimed : PortAllocator → PortAllocationRef → ℤ → Type 0
IsUnclaimed s ref z =
    (contains_port s.ranges z ≡ true) × (is_allocated s (z, ref.protocol) (key ref) ≡ false)

first_free_of-IsUnclaimed :
    (s : PortAllocator) (ref : PortAllocationRef) (n : ℕ)
    → first_free_of (used_ports s.reserved_ports (values s.allocations)) ref.protocol s.ranges
      ≡ some n
    → IsUnclaimed s ref (pos n)
unfolding is_allocated
first_free_of-IsUnclaimed s ref n found =
    let (inside, unused) =
      first_free_of-some (used_ports s.reserved_ports (values s.allocations)) ref.protocol s.ranges
        n found in
    let (free, others) =
      used_ports-not (pos n, ref.protocol) s.reserved_ports (values s.allocations) unused in
    (
      InRanges-contains_port s.ranges n inside,
      rw (not_held (pos n, ref.protocol) (key ref) s.allocations others, free) refl,
    )

kept_port-IsUnclaimed :
    (s : PortAllocator) (ref : PortAllocationRef) (o : Option Allocation) (z : ℤ)
    → kept_port s ref o ≡ some z
    → IsUnclaimed s ref z
unfolding kept_port
kept_port-IsUnclaimed s ref none z h = cc
kept_port-IsUnclaimed s ref (some a) z h =
    usable (contains_port s.ranges a.port) (is_allocated s (a.port, ref.protocol) (key ref)) refl
      refl h
  where
    usable :
        (c d : Bool)
        → contains_port s.ranges a.port ≡ c
        → is_allocated s (a.port, ref.protocol) (key ref) ≡ d
        → (if c && not d then some a.port else none) ≡ some z
        → IsUnclaimed s ref z
    usable true false inside free e = subst (IsUnclaimed s ref) (some_inj e) (inside, free)
    usable true true inside free e = cc
    usable false d inside free e = cc

module _ (channel : Channel) (port : Port) (s : PortAllocator) where
  abbrev ref : PortAllocationRef
  ref = from_channel_port channel port

  from_allocate_free :
      (kept : Option ℤ) (free : Option ℕ) (z : ℤ) (s' : PortAllocator)
      → kept_port (activate ref s) ref (get Str-discrete s.allocations (key ref)) ≡ kept
      → first_free_of (used_ports s.reserved_ports (values s.allocations)) ref.protocol s.ranges
        ≡ free
      → allocate_free ref (activate ref s) kept free ≡ (ok z, s')
      → IsUnclaimed s ref z
  unfolding is_allocated
  from_allocate_free (some k) free z s' kept found h =
      kept_port-IsUnclaimed (activate ref s) ref (get Str-discrete s.allocations (key ref)) z
        (kept ∙ ap some (ok-injective (λ i. (h i).0)))
  from_allocate_free none none z s' kept found h = absurd (err-ne-ok (λ i. (h i).0))
  from_allocate_free none (some n) z s' kept found h =
      subst (IsUnclaimed s ref) (ok-injective (λ i. (h i).0))
        (first_free_of-IsUnclaimed s ref n found)

  -- A port that `PortAllocator.allocate` returns lies in a range of the mux, is not reserved, and no
  -- allocation under another key holds it with the same protocol.
  pub allocate_port-IsUnclaimed :
      (s' : PortAllocator) (z : ℤ) → allocate_port channel port s ≡ (ok z, s') → IsUnclaimed s ref z
  unfolding allocate_port
  allocate_port-IsUnclaimed s' z h = by_ranges (is_empty s.ranges) h
    where
      by_ranges :
          (b : Bool)
          → (if b
              then (err no_range, s)
              else allocate_free ref
                  (activate ref s)
                  (kept_port (activate ref s) ref (get Str-discrete s.allocations (key ref)))
                  (first_free_of
                    (used_ports s.reserved_ports (values s.allocations))
                    ref.protocol
                    s.ranges))
            ≡ (ok z, s')
          → IsUnclaimed s ref z
      by_ranges true h = absurd (err-ne-ok (λ i. (h i).0))
      by_ranges false h =
          from_allocate_free
            (kept_port (activate ref s) ref (get Str-discrete s.allocations (key ref)))
            (first_free_of (used_ports s.reserved_ports (values s.allocations)) ref.protocol
              s.ranges)
            z s' refl refl h
