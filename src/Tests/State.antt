-- ===== src/Tests/State.antt =====
-- Tests of `MuxState` and `PortAllocator`.
use svc_lb_mux.PortAllocations.Allocator.{PortAllocator, new_allocator, allocate_port}
use svc_lb_mux.Prelude.Dict.{put}
use svc_lb_mux.Prelude.{
  ℕ, ◌≡◌, refl, true, none, [], ◌∷◌, ◌⊎◌, ◌↔◌, codes, Str-discrete, pos, ok, err, no_free_port,
  no_range,
}
use svc_lb_mux.Prelude.Dict.{member, add, get, put}
use svc_lb_mux.Model.{PortKey-discrete, from_channel_port, key, tcp}
use svc_lb_mux.MuxState.Defs.{
  MuxState, StateDocument, Claim, ref_owner, allocate, used_port_protocols,
}
use svc_lb_mux.MuxState.Used.{Taken, InRanges, used_port_protocols-Taken}
use svc_lb_mux.MuxState.Free.{IsFree}
use svc_lb_mux.MuxState.Allocate.{Allocated, allocate-IsFree, allocate_err, allocate-Allocated}
use svc_lb_mux.MuxState.Distinct.{IsDistinct, allocate-IsDistinct}
use svc_lb_mux.Tests.Fixtures.{hex, http, web, api, empty_state, web_ref, web_owner}

-- the state behind the first allocation
abbrev web_state : MuxState
web_state = (allocate hex web http empty_state).1

allocate_first : allocate hex web http empty_state ≡ (ok (pos 8000), web_state)
unfolding allocate svc_lb_mux.MuxState.Defs.keep_port get
    svc_lb_mux.MuxState.Defs.next_available_port member
allocate_first = refl

allocate_second : (allocate hex api http web_state).0 ≡ ok (pos 8001)
unfolding allocate svc_lb_mux.MuxState.Defs.keep_port get
    svc_lb_mux.MuxState.Defs.next_available_port member svc_lb_mux.MuxState.Defs.set_claim put
    Str-discrete key add PortKey-discrete
allocate_second = refl

abbrev full_state : MuxState
full_state = record web_state { ranges = (8000, 8000) ∷ [] }

allocate_full : allocate hex api http full_state ≡ (err no_free_port, full_state)
unfolding allocate svc_lb_mux.MuxState.Defs.keep_port get
    svc_lb_mux.MuxState.Defs.next_available_port member svc_lb_mux.MuxState.Defs.set_claim put
    Str-discrete key add PortKey-discrete
allocate_full = refl

allocate-IsFree_example : IsFree empty_state web_ref web_owner (pos 8000)
allocate-IsFree_example =
    allocate-IsFree hex web http empty_state (pos 8000) web_state allocate_first

allocate-Allocated_example : Allocated hex web http empty_state (pos 8000) web_state
allocate-Allocated_example =
    allocate-Allocated hex web http empty_state (pos 8000) web_state allocate_first

allocate_err_example :
    (full_state ≡ full_state)
    × ((no_free_port ≡ no_range) × (full_state.ranges ≡ [])
        ⊎ (no_free_port ≡ no_free_port)
          × ((n : ℕ)
              → InRanges full_state.ranges n
              → Taken full_state (ref_owner hex (from_channel_port api http)) (pos n, tcp)))
allocate_err_example = allocate_err hex api http full_state no_free_port full_state allocate_full

empty_state-IsDistinct : IsDistinct empty_state
unfolding get
empty_state-IsDistinct = record { at = λ x k l c d at_k at_l has_k has_l. cc }

allocate-IsDistinct_example : IsDistinct (allocate hex web http empty_state).1
allocate-IsDistinct_example = allocate-IsDistinct hex web http empty_state empty_state-IsDistinct

used_port_protocols-Taken_example :
    (member PortKey-discrete (pos 8000, tcp) (used_port_protocols web_state web_owner) ≡ true)
    ↔ Taken web_state web_owner (pos 8000, tcp)
used_port_protocols-Taken_example = used_port_protocols-Taken web_state web_owner (pos 8000, tcp)

abbrev allocator : PortAllocator
allocator = new_allocator (codes "n", codes "m") ((8000, 8001) ∷ []) [] ((pos 8000, tcp) ∷ []) none

allocated : (allocate_port web http allocator).0 ≡ ok (pos 8001)
unfolding allocate_port new_allocator get svc_lb_mux.MuxState.Defs.first_free_of member
    PortKey-discrete
allocated = refl
