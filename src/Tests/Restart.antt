-- ===== src/Tests/Restart.antt =====
-- Tests of `MuxState` across a restart of the controller.
use svc_lb_mux.Prelude.{
  ◌≡◌, refl, true, false, none, some, Option, [], ◌∷◌, List, Str, Str-discrete, codes, pos, ok,
  if◌then◌else◌,
}
use svc_lb_mux.Prelude.Dict.{Dict, get, member}
use svc_lb_mux.Model.{PortKey, PortKey-discrete, tcp, Channel, from_channel_port, key}
use svc_lb_mux.PortAllocations.Ranges.{Range, contains_port}
use svc_lb_mux.MuxState.Defs.{MuxState, allocate, is_foreign, ref_owner}
use svc_lb_mux.MuxState.Lifecycle.{init, to_state, active_claim_keys, claims_by_key}
use svc_lb_mux.MuxState.Stored.{Reached, constructed, allocated}
use svc_lb_mux.MuxState.Reload.{to_state-claims}
use svc_lb_mux.MuxState.Survive.{IsUsable, allocate-init}
use svc_lb_mux.Controller.Pass.{no_state}
use svc_lb_mux.Tests.Fixtures.{hex, http, web, mux_one}

abbrev ranges_one : List Range
ranges_one = (8000, 8001) ∷ []

abbrev start : MuxState
start = init mux_one ranges_one no_state (web ∷ []) [] []

start-Reached : Reached hex start
start-Reached = constructed mux_one ranges_one no_state (web ∷ []) [] []

abbrev after : MuxState
after = (allocate hex web http start).1

allocate-start : (allocate hex web http start).0 ≡ ok (pos 8000)
unfolding allocate init svc_lb_mux.MuxState.Defs.keep_port get svc_lb_mux.Prelude.Dict.remove_all
    svc_lb_mux.Prelude.Dict.difference svc_lb_mux.MuxState.Defs.next_available_port
allocate-start = refl

allocate_run : allocate hex web http start ≡ (ok (pos 8000), after)
allocate_run = λ i. (allocate-start i, after)

web_declared :
    member Str-discrete (key (from_channel_port web http)) (active_claim_keys (web ∷ []) []) ≡ true
unfolding member active_claim_keys svc_lb_mux.Prelude.Dict.add Str-discrete key
web_declared = refl

range_has : contains_port ranges_one (pos 8000) ≡ true
unfolding contains_port
range_has = refl

nothing_reserved : member {K = PortKey} PortKey-discrete (pos 8000, tcp) [] ≡ false
unfolding member
nothing_reserved = refl

nobody_owns :
    is_foreign
      (ref_owner hex (from_channel_port web http))
      (get {V = Str} PortKey-discrete [] (pos 8000, tcp))
    ≡ false
unfolding get
nobody_owns = refl

port-IsUsable : IsUsable hex web http (pos 8000) ranges_one [] []
port-IsUsable = (range_has, nothing_reserved, nobody_owns)

allocate-init_example :
    allocate hex web http (init mux_one ranges_one (to_state after) (web ∷ []) [] [])
    ≡ (ok (pos 8000), init mux_one ranges_one (to_state after) (web ∷ []) [] [])
allocate-init_example =
    allocate-init hex web http start (pos 8000) after start-Reached allocate_run mux_one ranges_one
      (web ∷ []) [] [] web_declared port-IsUsable

to_state-claims_example :
    ((k : Str)
      → get Str-discrete (claims_by_key (to_state after)) k ≡ get Str-discrete after.claims k)
    × ((mux_key : Str × Str) (ranges : List Range) (channels : List Channel)
          (reserved : List PortKey) (owners : Dict PortKey Str) (k : Str)
        → get Str-discrete (init mux_key ranges (to_state after) channels reserved owners).claims k
          ≡ (if member Str-discrete k (active_claim_keys channels [])
              then get Str-discrete after.claims k
              else none))
to_state-claims_example = to_state-claims hex after (allocated web http start start-Reached)
