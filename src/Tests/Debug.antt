-- ===== src/Tests/Debug.antt =====
-- Tests of the debug page.
use svc_lb_mux.Prelude.{
  ℕ, ◌≡◌, ◌≤◌, ◌↔◌, refl, true, Option, none, some, List, [], ◌∷◌, arith, Str, codes, Str-discrete,
  pos, ok, err, not_integer, map, filter, All,
}
use svc_lb_mux.Prelude.Dict.{Dict, get, values}
use svc_lb_mux.Model.{annotation_ports}
use svc_lb_mux.Reconcile.Endpoints.{ServiceKey, ServiceKey-discrete}
use svc_lb_mux.Debug.Events.{DebugEvent, record_event, truncate_event_message, take_existing}
use svc_lb_mux.Debug.EventSearch.{IsEventLog}
use svc_lb_mux.Debug.EventLaws.{
  IsCounted, subject_of, record_event-IsEventLog, record_event-IsCounted,
}
use svc_lb_mux.Debug.Ports.{parse_mux_port_annotation}
use svc_lb_mux.Debug.State.{DebugMemo, ChannelService, DebugState, channel_state, mux_entry}
use svc_lb_mux.Debug.Updates.{update_mux_state, delete_mux_state, channel_set_of}
use svc_lb_mux.Debug.DeleteLaws.{IsDeleted, delete_mux_state-IsDeleted}
use svc_lb_mux.Debug.ChannelLaws.{last_with}
use svc_lb_mux.Debug.UpdateLaws.{IsUpdated, update_mux_state-IsUpdated}
use svc_lb_mux.Debug.UpdateErrors.{IsReadable, update_mux_state_ok}
use svc_lb_mux.Debug.Reachable.{
  new_state, Reachable, at_start, updated, deleted, IsWellFormed, Reachable-IsWellFormed,
}
use svc_lb_mux.Debug.Topology.{topology, channel_view}
use svc_lb_mux.Debug.TopologyLaws.{channels_shown, is_under, topology-grouped}
use svc_lb_mux.Tests.Fixtures.{web, mux_one}

abbrev one_event : List DebugEvent
one_event = record_event (codes "t") (codes "Normal") (codes "n/w") (codes "made") []

abbrev times_of : DebugEvent → Str × Str × ℕ
times_of e = (e.first_timestamp, e.timestamp, e.count)

-- the same event again is counted
one_event_twice :
    map times_of (record_event (codes "u") (codes "Normal") (codes "n/w") (codes "made") one_event)
    ≡ (codes "t", codes "u", 2) ∷ []
unfolding record_event truncate_event_message take_existing Str-discrete
one_event_twice = refl

one_event-IsEventLog : IsEventLog one_event
one_event-IsEventLog =
    record_event-IsEventLog (codes "t") (codes "Normal") (codes "n/w") (codes "made") []
      (omega arith, tt)

record_event-IsEventLog_example :
    IsEventLog (record_event (codes "u") (codes "Normal") (codes "n/v") (codes "gone") one_event)
record_event-IsEventLog_example =
    record_event-IsEventLog (codes "u") (codes "Normal") (codes "n/v") (codes "gone") one_event
      one_event-IsEventLog

record_event-IsCounted_example :
    IsCounted
      (subject_of (codes "Normal") (codes "n/w") (codes "made"))
      one_event
      (record_event (codes "u") (codes "Normal") (codes "n/w") (codes "made") one_event)
record_event-IsCounted_example =
    record_event-IsCounted (codes "u") (codes "Normal") (codes "n/w") (codes "made") one_event
      one_event-IsEventLog.0

-- a port of another form makes it raise
one_bad_port : parse_mux_port_annotation (codes "a:http") ≡ err not_integer
unfolding parse_mux_port_annotation svc_lb_mux.Prelude.split svc_lb_mux.Prelude.partition
    svc_lb_mux.Prelude.strip svc_lb_mux.Prelude.int_of_text
one_bad_port = refl

abbrev web_service : ChannelService
web_service = record {
  channel = record web { annotations = (annotation_ports, codes "a:80->8000") ∷ [] };
  load_balancer_class = some (codes "svc-mux.nowake.ai/m.n");
  ingress = [];
}

abbrev memo_one : DebugMemo
memo_one = record { mux_queues = mux_one ∷ []; endpoints = [] }

abbrev channels_one : Dict ServiceKey (List ChannelService)
channels_one = (mux_one, web_service ∷ []) ∷ []

abbrev state_one : DebugState
state_one = (update_mux_state memo_one channels_one mux_one none new_state).1

state_one-Reachable : Reachable state_one
state_one-Reachable = updated memo_one channels_one mux_one none new_state at_start

Reachable-IsWellFormed_example : IsWellFormed (delete_mux_state mux_one state_one)
Reachable-IsWellFormed_example =
    Reachable-IsWellFormed (delete_mux_state mux_one state_one)
      (deleted mux_one state_one state_one-Reachable)

delete_mux_state-IsDeleted_example :
    IsDeleted mux_one state_one (delete_mux_state mux_one state_one)
delete_mux_state-IsDeleted_example =
    delete_mux_state-IsDeleted mux_one state_one
      (Reachable-IsWellFormed state_one state_one-Reachable).0

update_mux_state_ok_example :
    ((update_mux_state memo_one channels_one mux_one none new_state).0 ≡ ok tt)
    ↔ All IsReadable (channel_set_of (get ServiceKey-discrete channels_one mux_one))
update_mux_state_ok_example = update_mux_state_ok memo_one channels_one mux_one none new_state

returned_one : update_mux_state memo_one channels_one mux_one none new_state ≡ (ok tt, state_one)
unfolding update_mux_state get ServiceKey-discrete channel_state parse_mux_port_annotation
    Str-discrete annotation_ports svc_lb_mux.Prelude.split svc_lb_mux.Prelude.partition
    svc_lb_mux.Prelude.strip svc_lb_mux.Prelude.int_of_text
returned_one = refl

update_mux_state-IsUpdated_example :
    IsUpdated
      (mux_entry memo_one mux_one none)
      mux_one
      (codes "n", codes "w")
      (last_with
        (codes "n", codes "w")
        (channel_set_of (get ServiceKey-discrete channels_one mux_one)))
      new_state
      state_one
update_mux_state-IsUpdated_example =
    update_mux_state-IsUpdated memo_one channels_one mux_one none new_state state_one tt
      returned_one (codes "n", codes "w")

topology-grouped_example :
    channels_shown (get Str-discrete (topology state_one) (codes "n/m"))
    ≡ map channel_view (filter (is_under (codes "n/m")) (values state_one.channel_services))
topology-grouped_example = topology-grouped state_one (codes "n/m")
