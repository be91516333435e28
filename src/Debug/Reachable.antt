-- ===== src/Debug/Reachable.antt =====
-- The states of the debug page that its methods lead to, and what holds in each of them.
use svc_lb_mux.Prelude.{
  Option, List, [], ◌∷◌, Str, Result, ok, err, ◌≡◌, refl, sym, ap, ◌∙◌, subst, All, continue,
  >>=-eq-ok, none, ok-injective,
}
use svc_lb_mux.Prelude.Dict.{Dict, get, remove_all}
use svc_lb_mux.Prelude.Dict.Unique.{UniqueKeys, put-UniqueKeys}
use svc_lb_mux.Prelude.Dict.Entries.{All-put, All-remove_all, remove_all-UniqueKeys}
use svc_lb_mux.Model.{annotation_of, annotation_ports}
use svc_lb_mux.Reconcile.Endpoints.{ServiceKey, ServiceKey-discrete}
use svc_lb_mux.Debug.Ports.{parse_mux_port_annotation}
use svc_lb_mux.Debug.State.{
  DebugMemo, MuxServiceData, ChannelService, ChannelEntry, DebugState, channel_state,
  update_endpoint_state, update_mux_service,
}
use svc_lb_mux.Debug.Updates.{
  channel_key, write_channel, update_channel, update_channels, hostname_of, ingress_of,
  channel_set_of, update_mux_channels, update_mux_state, channels_of, delete_mux_state,
}
use svc_lb_mux.Debug.ChannelLaws.{endpoint_channels}

-- `DebugStateStore.__init__`
abbrev pub new_state : DebugState
new_state = record { mux_services = []; channel_services = []; endpoints = [] }

-- The states after any calls of the two methods, those that raise included.
pub data Reachable : DebugState → Type 0 where
  at_start : Reachable new_state
  updated :
      (memo : DebugMemo) (mux_channels : Dict ServiceKey (List ChannelService))
      (mux_key : ServiceKey) (service : Option MuxServiceData) (state : DebugState)
      → Reachable state
      → Reachable (update_mux_state memo mux_channels mux_key service state).1
  deleted :
      (mux_key : ServiceKey) (state : DebugState)
      → Reachable state
      → Reachable (delete_mux_state mux_key state)

-- An entry stands under its own namespace and name.
abbrev pub IsKeyed : ServiceKey × ChannelEntry → Type 0
IsKeyed e = (e.1.namespace, e.1.name) ≡ e.0

abbrev pub IsWellFormed : DebugState → Type 0
IsWellFormed state = UniqueKeys state.channel_services × All IsKeyed state.channel_services

abbrev IsWellKeyed : Dict ServiceKey ChannelEntry → Type 0
IsWellKeyed d = UniqueKeys d × All IsKeyed d

remove_all-IsWellKeyed :
    (d : Dict ServiceKey ChannelEntry) (ks : List ServiceKey)
    → IsWellKeyed d
    → IsWellKeyed (remove_all ServiceKey-discrete d ks)
remove_all-IsWellKeyed d ks (unique, keyed) = (
  remove_all-UniqueKeys ServiceKey-discrete d ks unique,
  All-remove_all ServiceKey-discrete IsKeyed d ks keyed,
)

continue-1 :
    {S : Type 0} (P : S → Type 0) (r : Result (Unit {0}) × S)
    (f : Unit {0} → S → Result (Unit {0}) × S)
    → P r.1
    → ((s : S) → P s → P (f tt s).1)
    → P (continue r f).1
continue-1 P (ok tt, s) f h later = later s h
continue-1 P (err e, s) f h later = h

module _ (memo : DebugMemo) (mux_key : ServiceKey) (hostname ingress : Option Str) where
  channel_state-key :
      (c : ChannelService) (entry : ChannelEntry)
      → channel_state c mux_key hostname ingress ≡ ok entry
      → (entry.namespace, entry.name) ≡ channel_key c
  unfolding channel_state
  channel_state-key c entry h =
      let (ports, _, made) =
        >>=-eq-ok (parse_mux_port_annotation (annotation_of c.channel.annotations annotation_ports))
          _ h in
      ap (λ e. (e.namespace, e.name)) (ok-injective (sym made))

  write-IsWellFormed :
      (c : ChannelService) (r : Result ChannelEntry) (state : DebugState)
      → channel_state c mux_key hostname ingress ≡ r
      → IsWellFormed state
      → IsWellFormed (write_channel (channel_key c) r state).1
  write-IsWellFormed c (err e) state made h = h
  write-IsWellFormed c (ok entry) state made (unique, keyed) = (
    put-UniqueKeys ServiceKey-discrete state.channel_services (channel_key c) entry unique,
    All-put ServiceKey-discrete IsKeyed state.channel_services (channel_key c) entry
        (λ j same. channel_state-key c entry made ∙ sym same) keyed,
  )

  endpoint-IsWellFormed :
      (key : ServiceKey) (state : DebugState)
      → IsWellFormed state
      → IsWellFormed (update_endpoint_state memo key key state)
  endpoint-IsWellFormed key state h =
      subst IsWellKeyed (sym (endpoint_channels memo key none none key state)) h

  update_channels-IsWellFormed :
      (cs : List ChannelService) (state : DebugState)
      → IsWellFormed state
      → IsWellFormed (update_channels memo mux_key hostname ingress cs state).1
  unfolding update_channels update_channel
  update_channels-IsWellFormed [] state h = h
  update_channels-IsWellFormed (c ∷ cs) state h =
      continue-1 IsWellFormed (update_channel memo mux_key hostname ingress c state) _
        (write-IsWellFormed c _ _ refl (endpoint-IsWellFormed (channel_key c) state h))
        (λ s written. update_channels-IsWellFormed cs s written)

update-IsWellFormed :
    (memo : DebugMemo) (mux_channels : Dict ServiceKey (List ChannelService)) (mux_key : ServiceKey)
    (service : Option MuxServiceData) (state : DebugState)
    → IsWellFormed state
    → IsWellFormed (update_mux_state memo mux_channels mux_key service state).1
unfolding update_mux_state update_mux_channels update_mux_service
update-IsWellFormed memo mux_channels mux_key service state h =
    let start =
      update_endpoint_state memo mux_key mux_key (update_mux_service memo mux_key service state) in
    let mux = get ServiceKey-discrete start.mux_services mux_key in
    let cs = channel_set_of (get ServiceKey-discrete mux_channels mux_key) in
    continue-1 IsWellFormed
      (update_channels memo mux_key (hostname_of mux) (ingress_of mux) cs start) _
      (update_channels-IsWellFormed memo mux_key (hostname_of mux) (ingress_of mux) cs start
        (endpoint-IsWellFormed memo mux_key none none mux_key _ h))
      (λ s written. remove_all-IsWellKeyed s.channel_services _ written)

delete-IsWellFormed :
    (mux_key : ServiceKey) (state : DebugState)
    → IsWellFormed state
    → IsWellFormed (delete_mux_state mux_key state)
unfolding delete_mux_state
delete-IsWellFormed mux_key state h =
    remove_all-IsWellKeyed state.channel_services (channels_of mux_key state) h

-- In every state that calls of `update_mux_state` and `delete_mux_state` lead to, whether they
-- return or raise, the channels have unique keys, and each stands under its namespace and name.
pub Reachable-IsWellFormed : (state : DebugState) → Reachable state → IsWellFormed state
Reachable-IsWellFormed _ at_start = (tt, tt)
Reachable-IsWellFormed _ (updated memo mux_channels mux_key service state r) =
    update-IsWellFormed memo mux_channels mux_key service state (Reachable-IsWellFormed state r)
Reachable-IsWellFormed _ (deleted mux_key state r) =
    delete-IsWellFormed mux_key state (Reachable-IsWellFormed state r)
