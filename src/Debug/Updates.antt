-- ===== src/Debug/Updates.antt =====
-- `update_mux_state` and `delete_mux_state` of `src/debug_state.py`. What is written before an
-- annotation makes the update raise stays written.
use svc_lb_mux.Prelude.{
  Bool, true, false, ◌&&◌, not, Option, none, some, List, [], ◌∷◌, Str, Str-discrete, ite, filter,
  map, Result, ok, err, Exec, continue,
}
use svc_lb_mux.Prelude.Dict.{Dict, keys, member, get, remove, remove_all, put}
use svc_lb_mux.Reconcile.Endpoints.{ServiceKey, ServiceKey-discrete}
use svc_lb_mux.Debug.State.{
  DebugMemo, MuxServiceData, ChannelService, MuxEntry, ChannelEntry, DebugState,
  update_endpoint_state, update_mux_service, channel_state,
}

-- The test whether an entry belongs to the mux.
abbrev pub is_of_mux : ServiceKey → ChannelEntry → Bool
is_of_mux mux_key entry =
    ite (Str-discrete entry.mux_namespace mux_key.0) true false
    && ite (Str-discrete entry.mux_name mux_key.1) true false

-- `for key in channels_to_remove`
abbrev pub remove_channels : List ServiceKey → DebugState → DebugState
remove_channels channels_to_remove state = record state {
  channel_services = remove_all ServiceKey-discrete state.channel_services channels_to_remove;
  endpoints = remove_all ServiceKey-discrete state.endpoints channels_to_remove;
}

abbrev pub channels_of : ServiceKey → DebugState → List ServiceKey
channels_of mux_key state = keys (filter (λ e. is_of_mux mux_key e.1) state.channel_services)

-- `delete_mux_state`
unfoldable pub delete_mux_state : ServiceKey → DebugState → DebugState
delete_mux_state mux_key state = remove_channels (channels_of mux_key state) (record state {
  mux_services = remove ServiceKey-discrete state.mux_services mux_key;
  endpoints = remove ServiceKey-discrete state.endpoints mux_key;
})

abbrev pub channel_key : ChannelService → ServiceKey
channel_key service = (service.channel.namespace, service.channel.name)

-- `self._state["channel_services"][channel_key] = self._channel_state(...)`
abbrev pub write_channel : ServiceKey → Result ChannelEntry → Exec DebugState (Unit {0})
write_channel key (err e) state = (err e, state)
write_channel key (ok entry) state = (
  ok tt,
  record state { channel_services = put ServiceKey-discrete state.channel_services key entry },
)

module _ (memo : DebugMemo) (mux_key : ServiceKey) (mux_external_dns_hostname : Option Str)
    (mux_status_ingress : Option Str) where
  -- the body of the loop over the channels
  unfoldable pub update_channel : ChannelService → Exec DebugState (Unit {0})
  update_channel service state =
      write_channel (channel_key service)
        (channel_state service mux_key mux_external_dns_hostname mux_status_ingress)
        (update_endpoint_state memo (channel_key service) (channel_key service) state)

  unfoldable pub update_channels : List ChannelService → Exec DebugState (Unit {0})
  unfolding update_channel
  update_channels [] state = (ok tt, state)
  update_channels (service ∷ channel_set) state =
      continue (update_channel service state) (λ _ written. update_channels channel_set written)

-- The removal of the channels of the mux that are not in its set any more.
abbrev pub stale_channels : ServiceKey → List ServiceKey → DebugState → List ServiceKey
stale_channels mux_key current state = keys (
    filter (λ e. is_of_mux mux_key e.1 && not (member ServiceKey-discrete e.0 current))
      state.channel_services)

abbrev pub hostname_of : Option MuxEntry → Option Str
hostname_of none = none
hostname_of (some entry) = entry.external_dns_hostname

abbrev pub ingress_of : Option MuxEntry → Option Str
ingress_of none = none
ingress_of (some entry) = entry.status_ingress

abbrev pub channel_set_of : Option (List ChannelService) → List ChannelService
channel_set_of none = []
channel_set_of (some channel_set) = channel_set

-- `_update_mux_channels`; the set of the mux's channels in the order of the loop
unfoldable pub update_mux_channels :
    DebugMemo → Dict ServiceKey (List ChannelService) → ServiceKey → Exec DebugState (Unit {0})
unfolding update_channels
update_mux_channels memo mux_channels mux_key state =
    let channel_set = channel_set_of (get ServiceKey-discrete mux_channels mux_key) in
    let mux = get ServiceKey-discrete state.mux_services mux_key in
    continue (update_channels memo mux_key (hostname_of mux) (ingress_of mux) channel_set state)
      (λ _ written. (
        ok tt,
        remove_channels (stale_channels mux_key (map channel_key channel_set) written) written,
      ))

-- `update_mux_state`
unfoldable pub update_mux_state :
    DebugMemo
    → Dict ServiceKey (List ChannelService)
    → ServiceKey
    → Option MuxServiceData
    → Exec DebugState (Unit {0})
unfolding update_mux_channels
update_mux_state memo mux_channels mux_key mux_service_data state =
    update_mux_channels memo mux_channels mux_key (
      update_endpoint_state memo mux_key mux_key
        (update_mux_service memo mux_key mux_service_data state))
