-- ===== src/Debug/ChannelLaws.antt =====
-- What the loop of `_update_mux_channels` of `src/debug_state.py` writes.
use svc_lb_mux.Prelude.{
  Option, none, some, List, [], ◌∷◌, Str, ite, if_pos, if_neg, Result, ok, err, ◌≡◌, refl, sym,
  subst, ap, ◌∙◌, err-ne-ok, continue_ok,
}
use svc_lb_mux.Prelude.Dict.{get, put}
use svc_lb_mux.Prelude.Dict.Laws.{get-put, get-put_ne}
use svc_lb_mux.Prelude.Dict.Unique.{UniqueKeys, put-UniqueKeys}
use svc_lb_mux.Reconcile.Endpoints.{ServiceKey, ServiceKey-discrete}
use svc_lb_mux.Debug.State.{
  DebugMemo, ChannelService, ChannelEntry, DebugState, AddressSubset, write_endpoint,
  update_endpoint_state, channel_state,
}
use svc_lb_mux.Debug.Updates.{channel_key, write_channel, update_channel, update_channels}

-- The last channel of the list with the key.
abbrev pub last_or : ServiceKey → ChannelService → Option ChannelService → Option ChannelService
last_or k c none = ite (ServiceKey-discrete (channel_key c) k) (some c) none
last_or k c (some d) = some d

abbrev pub last_with : ServiceKey → List ChannelService → Option ChannelService
last_with k [] = none
last_with k (c ∷ cs) = last_or k c (last_with k cs)

module _ (memo : DebugMemo) (mux_key : ServiceKey) (hostname ingress : Option Str) where
  -- The entry of the channel with the key, or what was there before.
  abbrev pub IsWritten : ServiceKey → Option ChannelService → DebugState → DebugState → Type 0
  IsWritten k none before after =
      get ServiceKey-discrete after.channel_services k
      ≡ get ServiceKey-discrete before.channel_services k
  IsWritten k (some c) before after =
      (entry : ChannelEntry) × (channel_state c mux_key hostname ingress ≡ ok entry)
      × (get ServiceKey-discrete after.channel_services k ≡ some entry)

  pub endpoint_channels :
      (key : ServiceKey) (state : DebugState)
      → (update_endpoint_state memo key key state).channel_services ≡ state.channel_services
  unfolding update_endpoint_state
  endpoint_channels key state = by_cache (get ServiceKey-discrete memo.endpoints key)
    where
      by_cache :
          (o : Option (List AddressSubset))
          → (write_endpoint key o state).channel_services ≡ state.channel_services
      by_cache none = refl
      by_cache (some subsets) = refl

  write_channel_ok :
      (key : ServiceKey) (r : Result ChannelEntry) (state after : DebugState)
      → write_channel key r state ≡ (ok tt, after)
      → (entry : ChannelEntry) × (r ≡ ok entry)
        × (after.channel_services ≡ put ServiceKey-discrete state.channel_services key entry)
  write_channel_ok key (err e) state after h = absurd (err-ne-ok (λ i. (h i).0))
  write_channel_ok key (ok entry) state after h = (entry, refl, λ i. ((sym h) i).1.channel_services)

  pub update_channel_ok :
      (c : ChannelService) (state after : DebugState)
      → update_channel memo mux_key hostname ingress c state ≡ (ok tt, after)
      → (entry : ChannelEntry) × (channel_state c mux_key hostname ingress ≡ ok entry)
        × (after.channel_services
            ≡ put ServiceKey-discrete state.channel_services (channel_key c) entry)
  unfolding update_channel
  update_channel_ok c state after h =
      let (entry, readable, written) = write_channel_ok (channel_key c) _ _ after h in
      (
        entry,
        readable,
        written
            ∙ ap (λ d. put ServiceKey-discrete d (channel_key c) entry)
                (endpoint_channels (channel_key c) state),
      )

  IsWritten-behind :
      (k : ServiceKey) (c : ChannelService) (o : Option ChannelService)
      (before between after : DebugState) (entry : ChannelEntry)
      → channel_state c mux_key hostname ingress ≡ ok entry
      → between.channel_services
        ≡ put ServiceKey-discrete before.channel_services (channel_key c) entry
      → IsWritten k o between after
      → IsWritten k (last_or k c o) before after
  IsWritten-behind k c (some d) before between after entry readable written later = later
  IsWritten-behind k c none before between after entry readable written later =
      elim (ServiceKey-discrete (channel_key c) k) [
        | yes e ↦ rw (if_pos (ServiceKey-discrete (channel_key c) k) e (some c) none) (
          entry,
          readable,
          later
              ∙ ap (λ d. get ServiceKey-discrete d k) written
              ∙ get-put ServiceKey-discrete before.channel_services (channel_key c) entry k
              ∙ if_pos (ServiceKey-discrete (channel_key c) k) e (some entry) _,
        )
        | no ne ↦ rw (if_neg (ServiceKey-discrete (channel_key c) k) ne (some c) none) (
            later
            ∙ ap (λ d. get ServiceKey-discrete d k) written
            ∙ get-put_ne ServiceKey-discrete before.channel_services (channel_key c) entry k ne)
      ]

  pub update_channels-IsWritten :
      (cs : List ChannelService) (state after : DebugState)
      → update_channels memo mux_key hostname ingress cs state ≡ (ok tt, after)
      → UniqueKeys state.channel_services
      → UniqueKeys after.channel_services
        × ((k : ServiceKey) → IsWritten k (last_with k cs) state after)
  unfolding update_channels
  update_channels-IsWritten [] state after h unique =
      let same : state.channel_services ≡ after.channel_services = λ i. (h i).1.channel_services in
      (subst UniqueKeys same unique, λ k. ap (λ d. get ServiceKey-discrete d k) (sym same))
  update_channels-IsWritten (c ∷ cs) state after h unique =
      let (done, between, first, rest) =
        continue_ok (update_channel memo mux_key hostname ingress c state) _ tt after h in
      let (entry, readable, written) = update_channel_ok c state between first in
      let (unique_after, each) = update_channels-IsWritten cs between after rest (
        subst UniqueKeys (sym written) (
          put-UniqueKeys ServiceKey-discrete state.channel_services (channel_key c) entry
            unique)) in
      (
        unique_after,
        λ k.
            IsWritten-behind k c (last_with k cs) state between after entry readable written
              (each k),
      )
