-- ===== src/Debug/UpdateErrors.antt =====
-- When `update_mux_state` of `src/debug_state.py` raises.
use svc_lb_mux.Prelude.{
  Option, List, [], ◌∷◌, Str, Result, ok, err, ◌≡◌, ◌↔◌, refl, sym, ◌∙◌, All, continue, continue_ok,
  ◌>>=◌, >>=-eq-ok, ℤ,
}
use svc_lb_mux.Prelude.Dict.{Dict, get}
use svc_lb_mux.Model.{annotation_of, annotation_ports}
use svc_lb_mux.Reconcile.Endpoints.{ServiceKey, ServiceKey-discrete}
use svc_lb_mux.Debug.Ports.{parse_mux_port_annotation}
use svc_lb_mux.Debug.State.{
  DebugMemo, MuxServiceData, ChannelService, ChannelEntry, DebugState, channel_state,
  update_endpoint_state, update_mux_service,
}
use svc_lb_mux.Debug.Updates.{
  update_channel, update_channels, hostname_of, ingress_of, channel_set_of, update_mux_channels,
  update_mux_state, remove_channels,
}
use svc_lb_mux.Debug.ChannelLaws.{update_channel_ok}

-- The annotation of the channel's ports can be read.
abbrev pub IsReadable : ChannelService → Type 0
IsReadable c =
    (ports : Dict Str ℤ) × (parse_mux_port_annotation
        (annotation_of c.channel.annotations annotation_ports)
      ≡ ok ports)

-- A call that returns, and behind it a rest that always returns.
returns_on :
    {X Y : Type 0} (call : Result X) (rest : X → Result Y)
    → ((x : X) → (y : Y) × (rest x ≡ ok y))
    → (x : X) × (call ≡ ok x)
    → (y : Y) × ((call >>= rest) ≡ ok y)
returns_on (ok value) rest returns h = returns value
returns_on (err e) rest returns (x, h) = cc

module _ (memo : DebugMemo) (mux_key : ServiceKey) (hostname ingress : Option Str) where
  channel_state-IsReadable :
      (c : ChannelService) (entry : ChannelEntry)
      → channel_state c mux_key hostname ingress ≡ ok entry
      → IsReadable c
  unfolding channel_state
  channel_state-IsReadable c entry h =
      let (ports, readable, _) = >>=-eq-ok _ _ h in (ports, readable)

  IsReadable-channel_state :
      (c : ChannelService)
      → IsReadable c
      → (entry : ChannelEntry) × (channel_state c mux_key hostname ingress ≡ ok entry)
  unfolding channel_state
  IsReadable-channel_state c h = returns_on _ _ (λ ports. (_, refl)) h

  update_channels-IsReadable :
      (cs : List ChannelService) (state : DebugState)
      → (update_channels memo mux_key hostname ingress cs state).0 ≡ ok tt
      → All IsReadable cs
  unfolding update_channels
  update_channels-IsReadable [] state h = tt
  update_channels-IsReadable (c ∷ cs) state h =
      let (_, between, first, rest) =
        continue_ok (update_channel memo mux_key hostname ingress c state) _ tt
          (update_channels memo mux_key hostname ingress (c ∷ cs) state).1
          (λ i. (h i, (update_channels memo mux_key hostname ingress (c ∷ cs) state).1)) in
      let (entry, readable, _) =
        update_channel_ok memo mux_key hostname ingress c state between first in
      (
        channel_state-IsReadable c entry readable,
        update_channels-IsReadable cs between (λ i. (rest i).0),
      )

  IsReadable-update_channels :
      (cs : List ChannelService) (state : DebugState)
      → All IsReadable cs
      → (update_channels memo mux_key hostname ingress cs state).0 ≡ ok tt
  unfolding update_channels update_channel
  IsReadable-update_channels [] state h = refl
  IsReadable-update_channels (c ∷ cs) state (readable, h) =
      let (entry, e) = IsReadable-channel_state c readable in
      rw e (IsReadable-update_channels cs _ h)

continue_last :
    {S : Type 0} (r : Result (Unit {0}) × S) (f : S → S)
    → (continue r (λ _ s. (ok tt, f s))).0 ≡ r.0
continue_last (ok tt, s) f = refl
continue_last (err e, s) f = refl

-- `update_mux_state` returns if and only if it can read the annotation of the ports of each channel
-- of the mux: one annotation that it cannot read makes it raise.
pub update_mux_state_ok :
    (memo : DebugMemo) (mux_channels : Dict ServiceKey (List ChannelService)) (mux_key : ServiceKey)
    (service : Option MuxServiceData) (state : DebugState)
    → ((update_mux_state memo mux_channels mux_key service state).0 ≡ ok tt)
      ↔ All IsReadable (channel_set_of (get ServiceKey-discrete mux_channels mux_key))
unfolding update_mux_state update_mux_channels
update_mux_state_ok memo mux_channels mux_key service state =
    let start =
      update_endpoint_state memo mux_key mux_key (update_mux_service memo mux_key service state) in
    let mux = get ServiceKey-discrete start.mux_services mux_key in
    let cs = channel_set_of (get ServiceKey-discrete mux_channels mux_key) in
    let run = update_channels memo mux_key (hostname_of mux) (ingress_of mux) cs start in
    let last = continue_last run (λ s. remove_channels _ s) in
    (
      λ h.
          update_channels-IsReadable memo mux_key (hostname_of mux) (ingress_of mux) cs start
            (sym last ∙ h),
      λ h.
          last
          ∙ IsReadable-update_channels memo mux_key (hostname_of mux) (ingress_of mux) cs start h,
    )
