-- ===== src/Debug/UpdateLaws.antt =====
-- What `update_mux_state` of `src/debug_state.py` leaves in the state.
use svc_lb_mux.Prelude.{
  Bool, true, false, ◌&&◌, not, Option, none, some, List, [], ◌∷◌, ite, map, ok, ◌≡◌, refl, sym,
  subst, ap, ◌∙◌, continue_ok,
}
use svc_lb_mux.Prelude.Dict.{Dict, member, get}
use svc_lb_mux.Prelude.Dict.Laws.{get-put_self}
use svc_lb_mux.Prelude.Dict.Unique.{UniqueKeys}
use svc_lb_mux.Prelude.Dict.Drop.{kept, get-remove_filter}
use svc_lb_mux.Reconcile.Endpoints.{ServiceKey, ServiceKey-discrete}
use svc_lb_mux.Debug.State.{
  DebugMemo, MuxServiceData, ChannelService, MuxEntry, ChannelEntry, DebugState, AddressSubset,
  write_endpoint, mux_entry, update_endpoint_state, update_mux_service, channel_state,
}
use svc_lb_mux.Debug.Updates.{
  is_of_mux, remove_channels, channel_key, update_channels, stale_channels, channel_set_of,
  update_mux_channels, update_mux_state,
}
use svc_lb_mux.Debug.DeleteLaws.{elsewhere}
use svc_lb_mux.Debug.ChannelLaws.{
  last_or, last_with, IsWritten, endpoint_channels, update_channels-IsWritten,
}

abbrev is_found : Option ChannelService → Bool
is_found none = false
is_found (some c) = true

member-channel_keys :
    (k : ServiceKey) (cs : List ChannelService)
    → member ServiceKey-discrete k (map channel_key cs) ≡ is_found (last_with k cs)
unfolding member
member-channel_keys k [] = refl
member-channel_keys k (c ∷ cs) = rw (member-channel_keys k cs) (by_rest (last_with k cs))
  where
    by_key : (q : Dec (channel_key c ≡ k)) → ite q true false ≡ is_found (ite q (some c) none)
    by_key (yes e) = refl
    by_key (no ne) = refl

    always : (q : Dec (channel_key c ≡ k)) → ite q true true ≡ true
    always (yes e) = refl
    always (no ne) = refl

    by_rest :
        (o : Option ChannelService)
        → ite (ServiceKey-discrete (channel_key c) k) true (is_found o) ≡ is_found (last_or k c o)
    by_rest none = by_key (ServiceKey-discrete (channel_key c) k)
    by_rest (some d) = always (ServiceKey-discrete (channel_key c) k)

-- What the page shows under a key of a channel after the update: the entry of the last channel of the
-- set with the key, computed with what the mux's own entry says; without one, an entry of another mux.
abbrev pub IsUpdated :
    MuxEntry → ServiceKey → ServiceKey → Option ChannelService → DebugState → DebugState → Type 0
IsUpdated mux mux_key k none before after =
    get ServiceKey-discrete after.channel_services k
    ≡ elsewhere mux_key (get ServiceKey-discrete before.channel_services k)
IsUpdated mux mux_key k (some c) before after =
    (entry : ChannelEntry) × (channel_state c mux_key mux.external_dns_hostname mux.status_ingress
      ≡ ok entry)
    × (get ServiceKey-discrete after.channel_services k ≡ some entry)

module _ (mux_key : ServiceKey) (current : List ServiceKey) where
  abbrev is_stale : ServiceKey × ChannelEntry → Bool
  is_stale e = is_of_mux mux_key e.1 && not (member ServiceKey-discrete e.0 current)

  and_false : (b : Bool) → (b && false) ≡ false
  and_false true = refl
  and_false false = refl

  and_true : (b : Bool) → (b && true) ≡ b
  and_true true = refl
  and_true false = refl

  kept_current :
      (k : ServiceKey) (o : Option ChannelEntry)
      → member ServiceKey-discrete k current ≡ true
      → kept ServiceKey-discrete is_stale k o ≡ o
  kept_current k none h = refl
  kept_current k (some entry) h = rw (h, and_false (is_of_mux mux_key entry)) refl

  kept_other :
      (k : ServiceKey) (o : Option ChannelEntry)
      → member ServiceKey-discrete k current ≡ false
      → kept ServiceKey-discrete is_stale k o ≡ elsewhere mux_key o
  kept_other k none h = refl
  kept_other k (some entry) h = rw (h, and_true (is_of_mux mux_key entry)) refl

module _ (memo : DebugMemo) (mux_key : ServiceKey) (mux : MuxEntry) (cs : List ChannelService) where
  -- Dropping what is stale after the loop.
  drop-IsUpdated :
      (k : ServiceKey) (o : Option ChannelService) (before written : DebugState)
      → last_with k cs ≡ o
      → UniqueKeys written.channel_services
      → IsWritten memo mux_key mux.external_dns_hostname mux.status_ingress k o before written
      → IsUpdated mux mux_key k o before
          (remove_channels (stale_channels mux_key (map channel_key cs) written) written)
  drop-IsUpdated k none before written last unique same =
      let current = map channel_key cs in
      get-remove_filter ServiceKey-discrete (is_stale mux_key current) written.channel_services k
        unique
      ∙ kept_other mux_key current k _ (member-channel_keys k cs ∙ ap is_found last)
      ∙ ap (elsewhere mux_key) same
  drop-IsUpdated k (some c) before written last unique (entry, readable, there) =
      let current = map channel_key cs in
      (
        entry,
        readable,
        get-remove_filter ServiceKey-discrete (is_stale mux_key current) written.channel_services k
              unique
            ∙ kept_current mux_key current k _ (member-channel_keys k cs ∙ ap is_found last)
            ∙ there,
      )

mux_of_endpoint :
    (memo : DebugMemo) (key : ServiceKey) (state : DebugState)
    → (update_endpoint_state memo key key state).mux_services ≡ state.mux_services
unfolding update_endpoint_state
mux_of_endpoint memo key state = by_cache (get ServiceKey-discrete memo.endpoints key)
  where
    by_cache :
        (o : Option (List AddressSubset))
        → (write_endpoint key o state).mux_services ≡ state.mux_services
    by_cache none = refl
    by_cache (some subsets) = refl

mux_after :
    (memo : DebugMemo) (mux_key : ServiceKey) (service : Option MuxServiceData) (state : DebugState)
    → get ServiceKey-discrete
        (update_endpoint_state memo mux_key mux_key
          (update_mux_service memo mux_key service state)).mux_services
        mux_key
      ≡ some (mux_entry memo mux_key service)
unfolding update_mux_service
mux_after memo mux_key service state =
    ap (λ d. get ServiceKey-discrete d mux_key) (mux_of_endpoint memo mux_key _)
    ∙ get-put_self ServiceKey-discrete state.mux_services mux_key (mux_entry memo mux_key service)

channels_after :
    (memo : DebugMemo) (mux_key : ServiceKey) (service : Option MuxServiceData) (state : DebugState)
    → (update_endpoint_state memo mux_key mux_key
        (update_mux_service memo mux_key service state)).channel_services
      ≡ state.channel_services
unfolding update_mux_service
channels_after memo mux_key service state = endpoint_channels memo mux_key none none mux_key _

IsUpdated-before :
    (mux : MuxEntry) (mux_key k : ServiceKey) (o : Option ChannelService)
    (before start after : DebugState)
    → start.channel_services ≡ before.channel_services
    → IsUpdated mux mux_key k o start after
    → IsUpdated mux mux_key k o before after
IsUpdated-before mux mux_key k none before start after same h =
    h ∙ ap (λ d. elsewhere mux_key (get ServiceKey-discrete d k)) same
IsUpdated-before mux mux_key k (some c) before start after same h = h

-- If `update_mux_state` returns, the page shows the channels of the mux as they are in its set: under
-- each key, the entry of the last channel with the key; the entries of other muxes stay as they
-- were, and other entries of the mux are gone. The keys of the channels are unique before.
pub update_mux_state-IsUpdated :
    (memo : DebugMemo) (mux_channels : Dict ServiceKey (List ChannelService)) (mux_key : ServiceKey)
    (service : Option MuxServiceData) (state after : DebugState)
    → UniqueKeys state.channel_services
    → update_mux_state memo mux_channels mux_key service state ≡ (ok tt, after)
    → (k : ServiceKey)
    → IsUpdated
        (mux_entry memo mux_key service)
        mux_key
        k
        (last_with k (channel_set_of (get ServiceKey-discrete mux_channels mux_key)))
        state
        after
unfolding update_mux_state update_mux_channels
update_mux_state-IsUpdated memo mux_channels mux_key service state after unique h k =
    let cs = channel_set_of (get ServiceKey-discrete mux_channels mux_key) in
    let mux = mux_entry memo mux_key service in
    let start =
      update_endpoint_state memo mux_key mux_key (update_mux_service memo mux_key service state) in
    let same = channels_after memo mux_key service state in
    let (_, written, ran, rest) =
      continue_ok
        (update_channels memo mux_key mux.external_dns_hostname mux.status_ingress cs start) _ tt
        after (rw (mux_after memo mux_key service state) at h) in
    let (unique_written, each) =
      update_channels-IsWritten memo mux_key mux.external_dns_hostname mux.status_ingress cs start
        written ran (subst UniqueKeys (sym same) unique) in
    subst (IsUpdated mux mux_key k (last_with k cs) state) (λ i. (rest i).1)
      (IsUpdated-before mux mux_key k (last_with k cs) state start _ same (
        drop-IsUpdated memo mux_key mux cs k (last_with k cs) start written refl unique_written
          (each k)))
