-- ===== src/Debug/DeleteLaws.antt =====
-- What `delete_mux_state` of `src/debug_state.py` leaves in the state.
use svc_lb_mux.Prelude.{Bool, false, Option, none, some, ite, ◌≡◌, refl, ◌∙◌, if◌then◌else◌}
use svc_lb_mux.Prelude.Dict.{get, remove}
use svc_lb_mux.Prelude.Dict.Laws.{get-remove, get-remove_all}
use svc_lb_mux.Prelude.Dict.Unique.{UniqueKeys}
use svc_lb_mux.Prelude.Dict.Drop.{kept, passes, get-remove_filter, member-keys-filter}
use svc_lb_mux.Reconcile.Endpoints.{ServiceKey, ServiceKey-discrete}
use svc_lb_mux.Debug.State.{ChannelEntry, DebugState}
use svc_lb_mux.Debug.Updates.{is_of_mux, channels_of, delete_mux_state}

-- The entry of another mux's channel.
abbrev pub elsewhere : ServiceKey → Option ChannelEntry → Option ChannelEntry
elsewhere mux_key none = none
elsewhere mux_key (some entry) = if is_of_mux mux_key entry then none else some entry

-- Whether the entry is a channel of the mux.
abbrev pub is_channel_of : ServiceKey → Option ChannelEntry → Bool
is_channel_of mux_key none = false
is_channel_of mux_key (some entry) = is_of_mux mux_key entry

-- The state without the mux, its channels and their endpoints, everything else unchanged.
abbrev pub IsDeleted : ServiceKey → DebugState → DebugState → Type 0
IsDeleted mux_key before after =
    (k : ServiceKey)
    → (get ServiceKey-discrete after.mux_services k
        ≡ ite (ServiceKey-discrete mux_key k) none (get ServiceKey-discrete before.mux_services k))
      × (get ServiceKey-discrete after.channel_services k
          ≡ elsewhere mux_key (get ServiceKey-discrete before.channel_services k))
      × (get ServiceKey-discrete after.endpoints k ≡ (
          if is_channel_of mux_key (get ServiceKey-discrete before.channel_services k)
          then none
          else ite (ServiceKey-discrete mux_key k) none
              (get ServiceKey-discrete before.endpoints k)))

kept-elsewhere :
    (mux_key k : ServiceKey) (o : Option ChannelEntry)
    → kept ServiceKey-discrete (λ e. is_of_mux mux_key e.1) k o ≡ elsewhere mux_key o
kept-elsewhere mux_key k none = refl
kept-elsewhere mux_key k (some entry) = refl

passes-is_channel_of :
    (mux_key k : ServiceKey) (o : Option ChannelEntry)
    → passes ServiceKey-discrete (λ e. is_of_mux mux_key e.1) k o ≡ is_channel_of mux_key o
passes-is_channel_of mux_key k none = refl
passes-is_channel_of mux_key k (some entry) = refl

-- `delete_mux_state` removes the mux, each channel that belongs to it and the endpoints of these, and
-- keeps everything else, where the keys of the channels are unique.
pub delete_mux_state-IsDeleted :
    (mux_key : ServiceKey) (state : DebugState)
    → UniqueKeys state.channel_services
    → IsDeleted mux_key state (delete_mux_state mux_key state)
unfolding delete_mux_state
delete_mux_state-IsDeleted mux_key state unique k = (
  get-remove ServiceKey-discrete state.mux_services mux_key k,
  get-remove_filter ServiceKey-discrete (λ e. is_of_mux mux_key e.1) state.channel_services k unique
      ∙ kept-elsewhere mux_key k (get ServiceKey-discrete state.channel_services k),
  rw (
    get-remove_all ServiceKey-discrete (remove ServiceKey-discrete state.endpoints mux_key)
        (channels_of mux_key state) k,
    member-keys-filter ServiceKey-discrete (λ e. is_of_mux mux_key e.1) state.channel_services k
        unique,
    passes-is_channel_of mux_key k (get ServiceKey-discrete state.channel_services k),
    get-remove ServiceKey-discrete state.endpoints mux_key k,
  ),
)
