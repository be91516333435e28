-- ===== src/Debug/TopologyLaws.antt =====
-- What `topology` of `src/debug_state.py` shows.
use svc_lb_mux.Prelude.{
  Bool, true, false, Option, none, some, List, [], ◌∷◌, ◌++◌, if◌then◌else◌, Str, Str-discrete, ite,
  filter, map, ◌≡◌, subst, refl, sym, ap, ◌∙◌, append_assoc, append-nil,
}
use svc_lb_mux.Prelude.Dict.{Dict, values, get, put}
use svc_lb_mux.Prelude.Dict.Laws.{get-put_self, get-put_ne}
use svc_lb_mux.Reconcile.Endpoints.{ServiceKey, ServiceKey-discrete}
use svc_lb_mux.Debug.State.{MuxEntry, ChannelEntry, DebugState}
use svc_lb_mux.Debug.Topology.{
  ChannelView, MuxView, key_text, channel_view, topology_mux_entry, mux_of, entry_or_new,
  append_channel, add_channels, topology,
}

-- The test whether a channel belongs to the mux with the text.
abbrev pub is_under : Str → ChannelEntry → Bool
is_under text c = ite (Str-discrete (key_text (mux_of c)) text) true false

abbrev pub channels_shown : Option MuxView → List ChannelView
channels_shown none = []
channels_shown (some view) = view.channels

shown_after :
    (mux_services : Dict ServiceKey MuxEntry) (c : ChannelEntry) (o : Option MuxView)
    → (append_channel c (entry_or_new mux_services c o)).channels
      ≡ channels_shown o ++ channel_view c ∷ []
unfolding topology_mux_entry
shown_after mux_services c none = by_mux (get ServiceKey-discrete mux_services (mux_of c))
  where
    by_mux :
        (o : Option MuxEntry)
        → (append_channel c (topology_mux_entry o)).channels ≡ channel_view c ∷ []
    by_mux none = refl
    by_mux (some mux) = refl
shown_after mux_services c (some view) = refl

module _ (mux_services : Dict ServiceKey MuxEntry) where
  abbrev written_view : Dict Str MuxView → ChannelEntry → MuxView
  written_view views c =
      append_channel c (entry_or_new mux_services c (get Str-discrete views (key_text (mux_of c))))

  abbrev with_channel : Dict Str MuxView → ChannelEntry → Dict Str MuxView
  with_channel views c = put Str-discrete views (key_text (mux_of c)) (written_view views c)

  shown_under :
      (views : Dict Str MuxView) (c : ChannelEntry) (text : Str)
      → key_text (mux_of c) ≡ text
      → channels_shown (get Str-discrete (with_channel views c) text)
        ≡ channels_shown (get Str-discrete views text) ++ channel_view c ∷ []
  shown_under views c text e =
      subst
        (λ t.
          channels_shown (get Str-discrete (with_channel views c) t)
          ≡ channels_shown (get Str-discrete views t) ++ channel_view c ∷ [])
        e
        (ap channels_shown
            (get-put_self Str-discrete views (key_text (mux_of c)) (written_view views c))
          ∙ shown_after mux_services c (get Str-discrete views (key_text (mux_of c))))

  shown_step :
      (views : Dict Str MuxView) (c : ChannelEntry) (rest : List ChannelEntry) (text : Str)
      (d : Dec (key_text (mux_of c) ≡ text))
      → channels_shown (get Str-discrete (with_channel views c) text) ++ map channel_view rest
        ≡ channels_shown (get Str-discrete views text)
          ++ map channel_view (if ite d true false then c ∷ rest else rest)
  shown_step views c rest text (yes e) =
      ap (λ shown. shown ++ map channel_view rest) (shown_under views c text e)
      ∙ append_assoc (channels_shown (get Str-discrete views text)) (channel_view c ∷ [])
          (map channel_view rest)
  shown_step views c rest text (no ne) =
      ap (λ o. channels_shown o ++ map channel_view rest)
        (get-put_ne Str-discrete views (key_text (mux_of c)) (written_view views c) text ne)

  add_channels-shown :
      (views : Dict Str MuxView) (channels : List ChannelEntry) (text : Str)
      → channels_shown (get Str-discrete (add_channels mux_services views channels) text)
        ≡ channels_shown (get Str-discrete views text)
          ++ map channel_view (filter (is_under text) channels)
  unfolding add_channels
  add_channels-shown views [] text = sym (append-nil (channels_shown (get Str-discrete views text)))
  add_channels-shown views (c ∷ channels) text =
      add_channels-shown (with_channel views c) channels text
      ∙ shown_step views c (filter (is_under text) channels) text
          (Str-discrete (key_text (mux_of c)) text)

-- `topology` groups the channels by the text of their mux: under each text it shows exactly the
-- channels of the muxes with this text, in the order in which they are stored.
pub topology-grouped :
    (state : DebugState) (text : Str)
    → channels_shown (get Str-discrete (topology state) text)
      ≡ map channel_view (filter (is_under text) (values state.channel_services))
unfolding topology get
topology-grouped state text =
    add_channels-shown state.mux_services [] (values state.channel_services) text
