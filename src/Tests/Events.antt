-- ===== src/Tests/Events.antt =====
-- Tests of the events of the Kubernetes API.
use svc_lb_mux.Prelude.{
  ◌<◌, ℕ, ◌≡◌, refl, true, false, none, some, [], ◌∷◌, ◌++◌, arith, Str, codes, length,
}
use svc_lb_mux.Prelude.Dict.{Dict, put, get, remove}
use svc_lb_mux.Events.CacheDict.{set_item, eject_loop, move_to_end}
use svc_lb_mux.Events.CacheLaws.{newest, set_item-newest}
use svc_lb_mux.Events.Record.{
  Body, Reference, Server, patched, EventKey, EventKey-discrete, EventCache, event_key,
  occurrence_of, record_event, Recorded,
}
use svc_lb_mux.Events.RecordLaws.{
  IsEventCache, IsAccepting, IsPatched, record_each, record_event-IsEventCache,
  record_event-IsPatched,
}

abbrev accepting_server : Server
accepting_server = record {
  patch =
      λ event p. patched (record event { count = some p.count; last_timestamp = p.last_timestamp });
  create = λ n event. true;
}

-- each attempt to create fails
abbrev refusing_server : Server
refusing_server = record accepting_server { create = λ n event. false }

abbrev body_one : Body
body_one = record { namespace = codes "n"; name = codes "w" }

abbrev reference_to : Body → Reference
reference_to body = record { uid = body.name; field_path = none }

abbrev record_one : Server → Str → EventCache → Recorded
record_one server timestamp cache =
    record_event false server reference_to body_one (codes "Normal") (codes "Made") (codes "made ")
      none none timestamp cache

-- three failed attempts leave nothing in the cache and nothing for the debug page
three_attempts :
    (length (record_one refusing_server (codes "t") []).requests ≡ 3)
    × ((record_one refusing_server (codes "t") []).cache ≡ [])
    × ((record_one refusing_server (codes "t") []).shown ≡ none)
unfolding record_event get
three_attempts = (refl, refl, refl)

record_event-IsEventCache_example : IsEventCache (record_one accepting_server (codes "t") []).cache
record_event-IsEventCache_example =
    record_event-IsEventCache false accepting_server reference_to body_one (codes "Normal")
      (codes "Made") (codes "made ") none none (codes "t") [] (omega arith, tt)

accepting : IsAccepting accepting_server
accepting = (λ event p. refl, λ event. refl)

record_event-IsPatched_example :
    IsPatched 1 2 3
      (event_key (
        occurrence_of reference_to body_one
          (codes "Normal")
          (codes "Made")
          (codes "made ")
          none
          none
          (codes "t")))
      (record_each
        (record_event false accepting_server reference_to body_one
          (codes "Normal")
          (codes "Made")
          (codes "made ")
          none
          none)
        (codes "t" ∷ codes "u" ∷ codes "v" ∷ [])
        [])
record_event-IsPatched_example =
    record_event-IsPatched accepting_server reference_to body_one (codes "Normal") (codes "Made")
      (codes "made ") none none (codes "t") (codes "u" ∷ codes "v" ∷ []) [] accepting
      (unfold get in refl)

abbrev one_entry : Dict EventKey ℕ
one_entry = (([], [], [], [], codes "a"), 1) ∷ []

abbrev key_one : EventKey
key_one = event_key (occurrence_of reference_to body_one [] [] [] none none [])

set_item-newest_example :
    (set_item EventKey-discrete 2 one_entry key_one 7
      ≡ newest 2 (remove EventKey-discrete one_entry key_one ++ (key_one, 7) ∷ []))
    × ((rounds : ℕ)
        → 2 < rounds
        → eject_loop rounds 2
            (move_to_end EventKey-discrete (put EventKey-discrete one_entry key_one 7) key_one)
          ≡ some (set_item EventKey-discrete 2 one_entry key_one 7))
set_item-newest_example = set_item-newest EventKey-discrete 2 one_entry key_one 7
