-- ===== src/Events/RecordLaws.antt =====
-- What `record_event` of `src/events.py` sends and caches.
use svc_lb_mux.Prelude.{
  ℕ, suc, ◌+◌, ◌≡◌, refl, sym, ap, ◌∙◌, Bool, true, false, Option, none, some, List, [], ◌∷◌, ◌++◌,
  if_pos, if_neg, length, arith, Str,
}
use svc_lb_mux.Prelude.Dict.{Dict, get, put}
use svc_lb_mux.Prelude.Dict.Laws.{get-put_self, none≢some}
use svc_lb_mux.Prelude.Dict.Unique.{put-UniqueKeys}
use svc_lb_mux.Events.CacheLaws.{IsCache, set_item-IsCache, get-set_item}
use svc_lb_mux.Events.CacheDict.{set_item}
use svc_lb_mux.Events.Record.{
  Body, Reference, EventObject, EventPatch, PatchOutcome, patched, not_found, patch_error, Server,
  Request, patch_request, create_request, EventKey, EventKey-discrete, EventCache, cache_len,
  Occurrence, event_key, event_object, count_of, Recorded, create_loop, create_attempts,
  after_create, create_event, after_patch, patch_of, send_event, record_occurrence, occurrence_of,
  record_event,
}

abbrev pub IsEventCache : EventCache → Type 0
IsEventCache = IsCache EventKey-discrete cache_len

module _ {K V : Type 0} (dec : Discrete K) where
  -- Writing to a key that is there changes no length.
  length-put :
      (d : Dict K V) (k : K) (v w : V) → get dec d k ≡ some w → length (put dec d k v) ≡ length d
  unfolding get put
  length-put [] k v w h = absurd (none≢some h)
  length-put ((j, u) ∷ d) k v w h = elim (dec j k) [
    | yes e ↦ ap length (if_pos (dec j k) e ((j, v) ∷ d) ((j, u) ∷ put dec d k v))
    | no ne ↦
        ap length (if_neg (dec j k) ne ((j, v) ∷ d) ((j, u) ∷ put dec d k v))
        ∙ ap suc (length-put d k v w (sym (if_neg (dec j k) ne (some u) (get dec d k)) ∙ h))
  ]

module _ (server : Server) where
  create-IsEventCache :
      (e : Occurrence) (sent : List Request) (cache : EventCache) (r : Bool × List Request)
      → IsEventCache cache
      → IsEventCache (after_create e sent cache r).cache
  create-IsEventCache e sent cache (true, requests) (bound, unique) =
      set_item-IsCache EventKey-discrete cache_len cache (event_key e) (event_object e) unique
  create-IsEventCache e sent cache (false, requests) h = h

  patch-IsEventCache :
      (e : Occurrence) (sent : List Request) (cache : EventCache) (event : EventObject)
      (outcome : PatchOutcome)
      → get EventKey-discrete cache (event_key e) ≡ some event
      → IsEventCache cache
      → IsEventCache (after_patch server e sent cache outcome).cache
  unfolding create_event
  patch-IsEventCache e sent cache event (patched now) found (bound, unique) = (
    omega (arith, length-put EventKey-discrete cache (event_key e) now event found, bound),
    put-UniqueKeys EventKey-discrete cache (event_key e) now unique,
  )
  patch-IsEventCache e sent cache event not_found found h =
      create-IsEventCache e sent cache (create_loop server (event_object e) create_attempts) h
  patch-IsEventCache e sent cache event patch_error found h =
      create-IsEventCache e sent cache (create_loop server (event_object e) create_attempts) h

  send-IsEventCache :
      (e : Occurrence) (cache : EventCache) (o : Option EventObject)
      → get EventKey-discrete cache (event_key e) ≡ o
      → IsEventCache cache
      → IsEventCache (send_event server e cache o).cache
  unfolding create_event
  send-IsEventCache e cache none found h =
      create-IsEventCache e [] cache (create_loop server (event_object e) create_attempts) h
  send-IsEventCache e cache (some event) found h =
      patch-IsEventCache e (patch_request event (patch_of e event) ∷ []) cache event
        (server.patch event (patch_of e event)) found h

  record-IsEventCache :
      (dryrun_mode : Bool) (e : Occurrence) (cache : EventCache)
      → IsEventCache cache
      → IsEventCache (record_occurrence dryrun_mode server e cache).cache
  record-IsEventCache true e cache h = h
  record-IsEventCache false e cache h =
      send-IsEventCache e cache (get EventKey-discrete cache (event_key e)) refl h

-- However the server answers, `record_event` keeps that the cache has at most 1024 events, each under
-- a key of its own.
pub record_event-IsEventCache :
    (dryrun_mode : Bool) (server : Server) (build_object_reference : Body → Reference) (body : Body)
    (event_type reason message : Str) (action field_path : Option Str) (timestamp : Str)
    (cache : EventCache)
    → IsEventCache cache
    → IsEventCache
        (record_event dryrun_mode server build_object_reference body event_type reason message
          action field_path timestamp cache).cache
unfolding record_event
record_event-IsEventCache dryrun_mode server build body event_type reason message action field_path
      timestamp cache h =
    record-IsEventCache server dryrun_mode
      (occurrence_of build body event_type reason message action field_path timestamp) cache h

-- A server that takes each request: a patch merges into the event, and the first attempt creates.
abbrev pub IsAccepting : Server → Type 0
IsAccepting server =
    ((event : EventObject) (p : EventPatch)
      → server.patch event p
        ≡ patched (record event { count = some p.count; last_timestamp = p.last_timestamp }))
    × ((event : EventObject) → server.create 1 event ≡ true)

-- The numbers of events created and patched.
abbrev pub creations : List Request → ℕ
creations [] = 0
creations (create_request event ∷ requests) = suc (creations requests)
creations (patch_request event p ∷ requests) = creations requests

abbrev pub patches : List Request → ℕ
patches [] = 0
patches (create_request event ∷ requests) = patches requests
patches (patch_request event p ∷ requests) = suc (patches requests)

-- Recording at one time after the other: the requests of all calls, and the cache behind them.
abbrev pub record_each :
    (Str → EventCache → Recorded) → List Str → EventCache → List Request × EventCache
record_each record_at [] cache = ([], cache)
record_each record_at (timestamp ∷ timestamps) cache =
    let now = record_at timestamp cache in
    let later = record_each record_at timestamps now.cache in (now.requests ++ later.0, later.1)

-- The requests of recording an event again and again, and its count in the cache.
abbrev pub IsPatched : ℕ → ℕ → ℕ → EventKey → List Request × EventCache → Type 0
IsPatched created patched_times count key (requests, cache) =
    (creations requests ≡ created)
    × (patches requests ≡ patched_times)
    × (event : EventObject) × (get EventKey-discrete cache key ≡ some event)
    × (count_of event ≡ count)

module _ (server : Server) (accepting : IsAccepting server) (at_time : Str → Occurrence)
    (key : EventKey) (same : (t : Str) → event_key (at_time t) ≡ key) where
  abbrev record_now : Str → EventCache → Recorded
  record_now t cache = record_occurrence false server (at_time t) cache

  cached_now :
      (t : Str) (cache : EventCache) (event : EventObject)
      → get EventKey-discrete cache key ≡ some event
      → (now : EventObject) × (get EventKey-discrete (record_now t cache).cache key ≡ some now)
        × (count_of now ≡ count_of event + 1)
        × ((record_now t cache).requests ≡ patch_request event (patch_of (at_time t) event) ∷ [])
  cached_now t cache event found =
      let e = at_time t in
      let p = patch_of e event in
      let now : EventObject = record event {
        count = some p.count;
        last_timestamp = p.last_timestamp;
      } in
      let merged = after_patch server e (patch_request event p ∷ []) cache (patched now) in
      let run : record_now t cache ≡ merged =
        ap (send_event server e cache) (ap (get EventKey-discrete cache) (same t) ∙ found)
        ∙ ap (after_patch server e (patch_request event p ∷ []) cache) (accepting.0 event p) in
      (
        now,
        ap (λ r. get EventKey-discrete r.cache key) run
            ∙ ap (λ k. get EventKey-discrete (put EventKey-discrete cache k now) key) (same t)
            ∙ get-put_self EventKey-discrete cache key now,
        refl,
        ap (λ r. r.requests) run,
      )

  IsPatched-each :
      (ts : List Str) (cache : EventCache) (event : EventObject)
      → get EventKey-discrete cache key ≡ some event
      → IsPatched 0 (length ts) (count_of event + length ts) key (record_each record_now ts cache)
  IsPatched-each [] cache event found = (refl, refl, event, found, omega arith)
  IsPatched-each (t ∷ ts) cache event found =
      let (now, there, count, sent) = cached_now t cache event found in
      let (created, again, last, kept, total) =
        IsPatched-each ts (record_now t cache).cache now there in
      (rw sent created, rw sent (ap suc again), last, kept, omega (arith, total, count))

  created_now :
      (t : Str) (cache : EventCache)
      → get EventKey-discrete cache key ≡ none
      → (get EventKey-discrete (record_now t cache).cache key ≡ some (event_object (at_time t)))
        × ((record_now t cache).requests ≡ create_request (event_object (at_time t)) ∷ [])
  unfolding create_event create_loop
  created_now t cache missing =
      let e = at_time t in
      let event = event_object e in
      let created = after_create e [] cache (true, create_request event ∷ []) in
      let loop : create_loop server event create_attempts ≡ (true, create_request event ∷ []) =
        rw (accepting.1 event) refl in
      let run : record_now t cache ≡ created =
        ap (send_event server e cache) (ap (get EventKey-discrete cache) (same t) ∙ missing)
        ∙ ap (after_create e [] cache) loop in
      (
        ap (λ r. get EventKey-discrete r.cache key) run
            ∙ ap
                (λ k.
                  get EventKey-discrete (set_item EventKey-discrete cache_len cache k event) key)
                (same t)
            ∙ get-set_item EventKey-discrete cache_len cache key event (omega arith),
        ap (λ r. r.requests) run,
      )

  recorded_each :
      (t : Str) (ts : List Str) (cache : EventCache)
      → get EventKey-discrete cache key ≡ none
      → IsPatched 1 (length ts) (length ts + 1) key (record_each record_now (t ∷ ts) cache)
  recorded_each t ts cache missing =
      let (there, sent) = created_now t cache missing in
      let (created, again, last, kept, total) =
        IsPatched-each ts (record_now t cache).cache (event_object (at_time t)) there in
      (rw sent (ap suc created), rw sent again, last, kept, omega (arith, total))

-- On a server that accepts each request, an event that is not in the cache and is recorded several
-- times in a row is created once, by the first call; each later call patches it, and the cached
-- event counts all of the calls.
pub record_event-IsPatched :
    (server : Server) (build_object_reference : Body → Reference) (body : Body)
    (event_type reason message : Str) (action field_path : Option Str) (t : Str) (ts : List Str)
    (cache : EventCache)
    → IsAccepting server
    → let record_at =
        record_event false server build_object_reference body event_type reason message action
          field_path in
      let key =
        event_key (
          occurrence_of build_object_reference body event_type reason message action field_path
            t) in
      get EventKey-discrete cache key ≡ none
      → IsPatched 1 (length ts) (length ts + 1) key (record_each record_at (t ∷ ts) cache)
unfolding record_event
record_event-IsPatched server build body event_type reason message action field_path t ts cache
      accepting missing =
    let at_time = occurrence_of build body event_type reason message action field_path in
    recorded_each server accepting at_time (event_key (at_time t)) (λ u. refl) t ts cache missing
