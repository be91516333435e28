-- ===== src/Events/Record.antt =====
-- `record_event` of `src/events.py`. The API server and kopf's reference to an object are parameters;
-- a call of the server is a value of `Request` in the order of the calls.
use svc_lb_mux.Prelude.{
  ℕ, ◌+◌, Bool, true, false, Option, none, some, List, [], ◌∷◌, ◌++◌, ◌==◌, if◌then◌else◌, Str,
  codes, strip, ℕ_discrete,
}
use svc_lb_mux.Prelude.Dict.{Dict, get, put}
use svc_lb_mux.Model.{or_blank}
use svc_lb_mux.Events.CacheDict.{set_item}

-- The object that an event is about, as the program reads it, and kopf's reference to it.
pub record Body : Type 0 where
  pub namespace : Str
  pub name : Str

pub record Reference : Type 0 where
  pub uid : Str
  pub field_path : Option Str

pub record EventObject : Type 0 where
  pub name : Str
  pub namespace : Str
  pub involved_object : Reference
  pub reason : Str
  pub message : Str
  pub event_type : Str
  pub action : Option Str
  pub count : Option ℕ
  pub first_timestamp : Str
  pub last_timestamp : Str

-- The patch of an event that happened again.
pub record EventPatch : Type 0 where
  pub count : ℕ
  pub last_timestamp : Str

pub data PatchOutcome : Type 0 where
  -- the object as the server has it now
  patched : EventObject → PatchOutcome
  not_found patch_error : PatchOutcome

-- The API server: what a patch gives, and whether the attempt with a number to create succeeds.
pub record Server : Type 0 where
  pub patch : EventObject → EventPatch → PatchOutcome
  pub create : ℕ → EventObject → Bool

pub data Request : Type 0 where
  patch_request : EventObject → EventPatch → Request
  create_request : EventObject → Request

-- The identifier, the type, the reason, the message and the action.
abbrev pub EventKey : Type 0
EventKey = Str × Str × Str × Str × Str

unfoldable pub EventKey-discrete : Discrete EventKey
unfolding ℕ_discrete
EventKey-discrete = hlevel ℕ_discrete

abbrev pub EventCache : Type 0
EventCache = Dict EventKey EventObject

abbrev pub cache_len : ℕ
cache_len = 1024

-- An event that is to be recorded, with its reason and message stripped.
pub record Occurrence : Type 0 where
  pub body : Body
  pub ref : Reference
  pub event_type : Str
  pub reason : Str
  pub message : Str
  pub action : Option Str
  pub timestamp : Str

abbrev pub event_key : Occurrence → EventKey
event_key e = (e.ref.uid, e.event_type, e.reason, e.message, or_blank e.action)

-- The new Event; it has no count.
abbrev pub event_object : Occurrence → EventObject
event_object e = record {
  name = e.body.name ++ b'-' ∷ (e.reason ++ b'.' ∷ e.timestamp);
  namespace = e.body.namespace;
  involved_object = e.ref;
  reason = e.reason;
  message = e.message;
  event_type = e.event_type;
  action = e.action;
  count = none;
  first_timestamp = e.timestamp;
  last_timestamp = e.timestamp;
}

-- `cached_event.raw.get("count", 1)`
abbrev pub count_of : EventObject → ℕ
count_of event = elim event.count [ none ↦ 1 | some n ↦ n ]

-- What `record_event` calls and leaves: the requests, the cache, and what it passes to the debug page.
pub record Recorded : Type 0 where
  pub requests : List Request
  pub cache : EventCache
  pub shown : Option (Str × Str × Str)

-- The last step: the type, the resource and the text for the debug page.
abbrev pub shown_of : Occurrence → Option (Str × Str × Str)
shown_of e =
    some (e.event_type, e.body.namespace ++ b'/' ∷ e.body.name, e.reason ++ codes ": " ++ e.message)

-- The attempts to create, and whether one succeeded.
unfoldable pub create_loop : Server → EventObject → List ℕ → Bool × List Request
create_loop server event [] = (false, [])
create_loop server event (attempt ∷ attempts) =
    let rest = create_loop server event attempts in
    if server.create attempt event
    then (true, create_request event ∷ [])
    else if attempt == 3
    then (false, create_request event ∷ [])
    else (rest.0, create_request event ∷ rest.1)

-- `range(1, 4)`
abbrev pub create_attempts : List ℕ
create_attempts = 1 ∷ 2 ∷ 3 ∷ []

abbrev pub after_create : Occurrence → List Request → EventCache → Bool × List Request → Recorded
after_create e sent cache (created, requests) =
    if created
    then record {
      requests = sent ++ requests;
      cache = set_item EventKey-discrete cache_len cache (event_key e) (event_object e);
      shown = shown_of e;
    }
    else record { requests = sent ++ requests; cache = cache; shown = none }

-- Creating a new event behind the requests sent.
unfoldable pub create_event : Server → Occurrence → List Request → EventCache → Recorded
unfolding create_loop
create_event server e sent cache =
    after_create e sent cache (create_loop server (event_object e) create_attempts)

-- What follows the patch of the cached event, which the cache shares.
abbrev pub after_patch : Server → Occurrence → List Request → EventCache → PatchOutcome → Recorded
after_patch server e sent cache (patched event) = record {
  requests = sent;
  cache = put EventKey-discrete cache (event_key e) event;
  shown = shown_of e;
}
after_patch server e sent cache not_found = create_event server e sent cache
after_patch server e sent cache patch_error = create_event server e sent cache

abbrev pub patch_of : Occurrence → EventObject → EventPatch
patch_of e event = record { count = count_of event + 1; last_timestamp = e.timestamp }

abbrev pub send_event : Server → Occurrence → EventCache → Option EventObject → Recorded
send_event server e cache none = create_event server e [] cache
send_event server e cache (some event) =
    after_patch server e (patch_request event (patch_of e event) ∷ []) cache
      (server.patch event (patch_of e event))

abbrev pub record_occurrence : Bool → Server → Occurrence → EventCache → Recorded
record_occurrence dryrun_mode server e cache =
    if dryrun_mode
    then record { requests = []; cache = cache; shown = shown_of e }
    else send_event server e cache (get EventKey-discrete cache (event_key e))

-- `ref["fieldPath"] = fieldPath`, if there is one
abbrev pub with_field_path : Option Str → Reference → Reference
with_field_path none ref = ref
with_field_path (some []) ref = ref
with_field_path (some (c ∷ path)) ref = record ref { field_path = some (c ∷ path) }

abbrev pub occurrence_of :
    (Body → Reference) → Body → Str → Str → Str → Option Str → Option Str → Str → Occurrence
occurrence_of build_object_reference body event_type reason message action field_path timestamp =
    record {
      body = body;
      ref = with_field_path field_path (build_object_reference body);
      event_type = event_type;
      reason = strip reason;
      message = strip message;
      action = action;
      timestamp = timestamp;
    }

-- `record_event` at the time `timestamp`
unfoldable pub record_event :
    Bool
    → Server
    → (Body → Reference)
    → Body
    → Str
    → Str
    → Str
    → Option Str
    → Option Str
    → Str
    → EventCache
    → Recorded
unfolding create_event
record_event dryrun_mode server build_object_reference body event_type reason message action
      field_path timestamp cache =
    record_occurrence dryrun_mode server
      (occurrence_of build_object_reference body event_type reason message action field_path
        timestamp)
      cache
