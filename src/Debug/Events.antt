-- ===== src/Debug/Events.antt =====
-- The events of the debug page: `record_event` and `truncate_event_message` of `src/debug_state.py`.
use svc_lb_mux.Prelude.{
  ℕ, ◌+◌, ◌-◌, Bool, true, false, ◌&&◌, Option, none, some, List, [], ◌∷◌, ◌++◌, leb, if◌then◌else◌,
  Str, codes, Str-discrete, ite, length, take, show_nat,
}

abbrev pub max_debug_events : ℕ
max_debug_events = 100

abbrev pub max_event_message_length : ℕ
max_event_message_length = 2000

-- What an event is about: its type, its resource and its message.
pub record Subject : Type 0 where
  pub event_type : Str
  pub resource : Str
  pub message : Str

-- An event of the debug page. `count` stands in every event that the program makes.
pub record DebugEvent : Type 0 where
  pub timestamp : Str
  pub first_timestamp : Str
  pub last_timestamp : Str
  pub count : ℕ
  pub subject : Subject

-- `truncate_event_message`
unfoldable pub truncate_event_message : Str → Str
truncate_event_message message =
    if leb (length message) max_event_message_length
    then message
    else take max_event_message_length message
      ++ codes "... [truncated "
      ++ show_nat (length message - max_event_message_length)
      ++ codes " chars]"

-- The test of `record_event`: the same type, resource and message.
abbrev pub same_subject : Subject → Subject → Bool
same_subject a b =
    ite (Str-discrete a.event_type b.event_type) true false
    && ite (Str-discrete a.resource b.resource) true false
    && ite (Str-discrete a.message b.message) true false

-- The loop over the events: the first one about the subject, and the events without it.
unfoldable pub take_existing : Subject → List DebugEvent → Option (DebugEvent × List DebugEvent)
take_existing subject [] = none
take_existing subject (existing ∷ events) =
    let rest = take_existing subject events in
    if same_subject existing.subject subject
    then some (existing, events)
    else elim rest [ none ↦ none | some (found, others) ↦ some (found, existing ∷ others) ]

-- `appendleft` on `deque(maxlen=MAX_DEBUG_EVENTS)`, which drops from the other end.
abbrev pub appendleft : DebugEvent → List DebugEvent → List DebugEvent
appendleft event events = take max_debug_events (event ∷ events)

abbrev pub seen_again : Str → DebugEvent → DebugEvent
seen_again now existing = record existing {
  timestamp = now;
  last_timestamp = now;
  count = existing.count + 1;
}

abbrev pub new_event : Str → Subject → DebugEvent
new_event now subject = record {
  timestamp = now;
  first_timestamp = now;
  last_timestamp = now;
  count = 1;
  subject = subject;
}

abbrev pub push_event :
    Str → Subject → Option (DebugEvent × List DebugEvent) → List DebugEvent → List DebugEvent
push_event now subject none events = appendleft (new_event now subject) events
push_event now subject (some (existing, others)) events =
    appendleft (seen_again now existing) others

-- `record_event` at the time `now`
unfoldable pub record_event : Str → Str → Str → Str → List DebugEvent → List DebugEvent
unfolding truncate_event_message take_existing
record_event now event_type resource message events =
    let subject : Subject = record {
      event_type = event_type;
      resource = resource;
      message = truncate_event_message message;
    } in
    push_event now subject (take_existing subject events) events
