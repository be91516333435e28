-- ===== src/Debug/EventLaws.antt =====
-- What the list of events of the debug page keeps: its length, one event for each subject, and how
-- often each subject was seen.
use svc_lb_mux.Prelude.{
  ℕ, suc, zero, ◌+◌, ◌≤◌, ◌<◌, ◌≡◌, refl, sym, ap, Option, none, some, List, [], ◌∷◌, arith, Str,
  length, take, ◌∙◌, ◌≢◌,
}
use svc_lb_mux.Debug.Events.{
  Subject, DebugEvent, max_debug_events, truncate_event_message, take_existing, seen_again,
  new_event, push_event, record_event,
}
use svc_lb_mux.Debug.EventSearch.{
  same_subject_refl, same_subject-eq, Unseen, OneEach, IsEventLog, times_seen, Found,
  times_seen_ahead, times_seen_behind, Unseen-of_eq, take_existing-Found,
}

take_all : (n : ℕ) (events : List DebugEvent) → length events ≤ n → take n events ≡ events
take_all zero [] h = refl
take_all zero (e ∷ events) h = absurd (omega (arith, h))
take_all (suc n) [] h = refl
take_all (suc n) (e ∷ events) h = ap (e ∷◌) (take_all n events (omega arith))

length-take-le : (n : ℕ) (events : List DebugEvent) → length (take n events) ≤ n
length-take-le zero events = omega arith
length-take-le (suc n) [] = omega arith
length-take-le (suc n) (e ∷ events) = omega (arith, length-take-le n events)

Unseen-take :
    (s : Subject) (n : ℕ) (events : List DebugEvent) → Unseen s events → Unseen s (take n events)
Unseen-take s zero events h = tt
Unseen-take s (suc n) [] h = tt
Unseen-take s (suc n) (e ∷ events) h = (h.0, Unseen-take s n events h.1)

OneEach-take : (n : ℕ) (events : List DebugEvent) → OneEach events → OneEach (take n events)
OneEach-take zero events h = tt
OneEach-take (suc n) [] h = tt
OneEach-take (suc n) (e ∷ events) h =
    (Unseen-take e.subject n events h.0, OneEach-take n events h.1)

Unseen-zero : (s : Subject) (events : List DebugEvent) → Unseen s events → times_seen s events ≡ 0
Unseen-zero s [] h = refl
Unseen-zero s (e ∷ events) h = rw h.0 (Unseen-zero s events h.1)

times_seen-take-le :
    (s : Subject) (n : ℕ) (events : List DebugEvent)
    → times_seen s (take n events) ≤ times_seen s events
times_seen-take-le s zero events = omega arith
times_seen-take-le s (suc n) [] = omega arith
times_seen-take-le s (suc n) (e ∷ events) = ground (arith, times_seen-take-le s n events)

push-IsEventLog :
    (now : Str) (s : Subject) (events : List DebugEvent) (o : Option (DebugEvent × List DebugEvent))
    → Found s events o
    → IsEventLog events
    → IsEventLog (push_event now s o events)
push-IsEventLog now s events none unseen (bound, each) = (
  length-take-le max_debug_events (new_event now s ∷ events),
  OneEach-take max_debug_events (new_event now s ∷ events) (unseen, each),
)
push-IsEventLog now s events (some (e, others)) (same, _, _, _, _, kept) (bound, each) = (
  length-take-le max_debug_events (seen_again now e ∷ others),
  OneEach-take max_debug_events (seen_again now e ∷ others)
      (Unseen-of_eq others (sym (same_subject-eq e.subject s same)) (kept each).1, (kept each).0),
)

-- The event to record, with its message cut.
abbrev pub subject_of : Str → Str → Str → Subject
subject_of event_type resource message = record {
  event_type = event_type;
  resource = resource;
  message = truncate_event_message message;
}

-- `record_event` keeps that there are at most 100 events, and that no two of them are about the same
-- type, resource and message.
pub record_event-IsEventLog :
    (now event_type resource message : Str) (events : List DebugEvent)
    → IsEventLog events
    → IsEventLog (record_event now event_type resource message events)
unfolding record_event
record_event-IsEventLog now event_type resource message events h =
    let s = subject_of event_type resource message in
    push-IsEventLog now s events (take_existing s events) (take_existing-Found s events) h

-- What recording does to the numbers of sightings.
abbrev pub IsCounted : Subject → List DebugEvent → List DebugEvent → Type 0
IsCounted s before after =
    (times_seen s after ≡ times_seen s before + 1)
    × ((t : Subject) → s ≢ t → times_seen t after ≤ times_seen t before)
    × ((t : Subject)
        → s ≢ t
        → length before < max_debug_events
        → times_seen t after ≡ times_seen t before)

push-IsCounted :
    (now : Str) (s : Subject) (events : List DebugEvent) (o : Option (DebugEvent × List DebugEvent))
    → Found s events o
    → length events ≤ max_debug_events
    → IsCounted s events (push_event now s o events)
push-IsCounted now s events none unseen bound =
    let e = new_event now s in
    let same = same_subject_refl s in
    (
      omega (
        arith,
        times_seen_ahead s e (take 99 events) same,
        Unseen-zero s events unseen,
        Unseen-zero s (take 99 events) (Unseen-take s 99 events unseen),
      ),
      λ t ne.
          omega (
            arith,
            times_seen_behind s t e (take 99 events) same ne,
            times_seen-take-le t 99 events,
          ),
      λ t ne room.
          rw (take_all 99 events (omega (arith, room))) (times_seen_behind s t e events same ne),
    )
push-IsCounted now s events (some (e, others)) (same, size, count, counts, _, _) bound =
    let again = seen_again now e in
    let all = take_all 99 others (omega (arith, size, bound)) in
    let unchanged : (t : Subject)
        → s ≢ t
        → times_seen t (again ∷ take 99 others) ≡ times_seen t events =
      λ t ne. rw all (times_seen_behind s t again others same ne ∙ sym (counts t ne)) in
    (
      rw all (omega (arith, times_seen_ahead s again others same, count)),
      λ t ne. omega (arith, unchanged t ne),
      λ t ne room. unchanged t ne,
    )

-- `record_event` adds one to how often the subject was seen and, while there is room for a new
-- event, changes no other subject's number; when the list is full, it can only forget others.
pub record_event-IsCounted :
    (now event_type resource message : Str) (events : List DebugEvent)
    → length events ≤ max_debug_events
    → IsCounted
        (subject_of event_type resource message)
        events
        (record_event now event_type resource message events)
unfolding record_event
record_event-IsCounted now event_type resource message events bound =
    let s = subject_of event_type resource message in
    push-IsCounted now s events (take_existing s events) (take_existing-Found s events) bound
