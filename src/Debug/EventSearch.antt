-- ===== src/Debug/EventSearch.antt =====
-- Where the loop of `record_event` finds a subject among the events of the debug page.
use svc_lb_mux.Prelude.{
  ℕ, suc, ◌+◌, ◌≤◌, ◌≡◌, refl, sym, subst, ap, true, false, ◌&&◌, Option, none, some, List, [], ◌∷◌,
  arith, if◌then◌else◌, Str-discrete, ite, if_pos, length, All, Bool-cases, ◌∙◌, inl, inr, ◌≢◌,
}
use svc_lb_mux.Debug.Events.{Subject, DebugEvent, max_debug_events, same_subject, take_existing}

pub same_subject_refl : (s : Subject) → same_subject s s ≡ true
same_subject_refl s = rw (
  if_pos (Str-discrete s.event_type s.event_type) refl true false,
  if_pos (Str-discrete s.resource s.resource) refl true false,
  if_pos (Str-discrete s.message s.message) refl true false,
)

subject_path :
    {a b : Subject}
    → a.event_type ≡ b.event_type
    → a.resource ≡ b.resource
    → a.message ≡ b.message
    → a ≡ b
subject_path p q r = λ i. record { event_type = p i; resource = q i; message = r i }

-- The test finds equal subjects.
pub same_subject-eq : (a b : Subject) → same_subject a b ≡ true → a ≡ b
same_subject-eq a b h = three _ _ _ h
  where
    three :
        (p : Dec (a.event_type ≡ b.event_type)) (q : Dec (a.resource ≡ b.resource))
        (r : Dec (a.message ≡ b.message))
        → (ite p true false && ite q true false && ite r true false) ≡ true
        → a ≡ b
    three (yes p) (yes q) (yes r) h = subject_path p q r
    three (yes p) (yes q) (no r) h = cc
    three (yes p) (no q) r h = cc
    three (no p) q r h = cc

-- No event is about the subject.
abbrev pub Unseen : Subject → List DebugEvent → Type 0
Unseen s = All (λ e. same_subject e.subject s ≡ false)

-- No two events are about the same subject.
abbrev pub OneEach : List DebugEvent → Type 0
OneEach [] = Unit
OneEach (e ∷ events) = Unseen e.subject events × OneEach events

abbrev pub IsEventLog : List DebugEvent → Type 0
IsEventLog events = (length events ≤ max_debug_events) × OneEach events

-- How often the events that are kept say that a subject was seen.
abbrev pub times_seen : Subject → List DebugEvent → ℕ
times_seen s [] = 0
times_seen s (e ∷ events) =
    let rest = times_seen s events in if same_subject e.subject s then e.count + rest else rest

-- What the loop finds: no event about the subject, or one, which the others and its count make up.
abbrev pub Found : Subject → List DebugEvent → Option (DebugEvent × List DebugEvent) → Type 0
Found s events none = Unseen s events
Found s events (some (e, others)) =
    (same_subject e.subject s ≡ true)
    × (length events ≡ suc (length others))
    × (times_seen s events ≡ e.count + times_seen s others)
    × ((t : Subject) → s ≢ t → times_seen t events ≡ times_seen t others)
    × ((t : Subject) → Unseen t events → Unseen t others)
    × (OneEach events → OneEach others × Unseen s others)

pub Unseen-of_eq :
    {s t : Subject} (events : List DebugEvent) → s ≡ t → Unseen s events → Unseen t events
Unseen-of_eq events p h = subst (λ u. Unseen u events) p h

pub times_seen_ahead :
    (s : Subject) (e : DebugEvent) (events : List DebugEvent)
    → same_subject e.subject s ≡ true
    → times_seen s (e ∷ events) ≡ e.count + times_seen s events
times_seen_ahead s e events same = rw same

pub times_seen_behind :
    (s t : Subject) (e : DebugEvent) (events : List DebugEvent)
    → same_subject e.subject s ≡ true
    → s ≢ t
    → times_seen t (e ∷ events) ≡ times_seen t events
times_seen_behind s t e events same ne = elim (Bool-cases (same_subject e.subject t)) [
  | inl also ↦
      absurd (ne (sym (same_subject-eq e.subject s same) ∙ same_subject-eq e.subject t also))
  | inr differs ↦ rw differs
]

seen_here :
    (s : Subject) (e : DebugEvent) (events : List DebugEvent)
    → same_subject e.subject s ≡ true
    → Found s (e ∷ events) (some (e, events))
seen_here s e events same = (
  same,
  refl,
  rw same refl,
  λ t ne. times_seen_behind s t e events same ne,
  λ t h. h.1,
  λ h. (h.1, Unseen-of_eq events (same_subject-eq e.subject s same) h.0),
)

later_count :
    (t : Subject) (e : DebugEvent) (before after : List DebugEvent) (n : ℕ)
    → times_seen t before ≡ n + times_seen t after
    → times_seen t (e ∷ before) ≡ n + times_seen t (e ∷ after)
later_count t e before after n h = ground (arith, h)

later_same :
    (t : Subject) (e : DebugEvent) (before after : List DebugEvent)
    → times_seen t before ≡ times_seen t after
    → times_seen t (e ∷ before) ≡ times_seen t (e ∷ after)
later_same t e before after h = rw h

seen_later :
    (s : Subject) (e : DebugEvent) (events : List DebugEvent)
    (o : Option (DebugEvent × List DebugEvent))
    → same_subject e.subject s ≡ false
    → Found s events o
    → Found s
        (e ∷ events)
        (elim o [ none ↦ none | some (found, others) ↦ some (found, e ∷ others) ])
seen_later s e events none other h = (other, h)
seen_later s e events (some (found, others)) other (same, size, count, counts, unseen, each) = (
  same,
  ap suc size,
  later_count s e events others found.count count,
  λ t ne. later_same t e events others (counts t ne),
  λ t h. (h.0, unseen t h.1),
  λ h. ((unseen e.subject h.0, (each h.1).0), (other, (each h.1).1)),
)

pub take_existing-Found :
    (s : Subject) (events : List DebugEvent) → Found s events (take_existing s events)
unfolding take_existing
take_existing-Found s [] = tt
take_existing-Found s (e ∷ events) = elim (Bool-cases (same_subject e.subject s)) [
  | inl same ↦ rw same (seen_here s e events same)
  | inr other ↦
      rw other (seen_later s e events (take_existing s events) other (take_existing-Found s events))
]
