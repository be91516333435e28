-- ===== src/Controller/ChannelLaws.antt =====
-- What `handle_channel_service` of `src/controller.py` leaves, on each of its ways.
use svc_lb_mux.Prelude.{
  ℕ, ℕ_discrete, zero, suc, ◌+◌, ◌≤◌, ◌<◌, ◌≡◌, refl, ap, subst, true, false, Option, none, some,
  List, [], ◌∷◌, ◌++◌, arith, Bool-cases, Option-cases, inl, inr, All, Str, length, Result, ok, err,
  Error, ◌>>=◌,
}
use svc_lb_mux.Prelude.Dict.{get, put}
use svc_lb_mux.Model.{Port, has_name}
use svc_lb_mux.Reconcile.Endpoints.{ServiceKey, ServiceKey-discrete}
use svc_lb_mux.Controller.Handlers.{
  Service, Queues, Memo, invalid_port, invalid_load_balancer_class, mux_of_service, seen_at,
  wait_for_queue, put_channel, trigger_mux, Reply, reply, first_unnamed, handle_channel_service,
}

-- The port at the position is the first one without a name.
abbrev pub IsFirstUnnamed : List Port → ℕ → Type 0
IsFirstUnnamed ports n =
    (before : List Port) × (p : Port) × (after : List Port) × (ports ≡ before ++ p ∷ after)
    × All (λ q. has_name q ≡ true) before
    × (has_name p ≡ false)
    × (length before ≡ n)

-- The attempt is the first one from `start` on that sees the queue of the mux, which is `q`.
abbrev pub IsFirstSeen : (ℕ → Queues) → ServiceKey → ℕ → ℕ → List Service → Type 0
IsFirstSeen seen mux start i q =
    (start ≤ i)
    × (get ServiceKey-discrete (seen i) mux ≡ some q)
    × ((j : ℕ) → start ≤ j → j < i → get ServiceKey-discrete (seen j) mux ≡ none)

module _ (default_namespace : Str) (s : Service) (memo : Memo) (later : ℕ → Queues) where
  -- The ways of the handler: a port has no name, which is reported; the reference to the mux cannot be
  -- read, which is reported; none of five attempts sees the queue of the mux, and kopf is asked to
  -- call again; or the first attempt that sees it appends the channel to the queue.
  pub data Handled : Reply → Type 0 where
    unnamed :
        (n : ℕ)
        → IsFirstUnnamed s.channel.ports n
        → Handled (record { memo = memo; events = invalid_port n ∷ []; retry = false })
    unreadable :
        (e : Error)
        → All (λ p. has_name p ≡ true) s.channel.ports
        → mux_of_service default_namespace s ≡ err e
        → Handled
            (record { memo = memo; events = invalid_load_balancer_class e ∷ []; retry = false })
    unseen :
        (mux : ServiceKey)
        → All (λ p. has_name p ≡ true) s.channel.ports
        → mux_of_service default_namespace s ≡ ok mux
        → ((i : ℕ) → i < 5 → get ServiceKey-discrete (seen_at memo.mux_queues later i) mux ≡ none)
        → Handled (record { memo = memo; events = []; retry = true })
    appended :
        (mux : ServiceKey) (i : ℕ) (q : List Service)
        → All (λ p. has_name p ≡ true) s.channel.ports
        → mux_of_service default_namespace s ≡ ok mux
        → i < 5
        → IsFirstSeen (seen_at memo.mux_queues later) mux 0 i q
        → Handled (record {
          memo = record {
            mux_queues =
                put ServiceKey-discrete (seen_at memo.mux_queues later i) mux (q ++ s ∷ []);
            endpoints = memo.endpoints;
          };
          events = [];
          retry = false;
        })

-- What the search for an unnamed port gives, from the position `n` on.
abbrev Unnamed : List Port → ℕ → Option ℕ → Type 0
Unnamed ports n none = All (λ p. has_name p ≡ true) ports
Unnamed ports n (some m) = (k : ℕ) × IsFirstUnnamed ports k × (n + k ≡ m)

first_unnamed-Unnamed : (ports : List Port) (n : ℕ) → Unnamed ports n (first_unnamed ports n)
unfolding first_unnamed
first_unnamed-Unnamed [] n = tt
first_unnamed-Unnamed (p ∷ ports) n = elim (Bool-cases (has_name p)) [
  | inl named ↦
      rw named (behind named (first_unnamed ports (n + 1)) (first_unnamed-Unnamed ports (n + 1)))
  | inr without ↦ rw without (0, ([], p, ports, refl, tt, without, refl), omega arith)
]
  where
    behind : has_name p ≡ true → (o : Option ℕ) → Unnamed ports (n + 1) o → Unnamed (p ∷ ports) n o
    behind named none h = (named, h)
    behind named (some m) (k, (before, q, after, parts, all, without, count), at) = (
      k + 1,
      (p ∷ before, q, after, ap (λ xs. p ∷ xs) parts, (named, all), without, omega (arith, count)),
      omega (arith, at),
    )

-- What the loop over the attempts gives.
abbrev Waited : (ℕ → Queues) → ServiceKey → ℕ → ℕ → Option (Queues × List Service) → Type 0
Waited seen mux start attempts none =
    (i : ℕ) → start ≤ i → i < start + attempts → get ServiceKey-discrete (seen i) mux ≡ none
Waited seen mux start attempts (some (queues, q)) =
    (i : ℕ) × (i < start + attempts) × (queues ≡ seen i) × IsFirstSeen seen mux start i q

wait_for_queue-Waited :
    (seen : ℕ → Queues) (mux : ServiceKey) (start attempts : ℕ)
    → Waited seen mux start attempts (wait_for_queue seen mux start attempts)
unfolding wait_for_queue
wait_for_queue-Waited seen mux start zero = λ i low high. ground arith
wait_for_queue-Waited seen mux start (suc attempts) =
    elim (Option-cases (get ServiceKey-discrete (seen start) mux)) [
      | inl gone ↦
          rw (gone, wait_for_queue)
            (behind gone (wait_for_queue seen mux (start + 1) attempts)
              (wait_for_queue-Waited seen mux (start + 1) attempts))
      | inr (q, found) ↦
          rw (found, wait_for_queue)
            (start, omega arith, refl, (omega arith, found, λ j low high. absurd (omega arith)))
    ]
  where
    here_or_later :
        get ServiceKey-discrete (seen start) mux ≡ none
        → (P : ℕ → Type 0)
        → ((j : ℕ) → start + 1 ≤ j → P j → get ServiceKey-discrete (seen j) mux ≡ none)
        → (j : ℕ) → start ≤ j
        → P j
        → get ServiceKey-discrete (seen j) mux ≡ none
    here_or_later gone P h j low p = elim (ℕ_discrete start j) [
      | yes e ↦ subst (λ k. get ServiceKey-discrete (seen k) mux ≡ none) e gone
      | no n ↦ h j (omega arith) p
    ]

    behind :
        get ServiceKey-discrete (seen start) mux ≡ none
        → (o : Option (Queues × List Service)) → Waited seen mux (start + 1) attempts o
        → Waited seen mux start (suc attempts) o
    behind gone none h = λ i low high.
        here_or_later gone (λ j. j < start + suc attempts) (λ j low high. h j low (omega arith)) i
          low high
    behind gone (some (queues, q)) (i, high, same, (low, found, first)) =
        (i, omega arith, same, (omega arith, found, here_or_later gone (λ j. j < i) first))

-- `handle_channel_service` leaves, whatever the Service, the memo and the tables that its attempts see
-- are: with a port that has no name, the memo as it was and the report of the first such port; else,
-- with a reference that cannot be read, the memo as it was and a report; else, if none of five
-- attempts sees a queue of the mux, the memo as it was and the request to be called again; and else
-- the table of the first attempt that sees it, with the channel at the end of the queue.
pub handle_channel_service-Handled :
    (default_namespace : Str) (s : Service) (memo : Memo) (later : ℕ → Queues)
    → Handled default_namespace s memo later (handle_channel_service default_namespace s memo later)
unfolding handle_channel_service trigger_mux
handle_channel_service-Handled default_namespace s memo later =
    by_ports (first_unnamed s.channel.ports 0) (first_unnamed-Unnamed s.channel.ports 0)
  where
    by_queue :
        (mux : ServiceKey) (o : Option (Queues × List Service))
        → All (λ p. has_name p ≡ true) s.channel.ports
        → mux_of_service default_namespace s ≡ ok mux
        → Waited (seen_at memo.mux_queues later) mux 0 5 o
        → Handled default_namespace s memo later (reply memo false (ok (put_channel s false mux o)))
    by_queue mux none named valid h =
        Handled.unseen mux named valid (λ i high. h i (omega arith) high)
    by_queue mux (some (queues, q)) named valid (i, high, same, first) =
        rw same (Handled.appended mux i q named valid high first)

    by_mux :
        (r : Result ServiceKey)
        → All (λ p. has_name p ≡ true) s.channel.ports
        → mux_of_service default_namespace s ≡ r
        → Handled default_namespace s memo later (
            reply memo false (
              r >>= (λ mux. ok (
                put_channel s false mux (wait_for_queue (seen_at memo.mux_queues later) mux 0 5)))))
    by_mux (err e) named invalid = Handled.unreadable e named invalid
    by_mux (ok mux) named valid =
        by_queue mux (wait_for_queue (seen_at memo.mux_queues later) mux 0 5) named valid
          (wait_for_queue-Waited (seen_at memo.mux_queues later) mux 0 5)

    by_ports :
        (o : Option ℕ)
        → Unnamed s.channel.ports 0 o
        → Handled default_namespace s memo later (elim o [
          | some n ↦ record { memo = memo; events = invalid_port n ∷ []; retry = false }
          | none ↦
              reply memo false
                (trigger_mux default_namespace s false (seen_at memo.mux_queues later))
        ])
    by_ports (some n) (k, first, at) =
        Handled.unnamed n (subst (IsFirstUnnamed s.channel.ports) (omega (arith, at)) first)
    by_ports none named = by_mux (mux_of_service default_namespace s) named refl
