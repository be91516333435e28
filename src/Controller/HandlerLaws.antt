-- ===== src/Controller/HandlerLaws.antt =====
-- What the handlers of `src/controller.py` leave for the mux.
use svc_lb_mux.Prelude.{
  ℕ, ℕ_discrete, zero, suc, ◌+◌, ◌≤◌, ◌<◌, ◌≡◌, ◌≢◌, refl, ap, subst, ◌∙◌, true, false, Option,
  none, some, List, [], arith, if_pos, Option-cases, inl, inr, ◌↔◌, Str, Result, ok, err, ◌>>=◌,
}
use svc_lb_mux.Prelude.Dict.{get, remove}
use svc_lb_mux.Prelude.Dict.Laws.{get-remove}
use svc_lb_mux.Reconcile.Endpoints.{ServiceKey, ServiceKey-discrete}
use svc_lb_mux.Controller.Handlers.{
  Service, Queues, Memo, mux_of_service, Triggered, queued, not_ready, skipped, seen_at,
  wait_for_queue, put_channel, trigger_mux, reply, channel_deletion,
}

-- No attempt from `attempt` on, of so many, saw the queue.
abbrev NeverSeen : (ℕ → Queues) → ServiceKey → ℕ → ℕ → Type 0
NeverSeen seen mux attempt attempts =
    (i : ℕ) → attempt ≤ i → i < attempt + attempts → get ServiceKey-discrete (seen i) mux ≡ none

wait_for_queue-none :
    (seen : ℕ → Queues) (mux : ServiceKey) (attempt attempts : ℕ)
    → wait_for_queue seen mux attempt attempts ≡ none
    → NeverSeen seen mux attempt attempts
unfolding wait_for_queue
wait_for_queue-none seen mux attempt zero h i low high = ground arith
wait_for_queue-none seen mux attempt (suc attempts) h i low high =
    elim (Option-cases (get ServiceKey-discrete (seen attempt) mux)) [
      | inl gone ↦ elim (ℕ_discrete attempt i) [
        | yes e ↦ subst (λ j. get ServiceKey-discrete (seen j) mux ≡ none) e gone
        | no n ↦
            wait_for_queue-none seen mux (attempt + 1) attempts (rw (gone, wait_for_queue) at h) i
              (omega arith) (omega arith)
      ]
      | inr (q, found) ↦ absurd (cc)
    ]

wait_for_queue-never :
    (seen : ℕ → Queues) (mux : ServiceKey) (attempt attempts : ℕ)
    → NeverSeen seen mux attempt attempts
    → wait_for_queue seen mux attempt attempts ≡ none
unfolding wait_for_queue
wait_for_queue-never seen mux attempt zero h = refl
wait_for_queue-never seen mux attempt (suc attempts) h =
    rw (h attempt (omega arith) (omega arith), wait_for_queue)
      (wait_for_queue-never seen mux (attempt + 1) attempts
        (λ i low high. h i (omega arith) (omega arith)))

-- `trigger_mux` asks for a retry, of a channel with a readable reference to its mux, exactly when none
-- of the five attempts sees the queue of the mux.
pub trigger_mux-not_ready :
    (default_namespace : Str) (s : Service) (seen : ℕ → Queues) (mux : ServiceKey)
    → mux_of_service default_namespace s ≡ ok mux
    → (trigger_mux default_namespace s false seen ≡ ok not_ready)
      ↔ ((i : ℕ) → i < 5 → get ServiceKey-discrete (seen i) mux ≡ none)
unfolding trigger_mux
trigger_mux-not_ready default_namespace s seen mux h = (
  (λ waited i high.
      wait_for_queue-none seen mux 0 5 (no_queue (wait_for_queue seen mux 0 5) (rw h at waited)) i
        (omega arith) (omega arith)),
  (λ unseen. rw (h, wait_for_queue-never seen mux 0 5 (λ i low high. unseen i (omega arith))) refl),
)
  where
    no_queue :
        (o : Option (Queues × List Service))
        → ok (put_channel s false mux o) ≡ ok not_ready
        → o ≡ none
    no_queue none e = refl
    no_queue (some (queues, q)) e = cc

abbrev key_of_service : Service → ServiceKey
key_of_service s = (s.channel.namespace, s.channel.name)

reply-silent :
    (memo : Memo) (r : Result Triggered)
    → r ≢ ok not_ready
    → ((reply memo true r).memo.endpoints ≡ memo.endpoints)
      × ((reply memo true r).events ≡ [])
      × ((reply memo true r).retry ≡ false)
reply-silent memo (err e) h = (refl, refl, refl)
reply-silent memo (ok (queued queues)) h = (refl, refl, refl)
reply-silent memo (ok not_ready) h = absurd (h refl)
reply-silent memo (ok skipped) h = (refl, refl, refl)

trigger_mux-silent :
    (default_namespace : Str) (s : Service) (seen : ℕ → Queues)
    → trigger_mux default_namespace s true seen ≢ ok not_ready
unfolding trigger_mux
trigger_mux-silent default_namespace s seen h = by_mux (mux_of_service default_namespace s) h
  where
    put_silent :
        (mux : ServiceKey) (o : Option (Queues × List Service))
        → ok (put_channel s true mux o) ≢ ok not_ready
    put_silent mux none e = cc
    put_silent mux (some (queues, q)) e = cc

    by_mux :
        (r : Result ServiceKey)
        → (r >>= λ mux. ok (put_channel s true mux (wait_for_queue seen mux 0 5))) ≢ ok not_ready
    by_mux (err e) h = cc
    by_mux (ok mux) h = put_silent mux (wait_for_queue seen mux 0 5) h

-- A deleted channel leaves the cache of endpoints, whatever its reference to a mux and the queues are,
-- and the handler neither reports an event nor asks to be called again.
pub channel_deletion-removed :
    (default_namespace : Str) (s : Service) (memo : Memo) (later : ℕ → Queues)
    → (get ServiceKey-discrete
          (channel_deletion default_namespace s memo later).memo.endpoints
          (s.channel.namespace, s.channel.name)
        ≡ none)
      × ((channel_deletion default_namespace s memo later).events ≡ [])
      × ((channel_deletion default_namespace s memo later).retry ≡ false)
unfolding channel_deletion
channel_deletion-removed default_namespace s memo later =
    let left = record memo {
      endpoints = remove ServiceKey-discrete memo.endpoints (key_of_service s);
    } in
    let (same, silent, done) =
      reply-silent left (trigger_mux default_namespace s true (seen_at memo.mux_queues later))
        (trigger_mux-silent default_namespace s (seen_at memo.mux_queues later)) in
    (
      ap (λ d. get ServiceKey-discrete d (key_of_service s)) same
          ∙ get-remove ServiceKey-discrete memo.endpoints (key_of_service s) (key_of_service s)
          ∙ if_pos (ServiceKey-discrete (key_of_service s) (key_of_service s)) refl none
              (get ServiceKey-discrete memo.endpoints (key_of_service s)),
      silent,
      done,
    )
