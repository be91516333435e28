-- ===== src/Controller/Handlers.antt =====
-- The filters, indices and handlers of `src/controller.py` over the shared memo.
use svc_lb_mux.Prelude.{
  ℕ, zero, suc, ◌+◌, Bool, true, false, ◌&&◌, ◌||◌, not, Option, none, some, List, [], ◌∷◌, ◌++◌,
  if◌then◌else◌, ite, Str, codes, Str-discrete, after_prefix, length, Result, ok, err, Error, ◌>>=◌,
}
use svc_lb_mux.Prelude.Dict.{Dict, get, put, remove, setdefault}
use svc_lb_mux.Model.{Port, Channel, or_empty, has_name, annotation_key, api_prefix}
use svc_lb_mux.Refs.{get_mux_from_lb_class}
use svc_lb_mux.Reconcile.Endpoints.{Subset, ServiceKey, ServiceKey-discrete, EndpointsCache}

-- A Service with what the filters read of its spec. `selector` says whether there is a selector.
pub record Service : Type 0 where
  pub channel : Channel
  pub type : Option Str
  pub selector : Bool
  pub load_balancer_class : Option Str

abbrev pub Queues : Type 0
Queues = Dict ServiceKey (List Service)

-- The part of `kopf.Memo` that the handlers use.
pub record Memo : Type 0 where
  pub mux_queues : Queues
  pub endpoints : EndpointsCache

abbrev pub is_text_of : Str → Option Str → Bool
is_text_of s none = false
is_text_of s (some t) = ite (Str-discrete t s) true false

-- `has_multiplexer_annotation`
unfoldable pub has_multiplexer_annotation : Service → Bool
has_multiplexer_annotation s =
    is_text_of (codes "true")
      (get Str-discrete s.channel.annotations (annotation_key (codes "multiplexer")))

-- `is_multiplexer_service`
unfoldable pub is_multiplexer_service : Service → Bool
unfolding has_multiplexer_annotation
is_multiplexer_service s =
    has_multiplexer_annotation s && is_text_of (codes "LoadBalancer") s.type && not s.selector

-- `is_channel_service`
unfoldable pub is_channel_service : Service → Bool
is_channel_service s =
    is_text_of (codes "LoadBalancer") s.type
    && elim (after_prefix (api_prefix ++ b'/' ∷ []) (or_empty s.load_balancer_class)) [
      | none ↦ false
      | some _ ↦ true
    ]

-- `is_multiplexer_endpoints` and `is_channel_endpoints`: the index, a list of Services by namespace,
-- has the Service of that name.
unfoldable pub in_services : ServiceKey → Str → List Service → Bool
in_services k namespace [] = false
in_services k namespace (s ∷ services) =
    ite (ServiceKey-discrete (namespace, s.channel.name) k) true (in_services k namespace services)

unfoldable pub is_indexed_endpoints : ServiceKey → Dict Str (List Service) → Bool
unfolding in_services
is_indexed_endpoints k [] = false
is_indexed_endpoints k ((namespace, services) ∷ index) =
    in_services k namespace services || is_indexed_endpoints k index

-- The events of the handlers, by their reason.
pub data Reported : Type 0 where
  not_load_balancer not_supported : Reported
  invalid_load_balancer_class : Error → Reported
  invalid_port : ℕ → Reported

-- The index `multiplexer_services`: whether the Service is in it, its events, and the memo.
unfoldable pub multiplexer_services : Service → Memo → Bool × List Reported × Memo
multiplexer_services s memo =
    if not (is_text_of (codes "LoadBalancer") s.type)
    then (false, not_load_balancer ∷ [], memo)
    else if s.selector
    then (false, not_supported ∷ [], memo)
    else (
      true,
      [],
      record memo {
        mux_queues =
            setdefault ServiceKey-discrete memo.mux_queues (s.channel.namespace, s.channel.name) [];
      },
    )

module _ (default_namespace : Str) where
  unfoldable pub mux_of_service : Service → Result ServiceKey
  mux_of_service s =
      get_mux_from_lb_class (or_empty s.load_balancer_class) api_prefix default_namespace

  -- The index `mux_channels`: the mux under which the channel stands.
  unfoldable pub mux_channels : Service → Option ServiceKey × List Reported
  unfolding mux_of_service
  mux_channels s = elim (mux_of_service s) [
    | err e ↦ (none, invalid_load_balancer_class e ∷ [])
    | ok mux ↦ (some mux, [])
  ]

-- What `trigger_mux` does: it puts the channel into the queue, or it asks for a retry, or it returns
-- without either.
pub data Triggered : Type 0 where
  queued : Queues → Triggered
  not_ready skipped : Triggered

-- The table at an attempt: the threads of the muxes may fill it in between.
abbrev pub seen_at : Queues → (ℕ → Queues) → ℕ → Queues
seen_at now later zero = now
seen_at now later (suc n) = later n

-- the loop over the attempts, from `attempt` on
unfoldable pub wait_for_queue : (ℕ → Queues) → ServiceKey → ℕ → ℕ → Option (Queues × List Service)
wait_for_queue seen mux attempt zero = none
wait_for_queue seen mux attempt (suc attempts) =
    let rest = wait_for_queue seen mux (attempt + 1) attempts in
    elim (get ServiceKey-discrete (seen attempt) mux) [
      | none ↦ rest
      | some q ↦ some (seen attempt, q)
    ]

-- `Q.put(channel)`, or the end without a queue
abbrev pub put_channel : Service → Bool → ServiceKey → Option (Queues × List Service) → Triggered
put_channel s no_raise mux none = if no_raise then skipped else not_ready
put_channel s no_raise mux (some (queues, q)) =
    queued (put ServiceKey-discrete queues mux (q ++ s ∷ []))

-- What a handler leaves: the memo, its events, and whether kopf is to call it again.
pub record Reply : Type 0 where
  pub memo : Memo
  pub events : List Reported
  pub retry : Bool

abbrev pub reply : Memo → Bool → Result Triggered → Reply
reply memo silent (err e) = record {
  memo = memo;
  events = if silent then [] else invalid_load_balancer_class e ∷ [];
  retry = false;
}
reply memo silent (ok (queued queues)) = record {
  memo = record memo { mux_queues = queues };
  events = [];
  retry = false;
}
reply memo silent (ok not_ready) = record { memo = memo; events = []; retry = true }
reply memo silent (ok skipped) = record { memo = memo; events = []; retry = false }

-- `p.get("name")` of the first port that has none
unfoldable pub first_unnamed : List Port → ℕ → Option ℕ
first_unnamed [] n = none
first_unnamed (p ∷ ps) n =
    let rest = first_unnamed ps (n + 1) in if has_name p then rest else some n

-- The rest of the loop after a Service; a request for a retry leaves the loop.
abbrev pub and_then : Reply → (Memo → Reply) → Reply
and_then r rest =
    let next = rest r.memo in
    if r.retry then r else record next { events = r.events ++ next.events }

module _ (default_namespace : Str) where
  -- `trigger_mux`
  unfoldable pub trigger_mux : Service → Bool → (ℕ → Queues) → Result Triggered
  unfolding wait_for_queue
  trigger_mux s no_raise seen = do
    mux ← mux_of_service default_namespace s
    ok (put_channel s no_raise mux (wait_for_queue seen mux 0 5))

  -- `handle_channel_service`
  unfoldable pub handle_channel_service : Service → Memo → (ℕ → Queues) → Reply
  unfolding trigger_mux first_unnamed
  handle_channel_service s memo later = elim (first_unnamed s.channel.ports 0) [
    | some n ↦ record { memo = memo; events = invalid_port n ∷ []; retry = false }
    | none ↦ reply memo false (trigger_mux s false (seen_at memo.mux_queues later))
  ]

  -- `channel_deletion`
  unfoldable pub channel_deletion : Service → Memo → (ℕ → Queues) → Reply
  unfolding trigger_mux
  channel_deletion s memo later =
      reply
        (record memo {
          endpoints =
              remove ServiceKey-discrete memo.endpoints (s.channel.namespace, s.channel.name);
        })
        true (trigger_mux s true (seen_at memo.mux_queues later))

  -- the body of the loop of `handle_endpoints`, for the Service of that name
  unfoldable pub handle_service : ServiceKey → List Subset → Service → Memo → (ℕ → Queues) → Reply
  unfolding trigger_mux
  handle_service k subsets s memo later =
      reply (record memo { endpoints = put ServiceKey-discrete memo.endpoints k subsets }) false
        (trigger_mux s false (seen_at memo.mux_queues later))

  -- `handle_endpoints`: the loop over the channel Services of the namespace
  unfoldable pub handle_endpoints :
      ServiceKey → List Subset → List Service → Memo → (ℕ → ℕ → Queues) → Reply
  unfolding handle_service
  handle_endpoints k subsets [] memo later = record { memo = memo; events = []; retry = false }
  handle_endpoints k subsets (s ∷ services) memo later =
      let skipped_over = handle_endpoints k subsets services memo later in
      let handled =
        and_then (handle_service k subsets s memo (later (length services)))
          (λ m. handle_endpoints k subsets services m later) in
      ite (Str-discrete s.channel.name k.1) handled skipped_over

-- `mux_endpoints`
unfoldable pub mux_endpoints : ServiceKey → List Subset → Memo → Memo
mux_endpoints k subsets memo = record memo {
  endpoints = put ServiceKey-discrete memo.endpoints k subsets;
}

-- `mux_deletion`, of the memo
unfoldable pub mux_deletion : ServiceKey → Memo → Memo
mux_deletion k memo = record memo {
  mux_queues = remove ServiceKey-discrete memo.mux_queues k;
  endpoints = remove ServiceKey-discrete memo.endpoints k;
}
