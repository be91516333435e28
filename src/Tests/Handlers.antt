-- ===== src/Tests/Handlers.antt =====
-- Tests of the handlers.
use svc_lb_mux.Reconcile.Endpoints.{ServiceKey-discrete}
use svc_lb_mux.Controller.Handlers.{
  Service, Queues, Memo, not_ready, mux_of_service, trigger_mux, handle_channel_service,
}
use svc_lb_mux.Controller.HandlerLaws.{trigger_mux-not_ready}
use svc_lb_mux.Controller.ChannelLaws.{Handled, handle_channel_service-Handled}
use svc_lb_mux.Prelude.{◌<◌}
use svc_lb_mux.Model.{has_name}
use svc_lb_mux.Prelude.{
  ℕ, zero, suc, ◌<◌, ◌≡◌, refl, true, false, none, some, List, [], ◌∷◌, ◌↔◌, codes, split,
  after_prefix, ok,
}
use svc_lb_mux.Prelude.Dict.{get}
use svc_lb_mux.Model.{
  Value, null, int, text, int_of, Port, Channel, MuxPort, MuxPort-discrete, PortKey,
  PortKey-discrete, PortAllocationRef, from_channel_port, key, or_tcp, or_empty, has_name, checked,
  annotation_ports, annotation_external_ports, annotation_external_dns_hostname,
  annotation_external_dns_aggregated, annotation_max_ports, annotation_key, tcp, Annotations,
  annotation_of, channel_leb,
}
use svc_lb_mux.Model.{Mux}
use svc_lb_mux.Refs.{get_mux_from_lb_class}
use svc_lb_mux.Tests.Fixtures.{web, mux_one}

abbrev mux_service : Service
mux_service = record {
  channel = web;
  type = some (codes "LoadBalancer");
  selector = true;
  load_balancer_class = some (codes "svc-mux.nowake.ai/m-1");
}

mux_one_valid : mux_of_service (codes "n") mux_service ≡ ok mux_one
unfolding mux_of_service get_mux_from_lb_class after_prefix svc_lb_mux.Model.api_prefix split
mux_one_valid = refl

abbrev waiting : Memo
waiting = record { mux_queues = (mux_one, []) ∷ []; endpoints = [] }

trigger_mux-not_ready_example :
    (trigger_mux (codes "n") mux_service false (λ i. []) ≡ ok not_ready)
    ↔ ((i : ℕ) → i < 5 → get {V = List Service} ServiceKey-discrete [] mux_one ≡ none)
trigger_mux-not_ready_example =
    trigger_mux-not_ready (codes "n") mux_service (λ i. []) mux_one mux_one_valid

-- the queue is there at the third attempt
abbrev at_third : ℕ → Queues
at_third zero = []
at_third (suc i) = waiting.mux_queues

abbrev empty_memo : Memo
empty_memo = record { mux_queues = []; endpoints = [] }

handle_channel_service-Handled_example :
    Handled
      (codes "n")
      mux_service
      empty_memo
      at_third
      (handle_channel_service (codes "n") mux_service empty_memo at_third)
handle_channel_service-Handled_example =
    handle_channel_service-Handled (codes "n") mux_service empty_memo at_third

appended_late : (handle_channel_service (codes "n") mux_service empty_memo at_third).retry ≡ false
unfolding handle_channel_service mux_of_service get_mux_from_lb_class after_prefix
    svc_lb_mux.Model.api_prefix split get ServiceKey-discrete
appended_late = refl
