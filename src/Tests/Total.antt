-- ===== src/Tests/Total.antt =====
-- Tests of when an iteration returns.
use svc_lb_mux.Prelude.{◌≡◌, refl, [], ◌∷◌, arith, All, ok, codes, false, none}
use svc_lb_mux.Model.{annotation_of, annotation_ports}
use svc_lb_mux.Annotations.Mappings.{parse_port_mappings}
use svc_lb_mux.PortAllocations.Store.{empty_document}
use svc_lb_mux.Controller.Pass.{iterate}
use svc_lb_mux.Controller.Returns.{IsReadableChannel, Returns}
use svc_lb_mux.Prelude.{some, pos}
use svc_lb_mux.Model.{int}
use svc_lb_mux.MuxState.Defs.{StoredClaim, StoredDocument}
use svc_lb_mux.Controller.Readable.{HasNamedEndpoints, IsReadableState}
use svc_lb_mux.Controller.Total.{iterate-Returns}
use svc_lb_mux.Tests.Fixtures.{quiet, hex, web}
use svc_lb_mux.Model.{Mux}

abbrev plain_mux : Mux
plain_mux = record {
  namespace = codes "n";
  name = codes "m";
  annotations = [];
  load_balancer_class = none;
}

no_annotation : parse_port_mappings (annotation_of web.annotations annotation_ports) ≡ ok []
unfolding parse_port_mappings svc_lb_mux.Prelude.Dict.get svc_lb_mux.Prelude.Str-discrete
    svc_lb_mux.Model.annotation_external_ports annotation_ports
no_annotation = refl

web-IsReadable : IsReadableChannel web
web-IsReadable = (
  (
    (((refl, tt), (omega arith, tt), (omega arith, tt)), (80, refl, refl)),
    ((((refl, tt), (omega arith, tt), (omega arith, tt)), (53, refl, refl)), tt),
  ),
  ([], no_annotation),
)

-- a stored claim of another channel, without a source
abbrev stored_claim : StoredClaim
stored_claim = record {
  namespace = some (codes "n");
  service = some (codes "v");
  port_name = some (codes "a");
  protocol = none;
  channel_port = none;
  mux_port = none;
  port = some (int (pos 8000));
  source = none;
}

abbrev stored_state : StoredDocument
stored_state = record empty_document { port_claims = some (stored_claim ∷ []) }

stored_state-IsReadable : IsReadableState (ok stored_state)
stored_state-IsReadable = ((((_, refl), (_, refl), (_, refl)), tt), tt)

web-HasNamedEndpoints : HasNamedEndpoints [] web
unfolding svc_lb_mux.Prelude.Dict.get
web-HasNamedEndpoints = tt

iterate-Returns_example :
    Returns (iterate hex quiet plain_mux [] (web ∷ []) false (ok stored_state))
iterate-Returns_example =
    iterate-Returns hex quiet plain_mux [] (web ∷ []) false (ok stored_state) (web-IsReadable, tt)
      (web-HasNamedEndpoints, tt) stored_state-IsReadable (λ c annotation. (tt, refl))
