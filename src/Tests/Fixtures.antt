-- ===== src/Tests/Fixtures.antt =====
-- The inputs that the tests share.
use svc_lb_mux.Reconcile.Endpoints.{ServiceKey}
use svc_lb_mux.Prelude.{
  Bool, true, false, none, some, [], ◌∷◌, ◌++◌, length-append, arith, Str, codes, pos, Result, ok,
  err,
}
use svc_lb_mux.Model.{
  int, Port, Channel, PortAllocationRef, from_channel_port, annotation_external_ports, Annotations,
}
use svc_lb_mux.MuxState.Defs.{MuxState, ref_owner}
use svc_lb_mux.Reconcile.ExternalDns.{external_dns_hostname}
use svc_lb_mux.Controller.Pass.{Cluster, Pass}
use svc_lb_mux.Controller.Exclusive.{IsDigest}

-- a digest for the tests
abbrev pub hex : Str → Str
hex s = s ++ codes "0000000"

pub hex-IsDigest : IsDigest hex
hex-IsDigest s = rw (length-append s (codes "0000000")) (omega arith)

abbrev pub http : Port
http = record { name = some (codes "a"); port = int (pos 80); protocol = none; node_port = none }

abbrev pub dns : Port
dns = record {
  name = some (codes "b");
  port = int (pos 53);
  protocol = some (codes "UDP");
  node_port = none;
}

abbrev pub web : Channel
web = record {
  namespace = codes "n";
  name = codes "w";
  annotations = (annotation_external_ports, codes "a:auto, b:5353") ∷ [];
  ports = http ∷ dns ∷ [];
}

abbrev pub api : Channel
api = record {
  namespace = codes "n";
  name = codes "v";
  annotations = (annotation_external_ports, codes "a:auto") ∷ [];
  ports = http ∷ [];
}

abbrev pub empty_state : MuxState
empty_state = record {
  mux_key = (codes "n", codes "m");
  ranges = (8000, 8001) ∷ [];
  active_keys = [];
  reserved_ports = [];
  reserved_port_owners = [];
  claims = [];
  changed = false;
}

abbrev pub web_ref : PortAllocationRef
web_ref = from_channel_port web http

abbrev pub web_owner : Str
web_owner = ref_owner hex web_ref

abbrev pub own_annotations : Annotations
own_annotations = (external_dns_hostname, codes "own.example") ∷ []

abbrev pub channel_annotations : Annotations
channel_annotations = (external_dns_hostname, codes "web.example") ∷ []

-- no Endpoints, and every patch is answered
abbrev pub quiet : Cluster
quiet = record { endpoints = []; patch_channel = λ c annotation. ok tt }

abbrev pub first_pass : Pass
first_pass = record {
  ports = [];
  owners = [];
  mux_state = empty_state;
  endpoints = [];
  accepted = [];
  events = [];
}

abbrev pub is_ok : {A : Type 0} → Result A → Bool
is_ok (err e) = false
is_ok (ok a) = true

abbrev pub mux_one : ServiceKey
mux_one = (codes "n", codes "m-1")
