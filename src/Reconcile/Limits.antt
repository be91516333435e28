-- ===== src/Reconcile/Limits.antt =====
-- How many ports a mux may have: `requested_max_ports` to `would_exceed_mux_port_limit` of
-- `src/reconcile.py`.
use svc_lb_mux.Prelude.{
  ℕ, suc, ◌+◌, Bool, true, false, ◌||◌, Option, none, some, List, [], ◌∷◌, ltb, if◌then◌else◌, Str,
  codes, Str-discrete, after_prefix, int_of_text, is_empty, any, length, ℤ, pos, Result, ok, err,
  ◌>>=◌, bad_max_ports,
}
use svc_lb_mux.Prelude.Dict.{keys, member}
use svc_lb_mux.Model.{Channel, MuxPort, or_empty, annotation_max_ports, annotation_of}
use svc_lb_mux.Model.{Mux}

-- `GKE_SERVICE_LOADBALANCER_MAX_PORTS`
abbrev pub gke_max_ports : ℕ
gke_max_ports = 100

-- `GKE_LOAD_BALANCER_CLASS_PREFIX` and `GKE_PROVIDER_ANNOTATIONS`
unfoldable pub gke_class_prefix : Str
gke_class_prefix = codes "networking.gke.io/"

unfoldable pub gke_provider_annotations : List Str
gke_provider_annotations =
    codes "cloud.google.com/l4-rbs"
    ∷ codes "networking.gke.io/load-balancer-type"
    ∷ codes "networking.gke.io/load-balancer-ip-addresses"
    ∷ []

abbrev pub positive : Option ℤ → Result (Option ℕ)
positive (some (pos (suc n))) = ok (some (suc n))
positive _ = err bad_max_ports

-- `requested_max_ports`
unfoldable pub requested_max_ports : Mux → Result (Option ℕ)
requested_max_ports mux =
    let value = annotation_of mux.annotations annotation_max_ports in
    if is_empty value then ok none else positive (int_of_text value)

abbrev pub has_prefix : Option Str → Bool
has_prefix none = false
has_prefix (some _) = true

-- `is_gke_load_balancer_service`
unfoldable pub is_gke_load_balancer_service : Mux → Bool
is_gke_load_balancer_service mux =
    has_prefix (after_prefix gke_class_prefix (or_empty mux.load_balancer_class))
    || any (λ k. member Str-discrete k (keys mux.annotations)) gke_provider_annotations

abbrev pub cap_at : ℕ → Option ℕ → Option ℕ
cap_at limit none = some limit
cap_at limit (some n) = if ltb limit n then some limit else some n

-- `effective_mux_max_ports`
unfoldable pub effective_mux_max_ports : Mux → Result (Option ℕ)
effective_mux_max_ports mux = do
  max_ports ← requested_max_ports mux
  ok (if is_gke_load_balancer_service mux then cap_at gke_max_ports max_ports else max_ports)

-- The two warnings of `gke_max_ports_warning`.
pub data Warning : Type 0 where
  limit_applied : Warning
  limit_lowered : ℕ → Warning

abbrev pub warning_for : Option ℕ → Option Warning
warning_for none = some limit_applied
warning_for (some n) = if ltb gke_max_ports n then some (limit_lowered n) else none

-- `gke_max_ports_warning`
unfoldable pub gke_max_ports_warning : Mux → Result (Option Warning)
gke_max_ports_warning mux =
    if is_gke_load_balancer_service mux
    then (do configured ← requested_max_ports mux; ok (warning_for configured))
    else ok none

-- `would_exceed_mux_port_limit`
unfoldable pub would_exceed_mux_port_limit : List MuxPort → Channel → Option ℕ → Bool
would_exceed_mux_port_limit current_ports channel none = false
would_exceed_mux_port_limit current_ports channel (some max_ports) =
    ltb max_ports (length current_ports + length channel.ports)
