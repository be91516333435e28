-- ===== src/Muxdebug/DiagnoseLaws.antt =====
-- Which pods `diagnose_route_failure` of `tools/muxdebug/debugger.py` takes for healthy.
use svc_lb_mux.Prelude.{true, Option, some, List, Str, codes, ◌≡◌, All}
use svc_lb_mux.Muxdebug.Client.{Completed}
use svc_lb_mux.Muxdebug.Routes.{PodInfo, PortRoute}
use svc_lb_mux.Muxdebug.Checks.{Declares, IsSeen}
use svc_lb_mux.Muxdebug.Diagnose.{ContainerStatus, Attempt, returned, Pod, port_check_commands}

module _ (get_pod : Str → Str → Attempt (Option Pod))
    (exec_pod : Str → Str → List Str → Attempt Completed) (route : PortRoute) where
  -- The pod can be read and runs, its containers are ready, one of them declares the port of the
  -- channel, and one of the commands sees the port, where those before it ran, saw nothing and were
  -- not denied.
  abbrev pub IsHealthy : PodInfo → Type 0
  IsHealthy pod_info =
      (pod : Pod) × (get_pod pod_info.name pod_info.namespace ≡ returned (some pod))
      × (pod.phase ≡ some (codes "Running"))
      × All (λ (c : ContainerStatus). c.ready ≡ true) pod.container_statuses
      × Declares route.channel_port pod.containers
      × IsSeen exec_pod pod_info (port_check_commands route.channel_port)

abbrev pub network_issue : Str
network_issue = codes "Network connectivity issue: TCP connection failed but pods appear healthy"
