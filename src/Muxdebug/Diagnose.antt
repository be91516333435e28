-- ===== src/Muxdebug/Diagnose.antt =====
-- `diagnose_route_failure` of `tools/muxdebug/debugger.py`. The answers of the client are parameters,
-- and may be exceptions, which the function catches.
use svc_lb_mux.Prelude.{
  Bool, true, false, not, ◌&&◌, ◌||◌, Option, none, some, List, [], ◌∷◌, ◌++◌, ite, if◌then◌else◌,
  Str, codes, Str-discrete, strip, lower, partition, join, is_empty, ℤ, ℤ-discrete, any, map,
}
use svc_lb_mux.Model.{Value, null, int, text}
use svc_lb_mux.Annotations.Mappings.{show_value}
use svc_lb_mux.Debug.State.{text_or}
use svc_lb_mux.Muxdebug.Client.{Completed}
use svc_lb_mux.Muxdebug.Routes.{PodInfo, PortRoute}

-- A call of the client: the text of an exception, or what it returns.
pub data Attempt (A : Type 0) : Type 0 where
  raised : Str → Attempt A
  returned : A → Attempt A

-- A container's status, its state as pairs of texts.
pub record ContainerStatus : Type 0 where
  pub ready : Bool
  pub name : Option Str
  pub state : List (Str × Str)

-- A pod; of each container, its ports.
pub record Pod : Type 0 where
  pub phase : Option Str
  pub container_statuses : List ContainerStatus
  pub containers : List (List ℤ)

abbrev pub pod_name_of : PodInfo → Str
pod_name_of pod_info = pod_info.namespace ++ b'/' ∷ pod_info.name

abbrev pub state_text : Str × Str → Str
state_text s = s.0 ++ codes ": " ++ s.1

abbrev pub unready_text : ContainerStatus → Str
unready_text container =
    text_or container.name (codes "unknown")
    ++ codes " ("
    ++ join (codes ", ") (map state_text container.state)
    ++ codes ")"

-- `not_ready_containers`
unfoldable pub unready_texts : List ContainerStatus → List Str
unready_texts [] = []
unready_texts (container ∷ containers) =
    let rest = unready_texts containers in
    if container.ready then rest else unready_text container ∷ rest

abbrev pub is_port : Value → ℤ → Bool
is_port null port = false
is_port (int channel_port) port = ite (ℤ-discrete port channel_port) true false
is_port (text s) port = false

-- `port_found_in_spec`
abbrev pub is_declared : Value → List (List ℤ) → Bool
is_declared channel_port containers = any (any (is_port channel_port)) containers

-- `grep ':{route.channel_port} '`
abbrev pub grep : Value → Str
grep channel_port = codes "grep ':" ++ show_value channel_port ++ codes " '"

abbrev pub shell : Str → List Str
shell command = codes "sh" ∷ codes "-c" ∷ command ∷ []

abbrev pub port_check_commands : Value → List (List Str)
port_check_commands channel_port =
    shell (
      codes "netstat -tln 2>/dev/null | "
      ++ grep channel_port
      ++ codes " || ss -tln 2>/dev/null | "
      ++ grep channel_port)
    ∷ shell (codes "ss -tln | " ++ grep channel_port)
    ∷ shell (codes "netstat -tln | " ++ grep channel_port)
    ∷ []

-- `part in s`
abbrev pub is_part : Str → Str → Bool
is_part part s = elim (partition part s) [ none ↦ false | some halves ↦ true ]

abbrev pub is_denied : Completed → Bool
is_denied result =
    is_part (codes "permission denied") (lower result.stderr)
    || is_part (codes "not permitted") (lower result.stderr)

abbrev pub is_listening : Completed → Bool
is_listening result = result.succeeded && not (is_empty (strip result.stdout))

module _ (exec_pod : Str → Str → List Str → Attempt Completed) (pod_info : PodInfo) where
  -- The loop over the commands: whether one saw the port, and whether one before it was denied.
  unfoldable pub check_port : List (List Str) → Bool → Attempt (Bool × Bool)
  check_port [] permission_denied = returned (false, permission_denied)
  check_port (cmd ∷ cmds) permission_denied = elim (exec_pod pod_info.name pod_info.namespace cmd) [
    | raised e ↦ raised e
    | returned result ↦ elim (is_listening result) [
      | true ↦ returned (true, permission_denied)
      | false ↦ check_port cmds (permission_denied || is_denied result)
    ]
  ]

abbrev pub error_text : PodInfo → Str → Str
error_text pod_info e = codes "Error diagnosing pod " ++ pod_name_of pod_info ++ codes ": " ++ e

-- What the check of the port adds.
abbrev pub check_diagnoses : PodInfo → Value → Attempt (Bool × Bool) → List Str
check_diagnoses pod_info channel_port (raised e) = error_text pod_info e ∷ []
check_diagnoses pod_info channel_port (returned (port_listening, true)) =
    (codes "Permission denied when checking port: " ++ pod_name_of pod_info) ∷ []
check_diagnoses pod_info channel_port (returned (true, false)) = []
check_diagnoses pod_info channel_port (returned (false, false)) =
    (codes "Port "
      ++ show_value channel_port
      ++ codes " not listening in pod: "
      ++ pod_name_of pod_info)
    ∷ []

abbrev pub spec_diagnoses : PodInfo → Value → Bool → List Str
spec_diagnoses pod_info channel_port true = []
spec_diagnoses pod_info channel_port false =
    (codes "Port "
      ++ show_value channel_port
      ++ codes " not defined in pod spec: "
      ++ pod_name_of pod_info)
    ∷ []

-- What the unready containers add, or else the checks behind them.
abbrev pub container_diagnoses : PodInfo → List Str → List Str → List Str
container_diagnoses pod_info [] checks = checks
container_diagnoses pod_info (container ∷ containers) checks =
    (codes "Pod has unready containers: "
      ++ pod_name_of pod_info
      ++ codes " - "
      ++ join (codes ", ") (container ∷ containers))
    ∷ []

abbrev pub is_running : Str → Bool
is_running phase = ite (Str-discrete phase (codes "Running")) true false

module _ (get_pod : Str → Str → Attempt (Option Pod))
    (exec_pod : Str → Str → List Str → Attempt Completed) (route : PortRoute) where
  abbrev pub found_diagnoses : PodInfo → Pod → List Str
  found_diagnoses pod_info pod =
      let phase = text_or pod.phase (codes "Unknown") in
      if is_running phase
      then container_diagnoses pod_info (unready_texts pod.container_statuses) (
          spec_diagnoses pod_info route.channel_port (is_declared route.channel_port pod.containers)
          ++ check_diagnoses pod_info route.channel_port
              (check_port exec_pod pod_info (port_check_commands route.channel_port) false))
      else (codes "Pod not ready: "
          ++ pod_name_of pod_info
          ++ codes " is in "
          ++ phase
          ++ codes " phase")
        ∷ []

  abbrev pub read_diagnoses : PodInfo → Attempt (Option Pod) → List Str
  read_diagnoses pod_info (raised e) = error_text pod_info e ∷ []
  read_diagnoses pod_info (returned none) = (codes "Pod not found: " ++ pod_name_of pod_info) ∷ []
  read_diagnoses pod_info (returned (some pod)) = found_diagnoses pod_info pod

  -- The loop over the target pods.
  unfoldable pub pod_diagnoses : List PodInfo → List Str
  unfolding check_port unready_texts
  pod_diagnoses [] = []
  pod_diagnoses (pod_info ∷ pods) =
      read_diagnoses pod_info (get_pod pod_info.name pod_info.namespace) ++ pod_diagnoses pods

  abbrev pub diagnosis_of : List PodInfo → List Str → Str
  diagnosis_of [] diagnoses = codes "No target pods found for this route"
  diagnosis_of (pod ∷ pods) [] =
      codes "Network connectivity issue: TCP connection failed but pods appear healthy"
  diagnosis_of (pod ∷ pods) (diagnosis ∷ diagnoses) = join (codes "; ") (diagnosis ∷ diagnoses)

  -- `diagnose_route_failure`; the function does not read its hostname
  unfoldable pub diagnose_route_failure : Str
  unfolding pod_diagnoses
  diagnose_route_failure = diagnosis_of route.target_pods (pod_diagnoses route.target_pods)
