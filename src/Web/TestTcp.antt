-- ===== src/Web/TestTcp.antt =====
-- The test of a connection from the debug page: `handle_test_tcp` and `_handle_tcp_result` of
-- `src/debug_routes.py`. What the socket gives is a parameter.
use svc_lb_mux.Prelude.{
  ℕ, zero, Bool, true, false, ◌&&◌, Option, none, some, List, [], ◌∷◌, ◌++◌, leb, if◌then◌else◌,
  Str, codes, show_nat, show_int, int_of_text, ℤ, pos, negsuc,
}
use svc_lb_mux.Debug.Events.{DebugEvent, record_event}

-- `connect_ex`'s error code, or the exception that is caught, with its text.
pub data TcpOutcome : Type 0 where
  code : ℤ → TcpOutcome
  name_error : Str → TcpOutcome
  timed_out : TcpOutcome
  other_error : Str → TcpOutcome

-- The JSON answer: its status, its `success`, and its `message` or `error`.
pub record TcpReply : Type 0 where
  pub status_code : ℕ
  pub success : Bool
  pub explanation : Str

abbrev pub refuse : ℕ → Str → TcpReply
refuse status_code error = record {
  status_code = status_code;
  success = false;
  explanation = error;
}

abbrev pub failed : Str → TcpReply
failed error = refuse 200 error

abbrev pub target : Str → ℕ → Str
target host port = host ++ b':' ∷ show_nat port

module _ (now : Str) (resource : Str) where
  abbrev pub connection_test : Str → Str → List DebugEvent → List DebugEvent
  connection_test event_type message events =
      record_event now event_type resource (codes "ConnectionTest: " ++ message) events

  -- `_handle_tcp_result` behind the connection: the answer, and the events
  unfoldable pub handle_tcp_result :
      Str → ℕ → TcpOutcome → List DebugEvent → TcpReply × List DebugEvent
  unfolding record_event
  handle_tcp_result host port (code (pos zero)) events = (
    record {
      status_code = 200;
      success = true;
      explanation = codes "Connected to " ++ target host port;
    },
    connection_test (codes "Normal") (codes "Successfully connected to " ++ target host port)
        events,
  )
  handle_tcp_result host port (code n) events = (
    failed (codes "Connection failed with error code " ++ show_int n),
    connection_test (codes "Warning")
        (codes "Connection failed to "
          ++ target host port
          ++ codes " (error code "
          ++ show_int n
          ++ codes ")")
        events,
  )
  handle_tcp_result host port (name_error e) events = (
    failed (codes "DNS resolution failed: " ++ e),
    connection_test (codes "Warning")
        (codes "DNS resolution failed for " ++ target host port ++ codes " - " ++ e) events,
  )
  handle_tcp_result host port timed_out events = (
    failed (codes "Connection timeout"),
    connection_test (codes "Warning") (codes "Connection timeout to " ++ target host port) events,
  )
  handle_tcp_result host port (other_error e) events = (
    failed (codes "Unexpected error: " ++ e),
    connection_test (codes "Error")
        (codes "Unexpected error testing " ++ target host port ++ codes " - " ++ e) events,
  )

module _ (now : Str) (connect : Str → ℕ → TcpOutcome) (host resource : Str) where
  abbrev pub test_number : Option ℤ → List DebugEvent → TcpReply × List DebugEvent
  test_number none events = (refuse 400 (codes "Invalid port"), events)
  test_number (some (negsuc n)) events = (refuse 400 (codes "Port out of range"), events)
  test_number (some (pos port)) events =
      if leb 1 port && leb port 65535
      then handle_tcp_result now resource host port (connect host port) events
      else (refuse 400 (codes "Port out of range"), events)

-- `not value`
abbrev pub filled : Option Str → Option Str
filled none = none
filled (some []) = none
filled (some (c ∷ s)) = some (c ∷ s)

module _ (now : Str) (connect : Str → ℕ → TcpOutcome) (resource : Str) where
  abbrev pub test_target : Option Str → Option Str → List DebugEvent → TcpReply × List DebugEvent
  test_target none port events = (refuse 400 (codes "Missing host or port"), events)
  test_target (some host) none events = (refuse 400 (codes "Missing host or port"), events)
  test_target (some host) (some port) events =
      test_number now connect host resource (int_of_text port) events

  -- `handle_test_tcp`
  unfoldable pub handle_test_tcp :
      Bool → Option Str → Option Str → List DebugEvent → TcpReply × List DebugEvent
  unfolding handle_tcp_result
  handle_test_tcp actions_enabled host port events =
      if actions_enabled
      then test_target (filled host) (filled port) events
      else (refuse 403 (codes "Debug actions are disabled"), events)
