-- ===== src/Lib.antt =====
-- A model of the Kubernetes controller svc-lb-mux, which lets many LoadBalancer Services (channels)
-- share the load balancer of one Service (the mux), with theorems about its core.
--
-- The parts of the program and their modules:
-- - `Model`: the value objects of `src/models.py`, the constants of `src/config.py`, the objects that
--   the controller reads (`Channel` is a channel Service, `Port` an element of its `spec.ports`,
--   `Mux` the mux Service) and `PortAllocationRef` of `src/port_allocations.py`.
-- - `Utils`: `src/utils.py`. `Annotations`: `src/annotations.py`, the port mappings (`Mappings`) and the
--   texts for a reader (`Topology`). `Refs`: `src/refs.py`.
-- - `PortAllocations`: `src/port_allocations.py`, the port ranges (`Ranges`), the older `PortAllocator`
--   (`Allocator`) and the ConfigMap store of the state (`Store`).
-- - `MuxState`: the class `MuxState` of `src/mux_state.py`, the persisted claims of external ports.
--   `Defs` has `allocate` and what it calls, `Lifecycle` the constructor, `record_channel_claims`
--   and `to_state`. `Used`, `Free`, `Found`, `Allocate` and `Distinct` prove what
--   `allocate` promises, `Restart` which claims the constructor keeps, `Stored` and `Reload` that the
--   saved document is read back, `Survive` that an allocated port outlives a restart.
-- - `Reconcile`: the pure steps of `src/reconcile.py`: the requested ports of a channel
--   (`ExternalPorts`), the limit of a GKE load balancer (`Limits`), the recovery of owners from what
--   was already applied (`Owners`), the conflicts between channels (`Conflicts`), the generated
--   endpoints (`Endpoints`), the external-dns annotations (`ExternalDns`).
-- - `Controller`: the loop body of `mux_daemon` of `src/controller.py`, up to the ports and the saved
--   state (`Pass.iterate`), and the theorems about a whole pass. A pass reads the channels of a mux
--   in their order, recovers owners, builds the `MuxState`, and for each channel checks the limit,
--   resolves its ports (which may allocate), checks conflicts and accepts the channel. `Publish` has
--   the rest of the loop body: the annotations, ports and Endpoints that are patched. `Handlers` has
--   the filters, the indices and the handlers of kopf over the shared memo; `trigger_mux` polls a
--   table of queues that other threads may fill between its attempts. `Returns` to `Total` are about
--   which calls of an iteration return a value instead of raising, `ChannelLaws` and `HandlerLaws`
--   about the handlers, `PublishLaws` and `Applied` about the patches.
-- - `Debug`: `src/debug_state.py`, what the debug page shows: the last events (`Events`), the muxes,
--   channels and endpoints (`State`, `Updates`), the views (`Topology`). `EventSearch` to `Reachable`
--   and `TopologyLaws` have the theorems; `Reachable` is the relation of the states that the methods
--   lead to. The controller calls it with its memo and its index of the channels of a mux.
-- - `Web`: the middlewares that guard the page (`Guard`, of `src/debug_auth.py`,
--   `src/debug_security.py` and `src/debug_routes.py`) and its test of a connection (`TestTcp`).
-- - `Events`: `src/events.py`, the events of the Kubernetes API: the cache of bounded length
--   (`CacheDict`), and the choice between a patch and a new event (`Record`), with their theorems in
--   `CacheLaws` and `RecordLaws`. It hands each event on to the debug page.
-- - `Muxdebug`: `tools/muxdebug`, the command-line debugger, which reads what the controller wrote:
--   `Client` is `k8s_client.py` over `kubectl` as a parameter, `Parse`, `Routes`, `Find` and
--   `Diagnose` are `debugger.py` with the data classes of `types.py`, over the reads of a client;
--   `PodLaws` to `FindLaws` say which routes are found, `CommandLaws` to `DiagnoseLaws` which pods
--   are healthy.
-- - `Prelude`: text as lists of code points with Python's string methods, integers with `int()` and
--   `str()`, dictionaries in their order of insertion, a stable sort, results of code that raises.
--   `Tests` runs the model at concrete inputs.
--
-- State is passed explicitly: a method of `MuxState` takes the state and returns the new one, also
-- where it raises. An exception is a value of `Error`, one constructor for each place that raises;
-- the texts of messages are not modelled. An event of the controller is a value of `Event` in the
-- order of emission. Sets are lists that are read by membership.
--
-- Choices and bounds:
-- - `hex`, the hexadecimal SHA-256 digest, is a parameter, of which a theorem uses at most that a
--   digest has at least the seven characters that the program keeps.
-- - Every loop is structural. `str()` of a number runs on its digits with the number as fuel, which
--   is enough, as its round trip with `int()` for numbers below 100000 shows; port numbers are below
--   65536. The loop that ejects from the cache of events is `eject`, and again round by round with a
--   bound in `eject_loop`.
-- - `int()` reads ASCII digits, with sign, underscores and white space as in Python; the digits of
--   other scripts, and lower case outside ASCII, are not modelled.
-- - The API prefix has its default value. `DRYRUN_MODE` is off.
-- - The JSON text of the state ConfigMap is modelled as the document in it (`StoredDocument`); the
--   pass takes the result of loading it as an input. A stored claim may lack each of its keys;
--   `read_document` reads them, and raises, as the constructor of `MuxState` does. A port value is
--   null, an integer or text. A stored claim and a document have no keys but those of the code.
-- - How the API server answers the patches of a channel is a parameter of the pass (`Cluster`), which
--   ends the iteration where one is refused.
-- - The handler behind the middlewares of the debug page may raise, which is `none`; what the server
--   makes of that, behind all middlewares, is not modelled.
-- - An address of an endpoint is its IP; the other fields of it are passed on unchanged by the program.
-- - `json.dumps` and `json.loads`, and the API server's merge of a patch into a ConfigMap, are
--   parameters of the definitions that use them.
--
-- Not modelled: `config.py`'s reading of the environment, the waiting of the daemon for its queue, its
-- calls of `update_mux_state` before an iteration, the owner references of the Endpoints, a failure
-- while the state is saved, the HTTP server of the debug page and its static answers, alerting, and of
-- the debugger what it prints, its sockets and `p2p_tester.py`: they are input and output around the
-- parts above.
pub mod Prelude
pub mod Model
pub mod Utils
pub mod Annotations
pub mod Refs
pub mod PortAllocations
pub mod MuxState
pub mod Reconcile
pub mod Controller
pub mod Debug
pub mod Events
pub mod Muxdebug
pub mod Web
pub mod Tests
