-- ===== src/Lib.antt =====
-- The health and event handling of CORTX HA, and its theorems.
--
-- The program watches Kubernetes, turns what it sees into health alerts on a message bus, filters and
-- parses those into health events, keeps the health of each component of the cluster, derives the
-- health of racks, sites and the cluster, and acts on health events by rules that components set when
-- they subscribe. Each part is a module; functions are named as in the source.
--
-- - Prelude: shared helpers. Prelude/Raising has exceptions as values and `Result`; Prelude/Acting
--   steps on a state that may raise, where what was written before an exception stays written;
--   Prelude/Dict Python's dictionaries with text keys; Prelude/Lists and Prelude/Text lists and texts.
-- - Json: documents of the `json` module. A text that `json.dumps` writes is its document.
-- - K8s: ha/monitor/k8s. K8s/Alert is the payload of an alert, K8s/Parser the two parsers of watch
--   events (parser.py) with the cache of readiness, K8s/Monitor the loop of a monitor thread
--   (object_monitor.py) with its table of published alerts. A run is a list of events; what the stop
--   key and the SIGTERM flag are at each event is part of it.
-- - Bus: `MessageBusConsumer.run` (ha/util/message_bus.py), the loop that processes messages and the one
--   that flushes them. A run is two lists of rounds, which say what the bus and the callback answer; the
--   result is the trace of actions. It is structural in these lists, so it needs no fuel.
-- - Events: ha/core/event_analyzer and the callback of ha/fault_tolerance/fault_monitor.py.
--   Events/Filter, Events/Parser and Events/Watcher are filter.py, parser.py and watcher.py with
--   `EventAnalyzer`. The subscriber is an argument with a state of its own.
-- - Health: ha/core/system_health. Health/Event and Health/EntityHealth are its model, Health/StatusMapper,
--   Health/Rules and Health/Hierarchy its mapper, the rules of its evaluators and its hierarchy.
--   Health/Keys has the components and keys of system_health_metadata.py, Health/Updates what an event
--   makes of a stored value, Health/System `SystemHealth.process_event` over the store, and
--   Health/Evaluators the evaluators' reading of it.
-- - Store: `ConsulKvStore` (ha/util/consul_kv_store.py). Consul is not part of the repository: it is a
--   record of operations (Store/Services) with the laws that its documentation states. A recursive
--   read answers all keys that start with the one asked for, so the contract in
--   Store/KvStore/Contract is about keys that no other key starts with. Store/ClusterStop is the
--   callback of ha/fault_tolerance/cluster_stop_monitor.py.
-- - Actions: the rules of ha/core/health_monitor/monitor_rules_manager.py, the handlers and their
--   factory (ha/core/action_handler), and `HealthMonitorService.process_event`.
-- - Manager: `EventManager` (ha/core/event_manager/event_manager.py) over the store, the rules and a
--   message bus.
-- - Pcs: the `Waiter` of ha/pcswrap/pcswrap/internal/waiter.py; its bound of one round more than the
--   seconds of the timeout is enough, since each pause takes a second at least. Pcs/Client is the
--   `Client` of client.py, over the connector as a record of operations.
-- - Validator: checks of `ClusterTestAdapter` (ha/setup/cluster_validator/cluster_test.py), on the lists
--   that it reads.
-- - Controllers: ha/core/controllers/pcs with ha/execute.py and controller_annotation.py. Controllers/Shell
--   runs commands in a world that is a parameter, as are the process, the sleep and the XML of pcs;
--   Controllers/Pcs, Controllers/Node, Controllers/Cluster and Controllers/Status are `PcsController`,
--   `PcsNodeController` with `PcsVMNodeController`, `PcsClusterController` and `PcsClusterStatus`. The
--   children of Controllers/Cluster have its start, stop, standby and active, the joining of nodes and
--   destroy_cluster; Controllers/Node/Modes has the node's standby and active. Loops recur on the rounds
--   that the source allows; `destroy_cluster`, which calls itself without a bound of its own, takes the
--   calls that Python's limit on recursion leaves, and answers as the handler of exceptions does where
--   none is left.
-- - Agents: ha/resource/alert_monitor_resource_agent.py. Agents/Alerts has the two agents over the
--   files of the host and the decision monitor of cortx-utils, whose answers are parameters.
-- - Tests: every theorem with conditions, at an input where they hold.
--
-- The parts meet at these places: a watcher's parser gives the events of Health/Event and its filter
-- and parser raise the exceptions of Prelude/Raising; its status is that of Bus/Consumer; the service
-- in Actions reads rules through Store and publishes through Manager; Health/System is the subscriber
-- of a watcher and sends the events that the service in Actions receives.
--
-- Parameters: the health event class and the attribute names of cortx-utils (K8s/Alert, Events/Attrs),
-- Consul and the message bus, the decision monitor of cortx-utils, and the connector of pcswrap. Numbers
-- in documents are naturals. The look-up of a disk's CVG in the keys of the store is an argument of `process_event`.
--
-- Not modelled: the status documents of `get_status`, the connector of pcswrap, the resource agents of
-- services, the controllers of hardware nodes and of services, setup, command line and support
-- bundles, threads, logs and daemons.
mod Prelude
mod Json
pub mod Health
pub mod K8s
pub mod Bus
pub mod Events
pub mod Store
pub mod Actions
pub mod Manager
pub mod Pcs
pub mod Validator
pub mod Controllers
pub mod Agents
mod Tests
