-- ===== src/Tests/EvaluatorRuns.antt =====
-- Runs of the evaluators and of the cluster stop monitor.
use cortx_ha.Prelude.{
  String, ◌≡◌, refl, List, [], ◌∷◌, contains, none, some, false, append, occurs_in, is_start,
}
use cortx_ha.Prelude.{Result, ok}
use cortx_ha.Prelude.Dict
use cortx_ha.Json.{Json, str, num, null, obj, field, end, subscript}
use cortx_ha.Health.Event.{HealthEvent}
use cortx_ha.Health.Hierarchy.{get_next_components}
use cortx_ha.Health.Keys.{prepare_key, components, key_of, put_comp_id, fill}
use cortx_ha.Health.Rules.{StatusMap}
use cortx_ha.Health.EntityHealth.{EntityEvent, EntityHealth, write}
use cortx_ha.Health.Rules.Quorum.{Majority}
use cortx_ha.Health.Evaluators.{evaluate_rack}
use cortx_ha.Health.Evaluators.Below.{Names, here, later, Named}
use cortx_ha.Health.Evaluators.Statuses.{HaveStatuses, evaluate_rack-HaveStatuses}
use cortx_ha.Store.Key.{prepare_key as store_key, split_on}
use cortx_ha.Store.Services.{Stored, plain, document, under}
use cortx_ha.Store.ClusterStop.{cluster_stop_key, cluster_stop_val_enable}
use cortx_ha.Store.ClusterStop.Stopping.{Acknowledges, process_message-Acknowledges}
use cortx_ha.Tests.ListConsul.{Cluster, list_consul, list_laws, prefix}

abbrev seen : String → EntityEvent
seen status = record {
  event_timestamp = str "7";
  created_timestamp = str "8";
  status = str status;
  specific_info = null;
}

abbrev health : String → EntityHealth
health status = record { events = seen status ∷ []; action = none; attributes = end }

abbrev node_entry : String → String → String × Stored
node_entry id status = (id, document (write (health status)))

abbrev two_nodes : Cluster
two_nodes = (
  node_entry "cortx>ha>v1>cortx>ha>system>cluster>c>site>1>rack>2>node>n1>health" "online"
      ∷ node_entry "cortx>ha>v1>cortx>ha>system>cluster>c>site>1>rack>2>node>n2>health" "failed"
      ∷ [],
  [],
)

abbrev from_node : HealthEvent
from_node = record {
  source = str "monitor";
  event_id = str "1";
  event_type = str "failed";
  severity = str "error";
  site_id = str "1";
  rack_id = str "2";
  cluster_id = str "c";
  storageset_id = str "n2";
  node_id = str "n2";
  host_id = str "n2";
  resource_type = str "node";
  timestamp = str "7";
  resource_id = str "n2";
  specific_info = null;
}

abbrev levels : List String
levels = "cluster" ∷ "site" ∷ "rack" ∷ "node" ∷ []

abbrev node_statuses : StatusMap
node_statuses = ("n1", str "online") ∷ ("n2", str "failed") ∷ []

abbrev rack_args : Dict.Dict Json
rack_args = ("rack_id", str "2") ∷ ("cluster_id", str "c") ∷ ("site_id", str "1") ∷ []

below_rack : get_next_components levels "rack" ≡ "node" ∷ []
unfolding get_next_components
below_rack = refl

abbrev rack_dir : String
rack_dir = "cortx>ha>system>cluster>c>site>1>rack>2"

rack_keyed :
    prepare_key "rack" (
      ("comp_id", str "2")
      ∷ ("cluster_id", str "c")
      ∷ ("site_id", str "1")
      ∷ ("comp_type", str "rack")
      ∷ [])
    ≡ ok (append ">" (append rack_dir ">health"))
unfolding prepare_key components key_of split_on Dict.get put_comp_id fill
rack_keyed = refl

rack_entries : under (store_key prefix rack_dir) (two_nodes.0) ≡ two_nodes.0
unfolding under store_key
rack_entries = refl

no_suffix : occurs_in ">health" (append ">" rack_dir) ≡ false
unfolding occurs_in is_start
no_suffix = refl

id_in_key :
    (id : String)
    → Names "node"
        ("cortx" ∷ "ha" ∷ "v1" ∷ "cortx" ∷ "ha" ∷ "system" ∷ "cluster" ∷ "c" ∷ "site" ∷ "1" ∷ "rack"
          ∷ "2" ∷ "node" ∷ id ∷ "health" ∷ [])
        (some id)
id_in_key id = later refl (
    later refl (
      later refl (
        later refl (
          later refl (
            later refl (
              later refl
                (later refl (later refl (later refl (later refl (later refl (here))))))))))))

rack_names : Named "node" (two_nodes.0) (some "n1" ∷ some "n2" ∷ [])
unfolding split_on
rack_names = (id_in_key "n1", (id_in_key "n2", tt))

nodes_have :
    HaveStatuses list_consul prefix levels list_laws two_nodes "node" rack_args node_statuses
unfolding prepare_key components key_of split_on Dict.get put_comp_id fill under store_key
nodes_have = (
  record {
    key = ">cortx>ha>system>cluster>c>site>1>rack>2>node>n1>health";
    health = health "online";
    last_event = seen "online";
    older = [];
    keyed = refl;
    stored = refl;
    history = refl;
    latest = refl;
  },
  (
    record {
      key = ">cortx>ha>system>cluster>c>site>1>rack>2>node>n2>health";
      health = health "failed";
      last_event = seen "failed";
      older = [];
      keyed = refl;
      stored = refl;
      history = refl;
      latest = refl;
    },
    tt,
  ),
)

evaluate_rack-HaveStatuses_example :
    (verdict : String) × Majority verdict node_statuses
    × (evaluate_rack list_consul prefix levels from_node two_nodes ≡ (
      two_nodes,
      ok (record from_node {
        event_type = str verdict;
        resource_type = str "rack";
        resource_id = str "2";
        specific_info = null;
      }),
    ))
unfolding contains
evaluate_rack-HaveStatuses_example =
    evaluate_rack-HaveStatuses list_consul prefix levels list_laws two_nodes from_node rack_dir
      (node_entry "cortx>ha>v1>cortx>ha>system>cluster>c>site>1>rack>2>node>n1>health" "online")
      (node_entry "cortx>ha>v1>cortx>ha>system>cluster>c>site>1>rack>2>node>n2>health" "failed"
        ∷ [])
      (some "n1" ∷ some "n2" ∷ []) node_statuses below_rack rack_keyed no_suffix rack_entries
      rack_names refl (λ e. cc) nodes_have

abbrev running : Cluster
running = ([], [])

no_stop_key : under (store_key prefix cluster_stop_key) (running.0) ≡ []
unfolding under
no_stop_key = refl

abbrev shutdown : Result Json
shutdown = ok (obj (field "start_cluster_shutdown" (num 1) end))

process_message-Acknowledges_example :
    Acknowledges list_consul prefix list_laws running
      (some (plain cluster_stop_val_enable))
      shutdown
unfolding subscript
process_message-Acknowledges_example =
    process_message-Acknowledges list_consul prefix list_laws running none shutdown no_stop_key
