-- ===== src/Tests/ClientRuns.antt =====
-- Runs of the client of pcs on a cluster of two nodes.
use cortx_ha.Prelude.{ℕ, zero, suc, ◌-◌, ◌≡◌, refl, true, false, List, [], ◌∷◌, some, arith}
use cortx_ha.Prelude.{ok}
use cortx_ha.Prelude.Acting.{pure, for_each}
use cortx_ha.Pcs.Waiter.{after_check, wait_from, wait}
use cortx_ha.Pcs.Client.{
  Node, Resource, Connector, all_stopped, has_no_resources, wait_for, online_of, get_online_nodes,
  is_only, is_last_online_node, power_off, shutdown_node, disable_stonith, standby_all,
  cluster_maintenance,
}
use cortx_ha.Pcs.Client.Shutdown.{
  Seen, Stopped, Drained, shutdown_node-Drained, cluster_maintenance-Seen,
}

-- a node that still runs some resources
abbrev node1_running : ℕ → Node
node1_running running = record {
  name = "node1";
  online = true;
  standby = false;
  unclean = false;
  resources_running = running;
}

abbrev node2_idle : Node
node2_idle = record {
  name = "node2";
  online = true;
  standby = false;
  unclean = false;
  resources_running = 0;
}

abbrev address : Resource
address = record {
  id = "ip";
  resource_agent = "ocf";
  role = "Started";
  target_role = "Started";
  active = true;
  orphaned = false;
  blocked = false;
  managed = true;
  failed = false;
  failure_ignored = false;
  nodes_running_on = 1;
}

-- the resources that are running: the state of the cluster
abbrev resources_of : ℕ → List Resource
resources_of zero = []
resources_of (suc n) = address ∷ resources_of n

-- each pause stops one resource
abbrev connector : Connector ℕ
connector = record {
  set_credentials = λ c. pure _;
  ensure_authorized = pure _;
  get_cluster_name = pure "cortx";
  get_nodes = λ n. (n, ok (node1_running n ∷ node2_idle ∷ []));
  get_resources = λ n. (n, ok (resources_of n));
  get_stonith_resources = λ n. (n, ok []);
  standby_node = λ name. pure _;
  unstandby_node = λ name. pure _;
  standby_all = pure _;
  unstandby_all = pure _;
  shutdown_node = λ name. pure _;
  manual_shutdown_node = λ name. pure _;
  ensure_shutdown_possible = λ name. pure _;
  disable_resource = λ r. pure _;
  enable_resource = λ r. pure _;
}

abbrev stop_one : ℕ → ℕ → ℕ
stop_one pause n = n - 1

shutdown_node1 : shutdown_node stop_one connector "node1" 120 3 ≡ some (0, ok _)
unfolding shutdown_node is_last_online_node get_online_nodes online_of is_only wait_for
    has_no_resources power_off wait wait_from after_check
shutdown_node1 = refl

maintenance : cluster_maintenance stop_one connector 120 3 ≡ some (0, ok _)
unfolding cluster_maintenance disable_stonith standby_all for_each wait_for all_stopped wait
    wait_from after_check
maintenance = refl

shutdown_node-Drained_example : Drained stop_one connector "node1" 3 0
shutdown_node-Drained_example =
    shutdown_node-Drained stop_one connector "node1" 120 3 (omega arith) shutdown_node1

cluster_maintenance-Seen_example :
    (disabled : ℕ) × Seen connector.get_stonith_resources Stopped disabled
    × (standby_all stop_one connector 120 disabled ≡ some (0, ok _))
    × Seen connector.get_resources Stopped 0
cluster_maintenance-Seen_example =
    cluster_maintenance-Seen stop_one connector 120 3 (omega arith) maintenance
