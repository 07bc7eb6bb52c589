-- ===== src/Tests/ClusterRuns.antt =====
-- Runs of the cluster controller (ha/core/controllers/pcs/cluster_controller.py).
use cortx_ha.Prelude.{
  ℕ, ◌+◌, String, ◌≡◌, refl, true, List, [], ◌∷◌, some, none, length, All, contains, ◌||◌, ◌↔◌,
  arith, occurs_in, is_start,
}
use cortx_ha.Prelude.{ok, raise, generic}
use cortx_ha.Prelude.Acting.{fail}
use cortx_ha.Json.{null}
use cortx_ha.Controllers.Shell.{run_cmd, checked}
use cortx_ha.Controllers.Pcs.{check_resource_failcount, heal, heal_resource}
use cortx_ha.Controllers.Pcs.Healing.{Outcome, heal_resource-Outcome}
use cortx_ha.Controllers.Status.{NodeXml, ResourceXml, Tree, ClusterStatus, init}
use cortx_ha.Controllers.Cluster.{
  Site, NodeController, groups, flat, group_of, other_groups, wait_for_node_online,
  cluster_retry_count,
}
use cortx_ha.Controllers.Cluster.Destroy.{destroy_cluster}
use cortx_ha.Controllers.Cluster.Groups.{IsGroup, groups-Cover, other_groups-Rest}
use cortx_ha.Controllers.Cluster.Waiting.{Found, wait_for_node_online-Found}
use cortx_ha.Controllers.Cluster.Destroying.{paused, destroy_cluster-late}
use cortx_ha.Tests.ControllerRuns.{shell_with}

abbrev pub cluster_site : Site ℕ
cluster_site = record {
  shell = shell_with " Online: n1\n";
  nodeid_dict = [];
  execute = λ node cmd. fail generic;
  fromstring = λ text. raise generic;
  resolves = λ name. true;
  env = "vm";
  local_node = "n1";
  nodelist = none;
}

abbrev pub idle : NodeController ℕ
idle = record {
  start = λ node w. (w, null);
  stop = λ node w. (w, null);
  standby = λ node w. (w, null);
  active = λ node w. (w, null);
}

abbrev pub online_xml : NodeXml
online_xml = record {
  name = "n1";
  online = "true";
  standby = "false";
  standby_onfail = "false";
  maintenance = "false";
  pending = "false";
  shutdown = "false";
}

abbrev started_xml : ResourceXml
started_xml = record {
  id = "hax";
  active = "true";
  orphaned = "false";
  blocked = "false";
  failed = "false";
  role = "Started";
}

abbrev pub one_node : Tree
one_node = record { nodes = online_xml ∷ []; resources = started_xml ∷ []; group_resources = [] }

abbrev one_read : ClusterStatus
one_read = record (init (some ("nodes/n1" ∷ []))) { output = some one_node }

four_nodes : groups 4 ("a" ∷ "b" ∷ "c" ∷ "d" ∷ []) ≡ ("a" ∷ "b" ∷ "c" ∷ []) ∷ ("d" ∷ []) ∷ []
unfolding groups
four_nodes = refl

groups-Cover_example :
    (flat (groups 2 ("a" ∷ "b" ∷ [])) ≡ "a" ∷ "b" ∷ []) × All IsGroup (groups 2 ("a" ∷ "b" ∷ []))
groups-Cover_example = groups-Cover ("a" ∷ "b" ∷ [])

abbrev two_groups : List (List String)
two_groups = ("a" ∷ "b" ∷ "c" ∷ []) ∷ ("d" ∷ []) ∷ []

other_groups-Rest_example :
    (contains ("d" ∷ []) "d" ≡ true)
    × (length (flat two_groups) ≡ 1 + length (flat (other_groups "d" two_groups)))
    × ((a : String)
        → contains (flat two_groups) a
          ≡ (contains ("d" ∷ []) a || contains (flat (other_groups "d" two_groups)) a))
unfolding group_of contains
other_groups-Rest_example = other_groups-Rest "d" two_groups refl

wait_for_node_online-Found_example :
    (wait_for_node_online cluster_site idle "n1" 0 ≡ (1, ok true))
    ↔ Found cluster_site idle "n1" cluster_retry_count 0 1
wait_for_node_online-Found_example = wait_for_node_online-Found cluster_site idle "n1" 0 1

-- the answer of a cluster that was never destroyed
destroy_cluster-late_example :
    destroy_cluster cluster_site idle 10 6 true 0 ≡ (paused cluster_site idle 10 0, null)
destroy_cluster-late_example =
    destroy_cluster-late cluster_site idle 9 6 true 0 (λ v. refl) (omega arith)

heal_clean : heal_resource (shell_with "") "n1" 0 ≡ (1, ok true)
unfolding heal_resource heal check_resource_failcount run_cmd checked occurs_in is_start
heal_clean = refl

heal_resource-Outcome_example : Outcome (shell_with "") "n1" 2 0 1 true
heal_resource-Outcome_example = heal_resource-Outcome (shell_with "") "n1" 0 1 true heal_clean
