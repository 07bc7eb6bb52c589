-- ===== src/Controllers/Status/Health.antt =====
-- When the loaded status of the cluster is online.
use mathlib.Core.List.{◌++◌ as ◌+++◌}
use cortx_ha.Prelude.{◌+◌, ◌/◌, ◌<◌, ◌≤◌, ◌≡◌, true, List, [], some, length, All, arith, eq_iff}
use cortx_ha.Json.{str}
use cortx_ha.Controllers.Shell.{answer, succeeded}
use cortx_ha.Controllers.Status.{
  ResourceXml, Tree, ClusterStatus, put_nodes, load_nodes_health, put_services,
  load_services_health, get_cluster_health,
}
use cortx_ha.Controllers.Status.Parts.{IsUp, IsHealthy}

-- the numbers for which the answer is online
pub record IsOnline (s : ClusterStatus) : Type 0 where
  pub loaded : s.is_health_loaded ≡ true
  pub some_online : length s.offline < length s.nodes_configured / 2 + 1
  pub not_standby : length s.standby ≡ length s.nodes_configured → ⊥
  pub counted : s.count ≡ length s.nodes_configured
  pub all_online : length s.nodes_configured ≤ length s.online
  pub all_started : length s.services_unhealthy ≡ 0

pub get_cluster_health-IsOnline :
    (s : ClusterStatus) → get_cluster_health s ≡ answer succeeded (str "online") "" → IsOnline s
unfolding get_cluster_health
get_cluster_health-IsOnline s h = ground (
  arith,
  eq_iff "offline" "online",
  eq_iff "standby" "online",
  eq_iff "unhealthy" "online",
  eq_iff "degraded" "online",
  eq_iff "" "online",
)

-- the state after `_get_pcs_status` has read a tree, on this node or on another
pub record Read (s : ClusterStatus) (t : Tree) : Type 0 where
  pub output : s.output ≡ some t
  pub offline : s.offline ≡ []
  pub standby : s.standby ≡ []
  pub online : s.online ≡ []
  pub unhealthy : s.unhealthy ≡ []
  pub services_unhealthy : s.services_unhealthy ≡ []

abbrev pub resources_of : Tree → List ResourceXml
resources_of t = (t.resources +++ t.group_resources) +++ t.group_resources

-- what `load` does with the tree
abbrev pub loaded_from : ClusterStatus → ClusterStatus
loaded_from s = record (load_services_health (load_nodes_health s)) { is_health_loaded = true }

module _ (s : ClusterStatus) (t : Tree) (r : Read s t) where
  abbrev with_nodes : ClusterStatus
  with_nodes = put_nodes t.nodes (record s { count = length t.nodes })

  abbrev with_services : ClusterStatus
  with_services = put_services (resources_of t) with_nodes

  -- the numbers, and what they say of the nodes and the resources
  abbrev EveryPart : Type 0
  EveryPart =
      (0 < length s.nodes_configured)
      × (length t.nodes ≡ length s.nodes_configured)
      × All IsUp t.nodes
      × All IsHealthy (resources_of t)
