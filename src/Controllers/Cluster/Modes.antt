-- ===== src/Controllers/Cluster/Modes.antt =====
-- `standby` and `active` of the cluster controller (ha/core/controllers/pcs/cluster_controller.py).
use cortx_ha.Prelude.{ℕ, Bool, true, false, length}
use cortx_ha.Prelude.Acting.{Act, pure, lift, call, for_each, ◌>>=◌, ◌>>◌}
use cortx_ha.Json.{Json, str, subscript, is_text}
use cortx_ha.Controllers.Shell.{controller_error_handler, answer, failed, in_progress}
use cortx_ha.Controllers.Cluster.{
  NodeController, Site, flat, is_pcs_cluster_running, get_node_group, status, finish,
}

module _ {W : Type 0} (site : Site W) (nodes : NodeController W) where
  abbrev standby_if : Bool → ℕ → Bool → Act W Json
  standby_if sync limit false =
      pure (answer failed (str "Node should be online.") "Cluster is not running on current node.")
  standby_if sync limit true = do
    node_group ← get_node_group site nodes
    for_each (flat node_group) (λ node. call (nodes.standby node) >> pure _)
    finish site nodes sync limit (length node_group) "standby" "Cluster is on standby."
        (answer in_progress (str "Operation is in progress.") "")

  unfoldable pub standby : Bool → ℕ → W → W × Json
  standby sync limit =
      controller_error_handler site.shell "standby"
        (is_pcs_cluster_running site nodes >>= standby_if sync limit)

  abbrev active_if : Bool → ℕ → Bool → Act W Json
  active_if sync limit false =
      pure (answer failed (str "Operation aborted.") "Cluster is not in standby.")
  active_if sync limit true = do
    node_group ← get_node_group site nodes
    for_each (flat node_group) (λ node. call (nodes.active node) >> pure _)
    finish site nodes sync limit (length node_group) "online" "Cluster is online."
        (answer in_progress (str "Operation is in progress.") "")

  unfoldable pub active : Bool → ℕ → W → W × Json
  active sync limit = controller_error_handler site.shell "active" do
    result ← call (status site nodes)
    output ← lift (subscript result "output")
    active_if sync limit (is_text output "standby")
