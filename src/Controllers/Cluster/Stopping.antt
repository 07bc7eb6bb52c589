-- ===== src/Controllers/Cluster/Stopping.antt =====
-- `stop` of the cluster controller (ha/core/controllers/pcs/cluster_controller.py).
use Prim.Native.String.{◌++◌}
use mathlib.Core.List.{◌++◌ as ◌+++◌}
use cortx_ha.Prelude.{
  ℕ, ◌*◌, String, Bool, true, false, List, [], ◌∷◌, length, contains, if◌then◌else◌, occurs_in,
}
use cortx_ha.Prelude.{Result, ok, raise, type_error, cluster_manager}
use cortx_ha.Prelude.Acting.{Act, pure, fail, lift, attempt, call, ◌>>=◌, ◌>>◌}
use cortx_ha.Json.{Json, str, is_text, get_of}
use cortx_ha.Controllers.NodeStatuses
use cortx_ha.Controllers.Shell.{run_cmd, controller_error_handler, answer, failed, in_progress}
use cortx_ha.Controllers.Pcs.{base_wait_time, get_filtered_nodes, heal_resource}
use cortx_ha.Controllers.Cluster.{
  NodeController, Site, group_of, other_groups, flat, get_node_id, seconds, is_pcs_cluster_running,
  fail_unless, get_node_group, status, finish,
}

module _ {W : Type 0} (site : Site W) (nodes : NodeController W) where
  -- what `stop` makes of the answer for one node
  unfoldable pub offline_or_fail : String → List String → Json → Act W (List String)
  unfolding occurs_in
  offline_or_fail node_id offline_nodes res = do
    output ← lift (get_of res "output")
    off ← lift (text_has output)
    status ← lift (get_of res "status")
    (if off
        then pure (offline_nodes +++ node_id ∷ [])
        else if is_text status failed
        then fail cluster_manager
        else pure offline_nodes)
    where
      text_has : Json → Result Bool
      text_has (str s) = ok (occurs_in NodeStatuses.poweroff s)
      text_has _ = raise type_error

  unfoldable pub wait_if : Bool → Act W (Unit {0})
  wait_if true = site.shell.sleep base_wait_time
  wait_if false = pure _

  unfoldable pub stop_node : String → List String → Act W (List String)
  unfolding wait_if offline_or_fail
  stop_node node_name offline_nodes = do
    healed ← heal_resource site.shell node_name
    wait_if healed
    node_id ← lift (get_node_id site.nodeid_dict node_name)
    res ← call (nodes.stop node_id)
    offline_or_fail node_id offline_nodes res

  -- the loops of `stop` over the nodes of the other groups, with the nodes found offline
  unfoldable pub stop_nodes : List String → List String → Act W (List String)
  unfolding stop_node
  stop_nodes [] offline_nodes = pure offline_nodes
  stop_nodes (node_name ∷ rest) offline_nodes = do
    offline_nodes' ←
        (if contains offline_nodes node_name
          then pure offline_nodes
          else stop_node node_name offline_nodes)
    stop_nodes rest offline_nodes'

  unfoldable pub pcs_stop_cluster : List String → String
  unfolding seconds
  pcs_stop_cluster self_group =
      ("pcs cluster stop --request-timeout=" ++ seconds self_group) ++ " --all"

  abbrev pub stop_text : List String → String
  stop_text [] = "Cluster stop is in progress."
  stop_text (x ∷ xs) =
      "Cluster stop is in progress. Warning, Found nodes, may be poweroff or not in network"

  -- the timeout of the request replaces the argument; the groups are then those of the other nodes
  unfoldable pub stop_limit : List String → ℕ
  stop_limit self_group = 300 * length self_group

  unfoldable pub stop : Bool → W → W × Json
  unfolding group_of other_groups stop_limit
  stop sync = controller_error_handler site.shell "stop" do
    running ← is_pcs_cluster_running site nodes
    fail_unless site nodes cluster_manager running
    node_group ← get_node_group site nodes
    self_group ← lift (group_of site.local_node node_group)
    offline ← get_filtered_nodes site.shell (NodeStatuses.poweroff ∷ [])
    offline_nodes ← stop_nodes (flat (other_groups site.local_node node_group)) offline
    attempt cluster_manager (run_cmd site.shell (pcs_stop_cluster self_group) true)
    finish site nodes sync (stop_limit self_group)
        (length (other_groups site.local_node node_group)) "offline" "Cluster is offline."
        (answer in_progress (str (stop_text offline_nodes)) "")
