-- ===== src/Controllers/Cluster/Starting.antt =====
-- `start` of the cluster controller (ha/core/controllers/pcs/cluster_controller.py).
use mathlib.Core.List.{◌++◌ as ◌+++◌}
use cortx_ha.Prelude.{
  ℕ, ◌*◌, String, ◌==◌, Bool, true, false, not, List, [], ◌∷◌, length, eqb, if◌then◌else◌, lower,
}
use cortx_ha.Prelude.{Result, ok, raise, type_error, cluster_manager}
use cortx_ha.Prelude.Acting.{Act, pure, lift, attempt, call, ◌>>=◌, ◌>>◌}
use cortx_ha.Json.{Json, null, str, arr, is_text, get_of}
use cortx_ha.Controllers.Shell.{run_cmd, controller_error_handler, answer, failed, in_progress}
use cortx_ha.Controllers.Pcs.{base_wait_time}
use cortx_ha.Controllers.Cluster.{
  NodeController, Site, pcs_node_group_size, texts, get_node_id, is_pcs_cluster_running,
  pcs_cluster_start, node_list, fail_unless, get_node_group, status, finish,
}

module _ {W : Type 0} (site : Site W) (nodes : NodeController W) where
  unfoldable pub enable_stonith : W → W × Json
  unfolding lower
  enable_stonith = controller_error_handler site.shell "enable_stonith" (
      if lower site.env == "hw"
      then (run_cmd site.shell "pcs property set stonith-enabled=true" true >> pure null)
      else pure null)

  abbrev add_if_failed : String → List String → Json → List String
  add_if_failed node_name l status = if is_text status failed then l +++ node_name ∷ [] else l

  -- the loop of `start` over a group, with the nodes that failed so far
  unfoldable pub start_nodes : List String → List String → Act W (List String)
  unfolding get_node_id
  start_nodes [] failed_nodes = pure failed_nodes
  start_nodes (node_name ∷ rest) failed_nodes = do
    node_id ← lift (get_node_id site.nodeid_dict node_name)
    res ← call (nodes.start node_id)
    status ← lift (get_of res "status")
    start_nodes rest (add_if_failed node_name failed_nodes status)

  unfoldable pub start_groups : List (List String) → List String → Act W (List String)
  start_groups [] failed_nodes = pure failed_nodes
  start_groups (g ∷ gs) failed_nodes = do
    failed_nodes' ← start_nodes g failed_nodes
    site.shell.sleep (base_wait_time * pcs_node_group_size)
    start_groups gs failed_nodes'

  -- `len(output)`, where the text of a failed answer is empty
  unfoldable pub len_of : Json → Result ℕ
  unfolding texts
  len_of (arr xs) = ok (length (texts xs))
  len_of (str s) = ok 0
  len_of _ = raise type_error

  -- after the loop: some nodes failed, all of them, or none
  unfoldable pub check_failed : List String → Act W (Unit {0})
  unfolding len_of
  check_failed [] = call enable_stonith >> pure _
  check_failed (x ∷ xs) = do
    res ← call (node_list site nodes)
    output ← lift (get_of res "output")
    n ← lift (len_of output)
    fail_unless site nodes cluster_manager (not (eqb (length (x ∷ xs)) n))

  unfoldable pub start_cluster_if_down : Bool → Act W (Unit {0})
  start_cluster_if_down true = pure _
  start_cluster_if_down false = do
    res ← pcs_cluster_start site nodes
    site.shell.sleep base_wait_time
    fail_unless site nodes cluster_manager res

  unfoldable pub start_all : Act W (List (List String) × List String)
  start_all = attempt cluster_manager do
    node_group ← get_node_group site nodes
    failed_nodes ← start_groups node_group []
    pure (node_group, failed_nodes)

  unfoldable pub start : Bool → ℕ → W → W × Json
  unfolding start_all
  start sync limit = controller_error_handler site.shell "start" do
    running ← is_pcs_cluster_running site nodes
    start_cluster_if_down running
    (node_group, failed_nodes) ← start_all
    check_failed failed_nodes
    finish site nodes sync limit (length node_group) "online" "Cluster is online."
        (answer in_progress (str "Cluster start operation performed") "")
