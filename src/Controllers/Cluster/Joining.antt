-- ===== src/Controllers/Cluster/Joining.antt =====
-- How the cluster controller creates a cluster and adds nodes
-- (ha/core/controllers/pcs/cluster_controller.py).
use Prim.Native.String.{◌++◌}
use cortx_ha.Prelude.{◌*◌, String, Bool, true, false, [], ◌∷◌, ltb}
use cortx_ha.Prelude.{attribute_error, cluster_manager, unimplemented}
use cortx_ha.Prelude.Acting.{Act, pure, fail, lift, attempt, ◌>>=◌, ◌>>◌}
use cortx_ha.Json.{Json, str}
use cortx_ha.Controllers.Shell.{run_cmd, controller_error_handler, answer, succeeded, failed}
use cortx_ha.Controllers.Pcs.{base_wait_time, check_non_empty, get_cluster_size}
use cortx_ha.Controllers.NodeId.{is_valid_node_id}
use cortx_ha.Controllers.Cluster.{
  NodeController, Site, pcs_cluster_start_node, is_pcs_cluster_running, wait_for_node_online,
  auth_node, fail_unless,
}

module _ {W : Type 0} (site : Site W) (nodes : NodeController W) where
  -- `service_list`, `storageset_list` and `add_storageset`
  unfoldable pub not_implemented : String → W → W × Json
  not_implemented name = controller_error_handler site.shell name (fail unimplemented)

  abbrev add_if : String → Bool → Act W Json
  add_if nodeid false = pure (
      answer failed (str "")
        "Cluster size is already filled to 32, Please use add-remote node mechanism")
  -- `_wait_for_node_online` is no method of the class
  add_if nodeid true = do
    run_cmd site.shell (("pcs cluster node add " ++ nodeid) ++ " --start --enable") true
    fail attribute_error

  unfoldable pub add_node : String → String → String → W → W × Json
  add_node nodeid user password = controller_error_handler site.shell "add_node" do
    lift (is_valid_node_id site.resolves nodeid)
    lift (check_non_empty (nodeid ∷ user ∷ password ∷ []))
    auth_node site nodes nodeid user password
    cluster_node_count ← get_cluster_size site.shell
    add_if nodeid (ltb cluster_node_count 32)

  abbrev create_if_down : String → String → String → String → Bool → Act W (Unit {0})
  create_if_down name user secret nodeid true = pure _
  create_if_down name user secret nodeid false = do
    auth_node site nodes nodeid user secret
    run_cmd site.shell (("pcs cluster setup --start --name " ++ name) ++ (" " ++ nodeid)) true
    run_cmd site.shell pcs_cluster_start_node true
    run_cmd site.shell "pcs cluster enable" true
    site.shell.sleep (base_wait_time * 2)

  unfoldable pub create_cluster : String → String → String → String → W → W × Json
  create_cluster name user secret nodeid = controller_error_handler site.shell "create_cluster" (
      attempt cluster_manager do
        lift (check_non_empty (name ∷ user ∷ secret ∷ nodeid ∷ []))
        running ← is_pcs_cluster_running site nodes
        create_if_down name user secret nodeid running
        now_running ← is_pcs_cluster_running site nodes
        fail_unless site nodes cluster_manager now_running
        is_online ← wait_for_node_online site nodes nodeid
        fail_unless site nodes cluster_manager is_online
        run_cmd site.shell "pcs property set stonith-enabled=False" true
        pure (answer succeeded (str "Cluster created successfully.") ""))
