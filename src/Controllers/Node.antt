-- ===== src/Controllers/Node.antt =====
-- `PcsNodeController` and `PcsVMNodeController` (ha/core/controllers/pcs/node_controller.py). The
-- dictionary from private names to node ids (`pvtfqdn_to_nodeid`) that the configuration gives is a
-- parameter, and so is what `SystemHealth.get_node_status` answers. `get_health_event_template` is
-- called without its argument `source`, so Python raises TypeError before it reads anything.
pub mod Quorum
pub mod Success
pub mod Starting
pub mod Halting
pub mod Modes
use Prim.Native.Nat.{◌%◌}
use Prim.Native.String.{◌++◌}
use cortx_ha.Prelude.{
  ℕ, ◌+◌, ◌*◌, ◌-◌, ◌/◌, String, ◌==◌, Bool, true, false, ◌&&◌, ◌||◌, List, [], ◌∷◌, Option, none,
  some, length, eqb, ltb, if◌then◌else◌,
}
use cortx_ha.Prelude.{Result, ok, raise, key_error, type_error, cluster_manager, invalid_node}
use cortx_ha.Prelude.Acting.{Act, pure, fail, lift, attempt, call, ◌>>=◌, ◌>>◌}
use cortx_ha.Prelude.Dict
use cortx_ha.Prelude.Dict.{Dict}
use cortx_ha.Json.{Json, null, str, subscript, is_none, is_text, get_of}
use cortx_ha.Controllers.NodeStatuses
use cortx_ha.Controllers.Shell.{
  Shell, Output, run_cmd, controller_error_handler, answer, succeeded, failed,
}
use cortx_ha.Controllers.Status.{node_of}
use cortx_ha.Controllers.Pcs.{
  base_wait_time, heal_resource, get_node_list, nodes_status, is_node_in_cluster,
}

pub record Site (W : Type 0) : Type 0 where
  pub shell : Shell W
  pub nodeid_dict : Dict String
  pub get_node_status : String → Act W Json

-- `ConfigManager.get_node_name` (ha/core/config/config_manager.py)
unfoldable pub get_node_name : Dict String → String → Result String
unfolding node_of
get_node_name [] node_id = raise invalid_node
get_node_name ((key, nodeid) ∷ d) node_id =
    if nodeid == node_id then ok (node_of key) else get_node_name d node_id

abbrev pub pcs_node_start : String → String
pcs_node_start node = "pcs cluster start " ++ node

abbrev pub pcs_node_standby : String → String
pcs_node_standby node = "pcs node standby " ++ node

abbrev pub pcs_node_unstandby : String → String
pcs_node_unstandby node = "pcs node unstandby " ++ node

-- the names of the list whose status is not online; a name without a status is a KeyError
unfoldable pub not_online : List String → Dict String → Result (List String)
not_online [] d = ok []
not_online (node ∷ rest) d = add (Dict.get d node) (not_online rest d)
  where
    add : Option String → Result (List String) → Result (List String)
    add none r = raise key_error
    add (some status) (raise e) = raise e
    add (some status) (ok l) = ok (if status == "online" then l else node ∷ l)

-- one more node offline leaves no majority online: the test on `max_nodes_offline`, which is -1 for
-- no nodes
unfoldable pub loses_quorum : ℕ → ℕ → Bool
loses_quorum num_nodes offline =
    if eqb (num_nodes % 2) 1
    then ltb (num_nodes / 2) (offline + 1)
    else eqb (num_nodes / 2) 0 || ltb (num_nodes / 2 - 1) (offline + 1)

abbrev pub quorum_answer : Bool → Json
quorum_answer true = answer failed (str "") "Stopping the node will cause a loss of the quorum"
quorum_answer false = answer succeeded (str "") ""

module _ {W : Type 0} (site : Site W) where
  unfoldable pub node_status_or : Dict String → String → Result String
  node_status_or d node = Dict.subscript d node

  -- `_update_health`
  unfoldable pub update_health : String → Act W (Unit {0})
  update_health node_id = fail type_error

  abbrev failed_to_start : String → String → Json
  failed_to_start node_id err =
      answer failed (str "") ("Failed to start node " ++ node_id ++ ", Error: " ++ err)

  -- the end of `start`, after a command with the output
  unfoldable pub updated_or_failed : String → Output → Act W Json
  updated_or_failed node_id o =
      if eqb o.rc 0
      then (do update_health node_id; pure (answer succeeded (str NodeStatuses.online) ""))
      else pure (failed_to_start node_id o.err)

  unfoldable pub unstandby : String → String → Act W Json
  unfolding updated_or_failed
  unstandby node_id node_name =
      run_cmd site.shell (pcs_node_unstandby node_name) false >>= updated_or_failed node_id

  unfoldable pub unstandby_if : String → String → Bool → Act W Json
  unfolding unstandby
  unstandby_if node_id node_name true = unstandby node_id node_name
  unstandby_if node_id node_name false = pure (
      answer failed (str "") (
        "Node " ++ node_id
        ++ " is in standby mode, resource failcount found on the node, cleanup did not work"))

  unfoldable pub started : String → String → Output → Act W Json
  unfolding unstandby update_health
  started node_id node_name o =
      if eqb o.rc 0
      then (do
        site.shell.sleep (base_wait_time * 2)
        statuses ← nodes_status site.shell (some (node_name ∷ []))
        node_status ← lift (node_status_or statuses node_name)
        (if node_status == NodeStatuses.standby
            then unstandby node_id node_name
            else (update_health node_id >> pure (answer succeeded (str NodeStatuses.online) ""))))
      else pure (failed_to_start node_id o.err)

  -- the branches of `start`
  unfoldable pub start_by : String → String → String → Json → Act W Json
  unfolding unstandby_if started
  start_by node_id node_name node_status health =
      if node_status == NodeStatuses.online && is_text health "online"
      then pure (answer succeeded (str NodeStatuses.online) "")
      else if node_status == NodeStatuses.standby
          || node_status == NodeStatuses.standby_with_resources_running
      then (heal_resource site.shell node_name >>= unstandby_if node_id node_name)
      else if node_status == NodeStatuses.cluster_offline
      then (run_cmd site.shell (pcs_node_start node_name) false >>= started node_id node_name)
      else pure (
          answer failed (str "")
            ("Node " ++ node_id ++ " status is " ++ node_status ++ ", node cannot be started."))

  unfoldable pub start : String → W → W × Json
  unfolding start_by
  start node_id = controller_error_handler site.shell "start" (
      attempt cluster_manager do
        node_name ← lift (get_node_name site.nodeid_dict node_id)
        is_node_in_cluster site.shell node_name
        statuses ← nodes_status site.shell (some (node_name ∷ []))
        node_status ← lift (node_status_or statuses node_name)
        health ← site.get_node_status node_id
        node_health ← lift (get_of health "status")
        start_by node_id node_name node_status node_health)

  -- `_get_offline_nodes`
  unfoldable pub get_offline_nodes : Act W (List String)
  unfolding not_online
  get_offline_nodes = do
    statuses ← nodes_status site.shell none
    nodes ← get_node_list site.shell
    lift (not_online nodes statuses)

  unfoldable pub check_cluster_feasibility : String → W → W × Json
  unfolding loses_quorum
  check_cluster_feasibility node_id =
      controller_error_handler site.shell "check_cluster_feasibility" do
        node_name ← lift (get_node_name site.nodeid_dict node_id)
        node_list ← get_node_list site.shell
        offline_nodes ← get_offline_nodes
        pure (quorum_answer (loses_quorum (length node_list) (length offline_nodes)))

  -- what `stop` makes of the answer on the quorum: None where it does not fail
  unfoldable pub null_unless_failed : Json → Result Json
  null_unless_failed res = elim (get_of res "status") [
    | ok status ↦ ok (if is_text status failed then res else null)
    | raise e ↦ raise e
  ]

  unfoldable pub check_if : String → Bool → Act W Json
  unfolding null_unless_failed
  check_if node_id false = pure null
  check_if node_id true = do
    res ← call (check_cluster_feasibility node_id)
    lift (null_unless_failed res)

  unfoldable pub wait_if : Bool → Act W (Unit {0})
  wait_if true = site.shell.sleep base_wait_time
  wait_if false = pure _

  -- the branches of `PcsNodeController.stop`
  unfoldable pub stop_by : String → String → Bool → Json → Act W Json
  unfolding check_if wait_if
  stop_by node_id node_name check_cluster node_status =
      if is_text node_status "offline"
      then pure (
          answer succeeded
            (str ("Node with node id " ++ node_id ++ " is already in offline state.")) "")
      else if is_text node_status "failed"
      then pure (
          answer failed (str "")
            ("Node " ++ node_id ++ " status is failed, node cannot be stopped."))
      else (do
        healed ← heal_resource site.shell node_name
        wait_if healed
        check_if node_id check_cluster)

  -- `PcsNodeController.stop`; its timeout is not used
  unfoldable pub stop : String → Bool → W → W × Json
  unfolding stop_by
  stop node_id check_cluster = controller_error_handler site.shell "stop" do
    node_name ← lift (get_node_name site.nodeid_dict node_id)
    attempt cluster_manager do
      health ← site.get_node_status node_id
      node_status ← lift (get_of health "status")
      stop_by node_id node_name check_cluster node_status

  -- the end of `PcsVMNodeController.stop`
  unfoldable pub put_standby : String → String → Act W Json
  unfolding update_health
  put_standby node_id node_name = do
    run_cmd site.shell (pcs_node_standby node_name) true
    update_health node_id
    pure (answer succeeded (str ("Standby for node " ++ node_id ++ " is in progress")) "")

  unfoldable pub stop_vm_by : String → String → Json → Act W Json
  unfolding put_standby
  stop_vm_by node_id node_name stop_status =
      if is_none stop_status then put_standby node_id node_name else (do
        status ← lift (subscript stop_status "status")
        (if is_text status succeeded || is_text status failed
            then pure stop_status
            else put_standby node_id node_name))

  -- `PcsVMNodeController.stop`
  unfoldable pub stop_vm : String → Bool → W → W × Json
  unfolding stop_vm_by
  stop_vm node_id check_cluster = controller_error_handler site.shell "stop" do
    node_name ← lift (get_node_name site.nodeid_dict node_id)
    attempt cluster_manager
        do stop_status ← call (stop node_id check_cluster); stop_vm_by node_id node_name stop_status
