-- ===== src/Controllers/Node/Modes.antt =====
-- `standby` and `active` of the node controller (ha/core/controllers/pcs/node_controller.py).
use Prim.Native.String.{◌++◌}
use cortx_ha.Prelude.{◌*◌, String, true, [], ◌∷◌, Option, none, some, if◌then◌else◌}
use cortx_ha.Prelude.Acting.{Act, pure, ◌>>=◌, ◌>>◌}
use cortx_ha.Prelude.Dict
use cortx_ha.Prelude.Dict.{Dict}
use cortx_ha.Json.{Json, null, str, is_text}
use cortx_ha.Controllers.NodeStatuses
use cortx_ha.Controllers.Shell.{
  run_cmd, controller_error_handler, answer, succeeded, failed, in_progress,
}
use cortx_ha.Controllers.Pcs.{base_wait_time, heal_resource, nodes_status, is_node_in_cluster}
use cortx_ha.Controllers.Node.{Site, pcs_node_standby, pcs_node_unstandby, wait_if}

module _ {W : Type 0} (site : Site W) where
  abbrev pub status_or_null : Option String → Json
  status_or_null none = null
  status_or_null (some status) = str status

  -- the status of one node, as `nodes_status([nodeid]).get(nodeid)`
  unfoldable pub status_of : String → Act W (Option String)
  status_of nodeid = do
    statuses ← nodes_status site.shell (some (nodeid ∷ []))
    pure (Dict.get statuses nodeid)

  abbrev pub shown : Option String → String
  shown none = "None"
  shown (some status) = status

  unfoldable pub standby_by : String → Option String → Act W Json
  unfolding wait_if
  standby_by nodeid node_status =
      if is_text (status_or_null node_status) NodeStatuses.standby
      then pure
          (answer succeeded (str ("Node " ++ nodeid ++ " is already running in standby mode.")) "")
      else if is_text (status_or_null node_status) NodeStatuses.standby_with_resources_running
      then pure (
          answer in_progress
            (str ("Node " ++ nodeid ++ " is in standby with resource running mode.")) "")
      else if is_text (status_or_null node_status) NodeStatuses.online
      then (do
        healed ← heal_resource site.shell nodeid
        wait_if site healed
        run_cmd site.shell (pcs_node_standby nodeid) true
        site.shell.sleep (base_wait_time * 2)
        status_of nodeid
        pure (
            answer in_progress
              (str ("Waiting for resource to stop, " ++ nodeid ++ " standby is in progress")) ""))
      else pure (
          answer failed (str "")
            ("Failed to put node in standby as node is in " ++ shown node_status))

  unfoldable pub standby : String → W → W × Json
  unfolding standby_by
  standby nodeid =
      controller_error_handler site.shell "standby" (status_of nodeid >>= standby_by nodeid)

  abbrev pub activated : Option String → Json
  activated node_status =
      answer
        (if is_text (status_or_null node_status) NodeStatuses.standby then succeeded else failed)
        (status_or_null node_status) ""

  -- the end of `active`, for a node in standby
  unfoldable pub unstandby_and_look : String → Act W Json
  unstandby_and_look nodeid = do
    run_cmd site.shell (pcs_node_unstandby nodeid) true
    site.shell.sleep base_wait_time
    node_status ← status_of nodeid
    pure (activated node_status)

  unfoldable pub active_by : String → Option String → Act W Json
  unfolding unstandby_and_look
  active_by nodeid node_status =
      if is_text (status_or_null node_status) NodeStatuses.standby
      then unstandby_and_look nodeid
      else pure
          (answer failed (str "Node is not in standby.") ("Current state = " ++ shown node_status))

  unfoldable pub active : String → W → W × Json
  unfolding active_by
  active nodeid = controller_error_handler site.shell "active" do
    is_node_in_cluster site.shell nodeid
    node_status ← status_of nodeid
    active_by nodeid node_status
