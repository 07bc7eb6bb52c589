-- ===== src/Controllers/Cluster.antt =====
-- `PcsClusterController` (ha/core/controllers/pcs/cluster_controller.py), over a node controller and the
-- status of the cluster. Timeouts are not negative. The lists of nodes in the texts of warnings are
-- left out. `env` and `local_node` are read from the configuration, `nodelist` is its list of nodes.
use Prim.Native.String.{◌++◌}
use mathlib.Core.List.{◌++◌ as ◌+++◌}
use text.Mathlib.Text.{starts_with}
use cortx_ha.Prelude.{
  ℕ, zero, suc, ◌+◌, ◌*◌, ◌-◌, ◌/◌, String, ◌==◌, Bool, true, false, List, [], ◌∷◌, Option, none,
  some, length, take, drop, contains, eqb, ltb, if◌then◌else◌,
}
use cortx_ha.Prelude.{
  Exn, Result, ok, raise, index_error, type_error, attribute_error, cluster_manager,
}
use cortx_ha.Prelude.Acting.{Act, pure, fail, lift, attempt, call, ◌>>=◌, ◌>>◌}
use cortx_ha.Prelude.Dict
use cortx_ha.Prelude.Dict.{Dict}
use cortx_ha.Json.{Json, Items, str, arr, nil, cons, subscript, is_text, get_of}
use cortx_ha.Controllers.NodeStatuses
use cortx_ha.Controllers.Shell.{Shell, run_cmd, controller_error_handler, answer, succeeded, failed}
use cortx_ha.Controllers.Pcs.{base_wait_time, get_node_list, nodes_status}
use cortx_ha.Controllers.Status.{Tree, get_cluster_health, init, load}
pub mod Groups
pub mod Waiting
pub mod Destroying
pub mod Starting
pub mod Stopping
pub mod Modes
pub mod Joining
pub mod Destroy
pub mod Reaching

-- the methods of the node controller that are called
pub record NodeController (W : Type 0) : Type 0 where
  pub start : String → W → W × Json
  pub stop : String → W → W × Json
  pub standby : String → W → W × Json
  pub active : String → W → W × Json

pub record Site (W : Type 0) : Type 0 where
  pub shell : Shell W
  pub nodeid_dict : Dict String
  pub execute : String → String → Act W String
  pub fromstring : String → Result Tree
  pub resolves : String → Bool
  pub env : String
  pub local_node : String
  pub nodelist : Option (List String)

abbrev pub cluster_retry_count : ℕ
cluster_retry_count = 6

abbrev pub pcs_node_group_size : ℕ
pcs_node_group_size = 3

abbrev pub pcs_cluster_status : String
pcs_cluster_status = "pcs cluster status"

abbrev pub pcs_cluster_start_node : String
pcs_cluster_start_node = "pcs cluster start"

abbrev pub pcs_cluster_destroy : String
pcs_cluster_destroy = "pcs cluster destroy"

abbrev pub pcs_cluster_kill : String
pcs_cluster_kill = "pcs cluster kill"

abbrev pub check_interval : ℕ
check_interval = 2

unfoldable pub items : List String → Items
items [] = nil
items (x ∷ xs) = cons (str x) (items xs)

-- the list of nodes in an answer; no other list is there
unfoldable pub texts : Items → List String
texts nil = []
texts (cons (str s) xs) = s ∷ texts xs
texts (cons _ xs) = texts xs

unfoldable pub texts_of : Json → Result (List String)
unfolding texts
texts_of (arr xs) = ok (texts xs)
texts_of _ = raise type_error

-- `[l[i:i + size] for i in range(0, len(l), size)]`, with the number of rounds that are left
unfoldable pub groups : ℕ → List String → List (List String)
groups zero l = []
groups (suc n) [] = []
groups (suc n) (x ∷ xs) =
    take pcs_node_group_size (x ∷ xs) ∷ groups n (drop pcs_node_group_size (x ∷ xs))

-- the first group with the node
unfoldable pub group_of : String → List (List String) → Result (List String)
group_of node [] = raise index_error
group_of node (g ∷ gs) = if contains g node then ok g else group_of node gs

-- the groups without that
unfoldable pub other_groups : String → List (List String) → List (List String)
other_groups node [] = []
other_groups node (g ∷ gs) = if contains g node then gs else g ∷ other_groups node gs

unfoldable pub flat : List (List String) → List String
flat [] = []
flat (g ∷ gs) = g +++ flat gs

-- the value of the last entry whose key starts with that of the node: `ConfigManager.get_node_id`. The
-- store reads all keys that start with the one asked for, here without its prefix.
unfoldable pub last_id : Dict String → String → Option String
last_id [] key = none
last_id ((k, nodeid) ∷ d) key =
    let later = last_id d key in if starts_with k key then or_else later nodeid else later
  where
    or_else : Option String → String → Option String
    or_else none v = some v
    or_else (some w) v = some w

unfoldable pub get_node_id : Dict String → String → Result String
unfolding last_id
get_node_id d node_name = found (last_id d ("pvtfqdn_to_nodeid/" ++ node_name))
  where
    found : Option String → Result String
    found none = raise attribute_error
    found (some nodeid) = ok nodeid

-- `str(NODE_STOP_TIMEOUT * len(self_group))`; a group has one to three nodes
unfoldable pub seconds : List String → String
seconds (x ∷ []) = "300"
seconds (x ∷ y ∷ []) = "600"
seconds _ = "900"

-- the timeout of the check, after the time that the groups take
unfoldable pub time_left : ℕ → ℕ → ℕ
time_left limit group_count =
    let spent = base_wait_time * pcs_node_group_size * group_count in
    if ltb limit spent then base_wait_time * 2 else limit - spent

-- `while check_interval * loop_counter < timeout`, with a counter from 0, makes so many rounds
unfoldable pub rounds : ℕ → ℕ
rounds limit = (limit + 1) / check_interval

module _ {W : Type 0} (site : Site W) (nodes : NodeController W) where
  unfoldable pub is_pcs_cluster_running : Act W Bool
  is_pcs_cluster_running = do o ← run_cmd site.shell pcs_cluster_status false; pure (eqb o.rc 0)

  abbrev pub online_or : Act W Bool → Option String → Act W Bool
  online_or next none = site.shell.sleep base_wait_time >> next
  online_or next (some status) =
      if status == NodeStatuses.online then pure true else (site.shell.sleep base_wait_time >> next)

  -- `wait_for_node_online`, with the retries that are left
  unfoldable pub wait_online : ℕ → String → Act W Bool
  wait_online zero nodeid = pure false
  wait_online (suc n) nodeid = do
    statuses ← nodes_status site.shell (some (nodeid ∷ []))
    online_or (wait_online n nodeid) (Dict.get statuses nodeid)

  unfoldable pub wait_for_node_online : String → Act W Bool
  wait_for_node_online nodeid = wait_online cluster_retry_count nodeid

  abbrev running_or : Act W Bool → Bool → Act W Bool
  running_or next true = pure true
  running_or next false = next

  unfoldable pub wait_running : ℕ → Act W Bool
  wait_running zero = pure false
  wait_running (suc n) = do
    site.shell.sleep base_wait_time
    running ← is_pcs_cluster_running
    running_or (wait_running n) running

  -- `_pcs_cluster_start`
  unfoldable pub pcs_cluster_start : Act W Bool
  pcs_cluster_start = do
    run_cmd site.shell pcs_cluster_start_node false
    wait_running cluster_retry_count

  -- `_auth_node`
  unfoldable pub auth_node : String → String → String → Act W (Unit {0})
  auth_node node_id user password = attempt cluster_manager (
      run_cmd site.shell
        ((("pcs cluster auth " ++ node_id) ++ (" -u " ++ user)) ++ (" -p " ++ password)) true
      >> pure _)

  unfoldable pub node_list : W → W × Json
  node_list =
      controller_error_handler site.shell "node_list"
        do l ← get_node_list site.shell; pure (answer succeeded (arr (items l)) "")

  unfoldable pub fail_unless : Exn → Bool → Act W (Unit {0})
  fail_unless e true = pure _
  fail_unless e false = fail e

  -- `_get_node_group`
  unfoldable pub get_node_group : Act W (List (List String))
  unfolding texts_of groups
  get_node_group = do
    running ← is_pcs_cluster_running
    fail_unless cluster_manager running
    res ← call node_list
    status ← lift (get_of res "status")
    fail_unless cluster_manager (is_text status succeeded)
    output ← lift (get_of res "output")
    l ← lift (texts_of output)
    pure (groups (length l) l)

  unfoldable pub load_and_answer : Act W Json
  load_and_answer = do
    s ← load site.shell site.execute site.fromstring (init site.nodelist)
    pure (get_cluster_health s)

  unfoldable pub or_retry : W × Result Json → W × Result Json
  or_retry (w, ok d) = (w, ok d)
  or_retry (w, raise e) =
      (w, ok (answer failed (str "Retry Suggested.") (site.shell.describe "status" e)))

  unfoldable pub status : W → W × Json
  unfolding or_retry
  status = controller_error_handler site.shell "status" (λ w. or_retry (load_and_answer w))

  abbrev pub met_or : Act W Bool → Bool → Act W Bool
  met_or next true = pure true
  met_or next false = site.shell.sleep check_interval >> next

  unfoldable pub verify : ℕ → String → Act W Bool
  verify zero expected = pure false
  verify (suc n) expected = do
    result ← call status
    output ← lift (subscript result "output")
    met_or (verify n expected) (is_text output expected)

  -- `_verify_expected_cluster_status`
  unfoldable pub verify_expected_cluster_status : String → ℕ → Act W Bool
  unfolding rounds
  verify_expected_cluster_status expected limit = verify (rounds limit) expected

  abbrev pub in_time : String → Bool → Json
  in_time message true = answer succeeded (str message) ""
  in_time message false = answer failed (str "Retry suggested.") "Operation timed out."

  -- how `start`, `stop`, `standby` and `active` end
  unfoldable pub finish : Bool → ℕ → ℕ → String → String → Json → Act W Json
  unfolding time_left
  finish false limit group_count expected message otherwise = pure otherwise
  finish true limit group_count expected message otherwise = do
    reached ← verify_expected_cluster_status expected (time_left limit group_count)
    pure (in_time message reached)
