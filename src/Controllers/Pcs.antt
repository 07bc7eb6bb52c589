-- ===== src/Controllers/Pcs.antt =====
-- `PcsController` (ha/core/controllers/pcs/pcs_controller.py): what the controllers share.
pub mod Listing
pub mod Healing
use Prim.Native.String.{◌++◌}
use mathlib.Core.List.{◌++◌ as ◌+++◌}
use cortx_ha.Prelude.{
  ℕ, zero, suc, String, ◌==◌, Bool, true, false, not, ◌&&◌, ◌||◌, List, [], ◌∷◌, Option, none, some,
  length, contains, eqb, if◌then◌else◌, lower, strip, words, occurs_in,
}
use cortx_ha.Prelude.{Result, ok, raise, cluster_manager, invalid_node}
use cortx_ha.Prelude.Acting.{Act, pure, fail, attempt, ◌>>=◌, ◌>>◌}
use cortx_ha.Prelude.Dict
use cortx_ha.Prelude.Dict.{Dict}
use cortx_ha.Store.Key.{split_on}
use cortx_ha.Controllers.NodeStatuses
use cortx_ha.Controllers.Shell.{Shell, Output, run_cmd}

abbrev pub retry_count : ℕ
retry_count = 2

abbrev pub base_wait_time : ℕ
base_wait_time = 5

abbrev pub pcs_status_nodes : String
pcs_status_nodes = "pcs status nodes"

abbrev pub pcs_failcount_status : String
pcs_failcount_status = "pcs resource failcount show"

abbrev pub pcs_node_cleanup : String → String
pcs_node_cleanup node = "pcs resource cleanup --node " ++ node

abbrev pub ping : String → String
ping node = "ping -c 1 " ++ node

-- `output.split("\n")`
abbrev pub lines : String → List String
lines s = split_on b'\n' s

-- the second part of a line, if it has one
abbrev pub names_of : List String → Option String
names_of (title ∷ names ∷ rest) = some names
names_of _ = none

abbrev names_in : Option String → List String
names_in none = []
names_in (some names) = words names

-- the loop of `_get_node_list` over the lines
unfoldable pub listed : List String → List String
unfolding split_on words
listed [] = []
listed (line ∷ rest) = names_in (names_of (split_on b':' line)) +++ listed rest

-- `len(nodes) > 1 and nodeid.lower() in nodes[1].strip().lower()`
unfoldable pub is_named : String → List String → Bool
unfolding strip lower occurs_in
is_named nodeid (title ∷ names ∷ rest) = occurs_in (lower nodeid) (lower (strip names))
is_named nodeid _ = false

-- `nodes[0].strip().lower()`
unfoldable pub title_of : List String → String
unfolding strip lower
title_of [] = ""
title_of (title ∷ rest) = lower (strip title)

-- the title of the first line that names the node
unfoldable pub first_title : String → List String → Option String
unfolding split_on
first_title nodeid [] = none
first_title nodeid (line ∷ rest) =
    let nodes = split_on b':' line in
    if is_named nodeid nodes then some (title_of nodes) else first_title nodeid rest

-- the statuses that a line's title may be
abbrev pub titles : List String
titles =
    NodeStatuses.standby ∷ NodeStatuses.standby_with_resources_running ∷ NodeStatuses.maintenance
    ∷ NodeStatuses.cluster_offline ∷ NodeStatuses.online ∷ []

unfoldable pub put_status : Dict String → String → Option String → Dict String
put_status d nodeid none = Dict.put d nodeid NodeStatuses.unknown
put_status d nodeid (some title) = if contains titles title then Dict.put d nodeid title else d

-- the loop of `nodes_status` over the nodes
unfoldable pub statuses_in : String → List String → Dict String → Result (Dict String)
unfolding put_status
statuses_in output [] d = ok d
statuses_in output (nodeid ∷ rest) d =
    if occurs_in nodeid output
    then statuses_in output rest (put_status d nodeid (first_title nodeid (lines output)))
    else raise invalid_node

abbrev lift_result {ℓ} : {W A : Type ℓ} → Result A → Act W A
lift_result r w = (w, r)

-- `_check_non_empty`, on the values
unfoldable pub check_non_empty : List String → Result (Unit {0})
check_non_empty [] = ok _
check_non_empty (v ∷ vs) = if v == "" then raise cluster_manager else check_non_empty vs

module _ {W : Type 0} (shell : Shell W) where
  unfoldable pub check_resource_failcount : String → Act W Bool
  check_resource_failcount node_id = do
    o ← run_cmd shell pcs_failcount_status false
    pure (occurs_in node_id o.out)

  unfoldable pub clean_failure_count : String → Act W (Unit {0})
  clean_failure_count node_id = run_cmd shell (pcs_node_cleanup node_id) false >> pure _

  abbrev pub heal_or : Act W Bool → String → Bool → Act W Bool
  heal_or next node_id false = pure true
  heal_or next node_id true = do clean_failure_count node_id; shell.sleep 10; next

  -- the loop of `heal_resource`, with the number of rounds that are left
  unfoldable pub heal : ℕ → String → Act W Bool
  heal zero node_id = pure false
  heal (suc n) node_id = check_resource_failcount node_id >>= heal_or (heal n node_id) node_id

  unfoldable pub heal_resource : String → Act W Bool
  heal_resource node_id = heal retry_count node_id

  -- `_get_cluster_size`
  unfoldable pub get_cluster_size : Act W ℕ
  get_cluster_size =
      attempt cluster_manager
        do o ← run_cmd shell "pcs status pcsd" true; pure (length (lines o.out))

  unfoldable pub nodes_or_fail : Output → Act W (List String)
  unfolding listed
  nodes_or_fail o = if eqb o.rc 0 then pure (listed (lines o.out)) else fail cluster_manager

  -- `_get_node_list`
  unfoldable pub get_node_list : Act W (List String)
  unfolding nodes_or_fail
  get_node_list = run_cmd shell pcs_status_nodes false >>= nodes_or_fail

  unfoldable pub ids_or_all : Option (List String) → Act W (List String)
  ids_or_all none = get_node_list
  ids_or_all (some []) = get_node_list
  ids_or_all (some (x ∷ xs)) = pure (x ∷ xs)

  unfoldable pub pinged : String → Output → String
  pinged status o = if eqb o.rc 0 then status else NodeStatuses.poweroff

  unfoldable pub ping_if_offline : String → String → Act W String
  unfolding pinged
  ping_if_offline node status =
      if status == NodeStatuses.cluster_offline
      then (run_cmd shell (ping node) false >>= λ o. pure (pinged status o))
      else pure status

  -- the loop of `nodes_status` over the nodes that were found; no key stands twice
  unfoldable pub ping_all : Dict String → Act W (Dict String)
  unfolding ping_if_offline
  ping_all [] = pure []
  ping_all ((node, status) ∷ d) = do
    status' ← ping_if_offline node status
    d' ← ping_all d
    pure ((node, status') ∷ d')

  unfoldable pub nodes_status : Option (List String) → Act W (Dict String)
  nodes_status nodeids = do
    ids ← ids_or_all nodeids
    o ← run_cmd shell pcs_status_nodes false
    found ← lift_result (statuses_in o.out ids [])
    ping_all found

  unfoldable pub with_status : List String → Dict String → List String
  with_status l [] = []
  with_status l ((node, status) ∷ d) =
      if contains l status then node ∷ with_status l d else with_status l d

  -- `_get_filtered_nodes`
  unfoldable pub get_filtered_nodes : List String → Act W (List String)
  get_filtered_nodes l = do d ← nodes_status none; pure (with_status l d)

  -- `_is_node_in_cluster`
  unfoldable pub is_node_in_cluster : String → Act W (Unit {0})
  is_node_in_cluster node_id = do
    nodes ← get_node_list
    if contains nodes node_id then pure _ else fail invalid_node
