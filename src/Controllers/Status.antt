-- ===== src/Controllers/Status.antt =====
-- `PcsClusterStatus` (ha/core/controllers/pcs/cluster_status.py). What `ElementTree` reads from the
-- XML of pcs, with the attributes that pcs gives every node and resource, is a parameter, and so is
-- the execution of a command on another node by SSH.
use mathlib.Core.List.{◌++◌ as ◌+++◌}
use cortx_ha.Prelude.{
  ℕ, ◌+◌, ◌/◌, String, ◌==◌, Bool, true, false, not, ◌&&◌, ◌||◌, List, [], ◌∷◌, Option, none, some,
  length, eqb, leb, ltb, if◌then◌else◌, get_last?,
}
use cortx_ha.Prelude.{Result, ok, raise, key_error}
use cortx_ha.Prelude.Acting.{Act, pure, ◌>>=◌, ◌>>◌}
use cortx_ha.Prelude.Dict
use cortx_ha.Prelude.Dict.{Dict}
use cortx_ha.Json.{Json, str}
use cortx_ha.Store.Key.{split_on}
use cortx_ha.Controllers.Shell.{Shell, Output, run_cmd, answer, succeeded, failed}
pub mod Parts
pub mod Health
pub mod Lists

-- the attributes of a node and of a resource
pub record NodeXml : Type 0 where
  pub name : String
  pub online : String
  pub standby : String
  pub standby_onfail : String
  pub maintenance : String
  pub pending : String
  pub shutdown : String

pub record ResourceXml : Type 0 where
  pub id : String
  pub active : String
  pub orphaned : String
  pub blocked : String
  pub failed : String
  pub role : String

-- what `findall` gives for "./nodes/node", "./resources/resource" and "./resources/clone/group/resource"
pub record Tree : Type 0 where
  pub nodes : List NodeXml
  pub resources : List ResourceXml
  pub group_resources : List ResourceXml

pub record ClusterStatus : Type 0 where
  pub nodes_configured : List String
  pub count : ℕ
  pub offline : List String
  pub standby : List String
  pub online : List String
  pub unhealthy : List String
  pub nodes : Dict String
  pub services_online : List String
  pub services_unhealthy : List String
  pub output : Option Tree
  pub is_health_loaded : Bool

abbrev or_whole : Option String → String → String
or_whole none s = s
or_whole (some p) s = p

-- `a_node.split('/')[-1]`
unfoldable pub node_of : String → String
unfolding split_on
node_of s = or_whole (get_last? (split_on b'/' s)) s

unfoldable pub configured : List String → List String
unfolding node_of
configured [] = []
configured (x ∷ xs) = node_of x ∷ configured xs

unfoldable pub all_offline : List String → Dict String → Dict String
all_offline [] d = d
all_offline (x ∷ xs) d = all_offline xs (Dict.put d x "offline")

-- `_initialize_node_health`
unfoldable pub initialize_node_health : ClusterStatus → ClusterStatus
unfolding all_offline
initialize_node_health s = record s {
  count = 0;
  offline = [];
  standby = [];
  online = [];
  unhealthy = [];
  nodes = all_offline s.nodes_configured [];
  services_online = [];
  services_unhealthy = [];
}

-- `__init__`, for the nodes that the configuration lists, if it lists any
unfoldable pub init : Option (List String) → ClusterStatus
unfolding configured
init nodelist = record {
  nodes_configured = configured (listed nodelist);
  count = 0;
  offline = [];
  standby = [];
  online = [];
  unhealthy = [];
  nodes = [];
  services_online = [];
  services_unhealthy = [];
  output = none;
  is_health_loaded = false;
}
  where
    listed : Option (List String) → List String
    listed none = []
    listed (some l) = l

-- where a node goes
pub data Place : Type 0 where
  to_offline to_unhealthy to_standby to_online : Place

unfoldable pub place : NodeXml → Place
place n =
    if n.online == "false"
    then to_offline
    else if n.standby_onfail == "true"
        || n.maintenance == "true"
        || n.pending == "true"
        || n.shutdown == "true"
    then to_unhealthy
    else if n.online == "true" && n.standby == "true"
    then to_standby
    else if n.online == "true"
    then to_online
    else to_unhealthy

unfoldable pub put_node : Place → String → ClusterStatus → ClusterStatus
put_node to_offline name s = record s {
  offline = s.offline +++ name ∷ [];
  nodes = Dict.put s.nodes name "offline";
}
put_node to_unhealthy name s = record s {
  unhealthy = s.unhealthy +++ name ∷ [];
  nodes = Dict.put s.nodes name "unhealthy";
}
put_node to_standby name s = record s {
  standby = s.standby +++ name ∷ [];
  nodes = Dict.put s.nodes name "standby";
}
put_node to_online name s = record s {
  online = s.online +++ name ∷ [];
  nodes = Dict.put s.nodes name "online";
}

unfoldable pub put_nodes : List NodeXml → ClusterStatus → ClusterStatus
put_nodes [] s = s
put_nodes (n ∷ ns) s = put_nodes ns (put_node (place n) n.name s)

unfoldable pub nodes_health : Option Tree → ClusterStatus → ClusterStatus
unfolding put_nodes
nodes_health none s = s
nodes_health (some t) s = put_nodes t.nodes (record s { count = length t.nodes })

-- `_load_nodes_health`
unfoldable pub load_nodes_health : ClusterStatus → ClusterStatus
unfolding nodes_health
load_nodes_health s = nodes_health s.output s

unfoldable pub is_started : ResourceXml → Bool
is_started r =
    if r.active == "false" || r.orphaned == "true" || r.blocked == "true" || r.failed == "true"
    then false
    else r.role == "Started"

unfoldable pub put_service : Bool → String → ClusterStatus → ClusterStatus
put_service true id s = record s { services_online = s.services_online +++ id ∷ [] }
put_service false id s = record s { services_unhealthy = s.services_unhealthy +++ id ∷ [] }

unfoldable pub put_services : List ResourceXml → ClusterStatus → ClusterStatus
put_services [] s = s
put_services (r ∷ rs) s = put_services rs (put_service (is_started r) r.id s)

unfoldable pub services_health : Option Tree → ClusterStatus → ClusterStatus
unfolding put_services
services_health none s = s
services_health (some t) s =
    put_services ((t.resources +++ t.group_resources) +++ t.group_resources) s

-- `_load_services_health`
unfoldable pub load_services_health : ClusterStatus → ClusterStatus
unfolding services_health
load_services_health s = services_health s.output s

-- `get_cluster_health`; the lists in its error texts are left out
unfoldable pub get_cluster_health : ClusterStatus → Json
get_cluster_health s =
    if not s.is_health_loaded
    then answer failed (str "") "Health is not loaded."
    else if leb (length s.nodes_configured / 2 + 1) (length s.offline)
    then answer succeeded (str "offline") ""
    else if eqb (length s.nodes_configured) (length s.standby)
    then answer succeeded (str "standby") ""
    else if not (eqb (length s.nodes_configured) s.count)
    then answer succeeded (str "unhealthy") "Some nodes are missing from cluster."
    else if ltb (length s.online) (length s.nodes_configured)
    then answer succeeded (str "degraded") "All nodes are not online."
    else if ltb 0 (length s.services_unhealthy)
    then answer succeeded (str "degraded") "All services are not started."
    else answer succeeded (str "online") ""

unfoldable pub node_answer : Option String → Result Json
node_answer none = raise key_error
node_answer (some status) = ok (answer succeeded (str status) "")

-- `get_node_health`
unfoldable pub get_node_health : ClusterStatus → String → Result Json
unfolding node_answer
get_node_health s node_name =
    if s.is_health_loaded
    then node_answer (Dict.get s.nodes node_name)
    else ok (answer failed (str "") "Health is not loaded.")

module _ {W : Type 0} (shell : Shell W) (execute : String → String → Act W String)
    (fromstring : String → Result Tree) where
  abbrev pcs_status_xml : String
  pcs_status_xml = "pcs status --full xml"

  unfoldable pub remote_or :
      (ClusterStatus → W → W × (ClusterStatus × Option String))
      → String
      → ClusterStatus
      → W × Result String
      → W × (ClusterStatus × Option String)
  remote_or next node s (w, ok res) = (w, (record s { offline = [] }, some res))
  remote_or next node s (w, raise e) = next (record s { offline = s.offline +++ node ∷ [] }) w

  -- `_get_pcs_status_remote`, over the nodes that are left to ask
  unfoldable pub get_pcs_status_remote :
      List String → ClusterStatus → W → W × (ClusterStatus × Option String)
  unfolding remote_or
  get_pcs_status_remote [] s w = (w, (s, none))
  get_pcs_status_remote (node ∷ rest) s w =
      remote_or (get_pcs_status_remote rest) node s (execute node pcs_status_xml w)

  unfoldable pub local_or_remote :
      ClusterStatus → W × Result Output → W × (ClusterStatus × Option String)
  local_or_remote s (w, raise e) = get_pcs_status_remote s.nodes_configured s w
  local_or_remote s (w, ok o) =
      if eqb o.rc 0 then (w, (s, some o.out)) else get_pcs_status_remote s.nodes_configured s w

  unfoldable pub with_tree : ClusterStatus → Option String → Result ClusterStatus
  with_tree s none = ok (record s { output = none })
  with_tree s (some text) = tree_or (fromstring text)
    where
      tree_or : Result Tree → Result ClusterStatus
      tree_or (ok t) = ok (record s { output = some t })
      tree_or (raise e) = raise e

  -- `_get_pcs_status`
  unfoldable pub get_pcs_status : ClusterStatus → Act W ClusterStatus
  unfolding local_or_remote with_tree
  get_pcs_status s w =
      let (w', (s', text)) =
        local_or_remote (initialize_node_health s) (run_cmd shell pcs_status_xml true w) in
      (w', with_tree s' text)

  -- `load`
  unfoldable pub load : ClusterStatus → Act W ClusterStatus
  unfolding get_pcs_status
  load s = do
    loaded ← get_pcs_status s
    pure (record (load_services_health (load_nodes_health loaded)) { is_health_loaded = true })

  -- `refresh`
  unfoldable pub refresh : ClusterStatus → Act W ClusterStatus
  refresh s = load (initialize_node_health s)
