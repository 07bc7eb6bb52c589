-- ===== src/Tests/ReachRuns.antt =====
-- Runs of start and stop of the cluster controller (ha/core/controllers/pcs/cluster_controller.py).
use cortx_ha.Prelude.{
  ℕ, ◌+◌, ◌/◌, ◌≤◌, ◌≡◌, refl, true, ◌∷◌, [], some, length, lower, occurs_in, is_start, strip,
  contains, words, starts_word, is_space, lstrip, rstrip,
}
use cortx_ha.Prelude.{ok}
use cortx_ha.Prelude.Dict
use cortx_ha.Json.{str, subscript, get_of, field?, is_text}
use cortx_ha.Store.Key.{split_on}
use cortx_ha.Controllers.Shell.{run_cmd, checked, answer, succeeded, controller_error_handler}
use cortx_ha.Controllers.Pcs.{
  get_node_list, nodes_or_fail, listed, get_filtered_nodes, with_status, nodes_status, ids_or_all,
  statuses_in, first_title, is_named, title_of, put_status, ping_all, ping_if_offline,
}
use cortx_ha.Controllers.Status.{
  NodeXml, Tree, init, node_of, initialize_node_health, put_nodes, put_node, put_services,
  put_service, place, is_started, get_cluster_health, load, get_pcs_status, local_or_remote,
  with_tree, nodes_health, services_health,
}
use cortx_ha.Controllers.Status.Health.{IsOnline}
use cortx_ha.Controllers.Cluster.{
  Site, NodeController, is_pcs_cluster_running, get_node_group, fail_unless, node_list, texts_of,
  texts, groups, get_node_id, last_id, finish, verify_expected_cluster_status, rounds, verify,
  status, load_and_answer, or_retry, items, group_of, other_groups, flat, seconds, time_left,
}
use cortx_ha.Controllers.Cluster.Starting.{
  start, start_cluster_if_down, start_all, start_groups, start_nodes, check_failed, enable_stonith,
}
use cortx_ha.Controllers.Cluster.Stopping.{stop, stop_nodes, stop_limit, pcs_stop_cluster}
use cortx_ha.Controllers.Cluster.Reaching.{Reached, start-Online, stop-Offline}
use cortx_ha.Tests.ClusterRuns.{cluster_site, idle, online_xml, one_node}

-- a site of one node, whose status is what the tree says
abbrev site_of : Tree → Site ℕ
site_of t = record cluster_site {
  nodeid_dict = ("pvtfqdn_to_nodeid/n1", "1") ∷ [];
  fromstring = λ text. ok t;
  nodelist = some ("nodes/n1" ∷ []);
}

abbrev answering : NodeController ℕ
answering = record idle { start = λ node w. (w, answer succeeded (str "") "") }

started :
    start (site_of one_node) answering true 120 0
    ≡ (4, answer succeeded (str "Cluster is online.") "")
unfolding start is_pcs_cluster_running start_cluster_if_down start_all get_node_group fail_unless
    node_list texts_of texts groups start_groups start_nodes get_node_id last_id check_failed
    enable_stonith finish verify_expected_cluster_status rounds verify status load_and_answer
    or_retry items lower load get_pcs_status local_or_remote with_tree nodes_health services_health
    get_cluster_health init node_of initialize_node_health put_nodes put_node put_services
    put_service place is_started get_node_list run_cmd checked nodes_or_fail listed split_on words
    starts_word is_space controller_error_handler subscript get_of is_text
    cortx_ha.Controllers.Status.load_services_health cortx_ha.Controllers.Status.load_nodes_health
started = refl

abbrev down_xml : NodeXml
down_xml = record online_xml { online = "false" }

abbrev node_down : Tree
node_down = record one_node { nodes = down_xml ∷ [] }

stopped :
    stop (site_of node_down) answering true 0 ≡ (7, answer succeeded (str "Cluster is offline.") "")
unfolding stop is_pcs_cluster_running get_node_group fail_unless node_list texts_of texts groups
    group_of other_groups flat stop_nodes stop_limit pcs_stop_cluster seconds time_left
    get_filtered_nodes with_status nodes_status ids_or_all statuses_in first_title is_named title_of
    put_status ping_all ping_if_offline strip lstrip rstrip occurs_in is_start contains field?
    Dict.get Dict.put finish verify_expected_cluster_status rounds verify status load_and_answer
    or_retry items lower load get_pcs_status local_or_remote with_tree nodes_health services_health
    get_cluster_health init node_of initialize_node_health put_nodes put_node put_services
    put_service place is_started get_node_list run_cmd checked nodes_or_fail listed split_on words
    starts_word is_space controller_error_handler subscript get_of is_text
    cortx_ha.Controllers.Status.load_services_health cortx_ha.Controllers.Status.load_nodes_health
stopped = refl

start-Online_example :
    (reached : Reached (site_of one_node) answering "online" 4) × IsOnline reached.loaded
unfolding get_of field?
start-Online_example = start-Online (site_of one_node) answering true 120 0 started refl

stop-Offline_example :
    (reached : Reached (site_of node_down) answering "offline" 7) × (length
            reached.loaded.nodes_configured
          / 2
        + 1
      ≤ length reached.loaded.offline)
unfolding get_of field?
stop-Offline_example = stop-Offline (site_of node_down) answering true 0 stopped refl
