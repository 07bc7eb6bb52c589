-- ===== src/Tests/ControllerRuns.antt =====
-- Runs of the controllers (ha/core/controllers/pcs).
use cortx_ha.Prelude.{
  ℕ, suc, ◌<◌, ◌≤◌, String, ◌==◌, ◌≡◌, refl, true, List, [], ◌∷◌, contains, ◌↔◌, if◌then◌else◌,
  lower, strip, words, occurs_in, is_start, is_space, lstrip, rstrip, starts_word,
}
use cortx_ha.Prelude.{ok}
use cortx_ha.Prelude.Dict
use cortx_ha.Json.{str, obj, field, end, get_of, field?, is_text, is_none, subscript}
use cortx_ha.Store.Key.{split_on}
use cortx_ha.Controllers.Shell.{
  Shell, run_cmd, checked, caught, controller_error_handler, answer, succeeded, failed,
}
use cortx_ha.Controllers.Pcs.{
  pcs_status_nodes, get_node_list, nodes_or_fail, listed, nodes_status, ids_or_all, statuses_in,
  first_title, is_named, title_of, put_status, ping_all, ping_if_offline, is_node_in_cluster,
}
use cortx_ha.Controllers.Pcs.Listing.{
  print_lines, all_names, lacks, no_space, get_node_list-print_lines,
}
use cortx_ha.Controllers.Node.{
  Site, get_node_name, get_offline_nodes, not_online, check_cluster_feasibility, start, start_by,
  node_status_or, stop, stop_by, stop_vm, stop_vm_by,
}
use cortx_ha.Controllers.Node.Modes.{active, active_by, unstandby_and_look, status_of}
use cortx_ha.Controllers.Node.Quorum.{check_cluster_feasibility-Majority}
use cortx_ha.Controllers.Node.Success.{StillStandby, active-StillStandby}
use cortx_ha.Controllers.Node.Starting.{AlreadyOnline, start-AlreadyOnline}
use cortx_ha.Controllers.Node.Halting.{AlreadyOffline, stop_vm-AlreadyOffline}

-- a world that counts the commands, of which that for the nodes prints a text
abbrev pub shell_with : String → Shell ℕ
shell_with text = record {
  process = λ cmd w.
      (suc w, ok (record { out = if cmd == pcs_status_nodes then text else ""; err = ""; rc = 0 }));
  sleep = λ seconds w. (w, ok _);
  describe = λ name e. name;
}

abbrev site_with : String → String → Site ℕ
site_with text health = record {
  shell = shell_with text;
  nodeid_dict = ("pvtfqdn_to_nodeid/n1", "1") ∷ [];
  get_node_status = λ node_id w. (w, ok (obj (field "status" (str health) end)));
}

five_online :
    get_node_list (shell_with " Online: n1 n2 n3\n Standby: n4\n") 0
    ≡ (1, ok ("n1" ∷ "n2" ∷ "n3" ∷ "n4" ∷ []))
unfolding get_node_list run_cmd checked nodes_or_fail listed split_on words starts_word is_space
five_online = refl

check_cluster_feasibility-Majority_example :
    ((check_cluster_feasibility (site_with " Online: n1 n2 n3\n" "online") "1" 0
        ≡ (4, answer succeeded (str "") ""))
      ↔ (2 < 3))
    × (3 ≤ 2
        → check_cluster_feasibility (site_with " Online: n1 n2 n3\n" "online") "1" 0
          ≡ (4, answer failed (str "") "Stopping the node will cause a loss of the quorum"))
unfolding get_node_name get_node_list run_cmd checked nodes_or_fail listed split_on words
    starts_word is_space get_offline_nodes nodes_status ids_or_all statuses_in first_title is_named
    title_of put_status ping_all ping_if_offline not_online lower strip occurs_in is_start lstrip
    rstrip contains Dict.get Dict.put
check_cluster_feasibility-Majority_example =
    check_cluster_feasibility-Majority (site_with " Online: n1 n2 n3\n" "online") "1" 0 refl refl
      refl

abbrev lines_of_two : List (String × List String)
lines_of_two = (" Online", "n1" ∷ "n2" ∷ []) ∷ (" Standby", []) ∷ []

get_node_list-print_lines_example :
    get_node_list (shell_with (print_lines lines_of_two)) 0 ≡ (1, ok (all_names lines_of_two))
unfolding lacks no_space starts_word is_space
get_node_list-print_lines_example =
    get_node_list-print_lines (shell_with (print_lines lines_of_two)) 0 1 "" lines_of_two refl (
      (refl, refl, ((refl, refl, refl, refl), ((refl, refl, refl, refl), _))),
      ((refl, refl, _), _),
    )

abbrev standby_site : Site ℕ
standby_site = site_with " Standby: n1\n" "standby"

abbrev online_site : Site ℕ
online_site = site_with " Online: n1\n" "online"

active_standby : active standby_site "n1" 0 ≡ (4, answer succeeded (str "standby") "")
unfolding active active_by unstandby_and_look status_of is_node_in_cluster get_node_list run_cmd
    checked nodes_or_fail listed split_on words starts_word is_space nodes_status ids_or_all
    statuses_in first_title is_named title_of put_status ping_all ping_if_offline lower strip
    occurs_in is_start lstrip rstrip contains Dict.get Dict.put controller_error_handler caught
    is_text
active_standby = refl

active-StillStandby_example : StillStandby standby_site "n1" 4
unfolding get_of field?
active-StillStandby_example = active-StillStandby standby_site "n1" 0 active_standby refl

start_online : start online_site "1" 0 ≡ (2, answer succeeded (str "online") "")
unfolding start start_by node_status_or get_node_name is_node_in_cluster get_node_list run_cmd
    checked nodes_or_fail listed split_on words starts_word is_space nodes_status ids_or_all
    statuses_in first_title is_named title_of put_status ping_all ping_if_offline lower strip
    occurs_in is_start lstrip rstrip contains Dict.get Dict.put controller_error_handler caught
    is_text get_of field?
start_online = refl

start-AlreadyOnline_example : AlreadyOnline online_site "1" 2
unfolding get_of field?
start-AlreadyOnline_example = start-AlreadyOnline online_site "1" 0 start_online refl

abbrev offline_site : Site ℕ
offline_site = site_with " Offline: n1\n" "offline"

stop_offline :
    stop_vm offline_site "1" true 0
    ≡ (0, answer succeeded (str "Node with node id 1 is already in offline state.") "")
unfolding stop_vm stop_vm_by stop stop_by get_node_name controller_error_handler caught is_text
    is_none get_of field? subscript
stop_offline = refl

stop_vm-AlreadyOffline_example : AlreadyOffline offline_site "1" 0 0
unfolding get_of field?
stop_vm-AlreadyOffline_example = stop_vm-AlreadyOffline offline_site "1" true 0 stop_offline refl
