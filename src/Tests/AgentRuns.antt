-- ===== src/Tests/AgentRuns.antt =====
-- Runs of the agents for alerts on the two nodes of a schema.
use cortx_ha.Prelude.{
  ℕ, suc, String, ◌==◌, ◌≡◌, refl, ◌↔◌, ◌⊎◌, Bool, true, false, List, [], ◌∷◌, if◌then◌else◌,
}
use cortx_ha.Prelude.{Exn, ok, raise, key_error}
use cortx_ha.Prelude.Dict
use cortx_ha.Prelude.Dict.{Dict}
use cortx_ha.Agents.Alerts.{
  Action, failed, healthy, resolved, monitor, start, stop, success, err_generic, not_running, Host,
  Agent, DecisionMonitor, monitor_action, get_status, get_params, monitor_hardware, start_hardware,
  act_hardware, hardware, iem, main,
}
use cortx_ha.Agents.Alerts.Running.{is_started, run, run-Follows}
use cortx_ha.Agents.Alerts.Stopping.{stop-Outcome}

-- the first node has failed; the state counts the acknowledgements
abbrev monitor_of_node1 : DecisionMonitor ℕ
monitor_of_node1 = record {
  get_resource_status = λ key n. (n, if key == "io_node1" then ok failed else ok resolved);
  get_resource_group_status = λ key n. (n, if key == "io_node1" then ok failed else ok healthy);
  acknowledge_resource = λ key n. (suc n, ok _);
  acknowledge_resource_group = λ key n. (suc n, raise key_error);
}

abbrev two_nodes : Dict String
two_nodes = ("node1", "node1") ∷ ("node2", "node2") ∷ ("local", "node1") ∷ []

abbrev io_env : Dict String
io_env = ("OCF_RESKEY_filename", "io") ∷ ("OCF_RESKEY_path", "io") ∷ []

abbrev io_agent : Agent
io_agent = record { filename = "io"; path = "io"; node = "-"; nodes = two_nodes }

abbrev no_files : Host ℕ
no_files = record { exists = λ name. false; decisions = 0 }

io_params : get_params two_nodes io_env ≡ ok io_agent
unfolding get_params Dict.get
io_params = refl

run-Follows_example :
    ((run (hardware monitor_of_node1) two_nodes io_env (start ∷ monitor ∷ []) no_files).exists "io"
      ≡ is_started false (start ∷ monitor ∷ []))
    × ((main
            (hardware monitor_of_node1)
            two_nodes
            io_env
            monitor
            (run (hardware monitor_of_node1) two_nodes io_env (start ∷ monitor ∷ []) no_files)).1
          ≡ not_running
        ↔ is_started false (start ∷ monitor ∷ []) ≡ false)
run-Follows_example =
    run-Follows monitor_of_node1 two_nodes io_env io_agent (start ∷ monitor ∷ []) no_files io_params

-- node1 has failed alone: its agent fails over
main_failed :
    (main
      (hardware monitor_of_node1)
      two_nodes
      io_env
      monitor
      (run (hardware monitor_of_node1) two_nodes io_env (start ∷ []) no_files)).1
    ≡ err_generic
unfolding main run hardware start_hardware monitor_hardware act_hardware Dict.get get_status
    cortx_ha.Prelude.remove cortx_ha.Prelude.contains monitor_action
main_failed = refl

stop-Outcome_example :
    let r = main (iem monitor_of_node1) two_nodes io_env stop no_files in
    let reading = (get_status monitor_of_node1.get_resource_status io_agent no_files).1 in
    ((r.1 ≡ success)
      × (r.0.exists "io" ≡ false)
      × ((st : String × Action × Action) × (reading ≡ ok st)))
    ⊎ ((r.1 ≡ err_generic) × (r.0.exists ≡ no_files.exists) × ((x : Exn) × (reading ≡ raise x)))
stop-Outcome_example = stop-Outcome monitor_of_node1 two_nodes io_env io_agent no_files io_params
