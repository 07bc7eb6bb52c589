-- ===== src/Agents/Alerts/Running.antt =====
-- What the agent for hardware answers when it is asked to start, to stop and to monitor in any order.
use cortx_ha.Prelude.{
  String, ◌≡◌, refl, sym, ap, ◌∙◌, ◌↔◌, Bool, true, false, List, [], ◌∷◌, Bool-cases, inl, inr,
  arith,
}
use cortx_ha.Prelude.{Result, ok}
use cortx_ha.Prelude.Acting.{Act}
use cortx_ha.Prelude.Dict.{Dict}
use cortx_ha.Agents.Alerts.{
  State, starting, running, Operation, monitor, start, stop, Code, not_running, Host, Agent,
  DecisionMonitor, key_of, acknowledge_event, monitor_action, create, get_status, is_absent,
  act_hardware, monitor_hardware, start_hardware, stop_hardware, get_params, hardware, answered,
  main,
}
use cortx_ha.Agents.Alerts.Files.{
  Answers, continue-Answers, get_status-exists, called-Answers, acknowledge_event-Acks,
  monitor_action-Acks, create-exists, delete-exists, answered-exists, answered-runs, main-eq,
}

-- was the agent started and not stopped since, by the operations in order
unfoldable pub is_started : Bool → List Operation → Bool
is_started before [] = before
is_started before (start ∷ actions) = is_started true actions
is_started before (stop ∷ actions) = is_started false actions
is_started before (monitor ∷ actions) = is_started before actions

is_started-cons :
    (before : Bool) (action : Operation) (actions : List Operation)
    → is_started (is_started before (action ∷ [])) actions ≡ is_started before (action ∷ actions)
unfolding is_started
is_started-cons before monitor actions = refl
is_started-cons before start actions = refl
is_started-cons before stop actions = refl

module _ {S : Type 0} where
  -- Pacemaker calls the agent with one operation after another
  unfoldable pub run :
      (Agent → Operation → Act (Host S) Code)
      → Dict String
      → Dict String
      → List Operation
      → Host S
      → Host S
  run resource nodes env [] h = h
  run resource nodes env (action ∷ actions) h =
      run resource nodes env actions (main resource nodes env action h).0

  module _ (dm : DecisionMonitor S) (a : Agent) where
    monitor-absent :
        (state : State) (h : Host S)
        → is_absent a state h ≡ true
        → monitor_hardware dm a state h ≡ (h, ok not_running)
    unfolding monitor_hardware
    monitor-absent state h e = ground arith

    act-Answers : (state : State) (h : Host S) → Answers h (act_hardware dm a state h)
    unfolding act_hardware
    act-Answers state h =
        continue-Answers h (get_status dm.get_resource_group_status a h) _
          (get_status-exists dm.get_resource_group_status a h)
          λ (self_node, s1, s2) v.
            let key = key_of a.path self_node in
            let ack = acknowledge_event dm.acknowledge_resource_group key in
            called-Answers (monitor_action ack state s1 s2)
              (monitor_action-Acks ack state s1 s2
                (acknowledge_event-Acks dm.acknowledge_resource_group key))
              v

    monitor-present :
        (state : State) (h : Host S)
        → is_absent a state h ≡ false
        → monitor_hardware dm a state h ≡ act_hardware dm a state h
    unfolding monitor_hardware
    monitor-present state h e = ground arith

    monitor-exists :
        (state : State) (h : Host S) → (monitor_hardware dm a state h).0.exists ≡ h.exists
    monitor-exists state h = elim (Bool-cases (is_absent a state h)) [
      | inl away ↦ ap (λ (p : Host S × Result Code). p.0.exists) (monitor-absent state h away)
      | inr here ↦
          ap (λ (p : Host S × Result Code). p.0.exists) (monitor-present state h here)
          ∙ (act-Answers state h).0
    ]

    hardware-exists :
        (action : Operation) (h : Host S)
        → (hardware dm a action h).0.exists a.filename
          ≡ is_started (h.exists a.filename) (action ∷ [])
    unfolding hardware start_hardware stop_hardware is_started
    hardware-exists monitor h = ap (λ (e : String → Bool). e a.filename) (monitor-exists running h)
    hardware-exists start h =
        ap (λ (e : String → Bool). e a.filename) (monitor-exists starting (create a.filename h))
        ∙ create-exists a.filename h
    hardware-exists stop h = delete-exists a.filename h

    -- a monitor answers that the agent is not running where its file is away
    answer-away :
        (h : Host S)
        → h.exists a.filename ≡ false
        → (answered (hardware dm a monitor h)).1 ≡ not_running
    unfolding answered hardware is_absent
    answer-away h e = ap (λ p. (answered p).1) (monitor-absent running h (ground arith))

    answer-here :
        (h : Host S)
        → h.exists a.filename ≡ true
        → ¬ ((answered (hardware dm a monitor h)).1 ≡ not_running)
    unfolding hardware is_absent
    answer-here h e =
        let same = monitor-present running h (ground arith) in
        answered-runs (monitor_hardware dm a running h)
          λ q. (act-Answers running h).1 (sym (ap (λ (p : Host S × Result Code). p.1) same) ∙ q)

  run-exists :
      (dm : DecisionMonitor S) (nodes env : Dict String) (a : Agent) (actions : List Operation)
      (h : Host S)
      → get_params nodes env ≡ ok a
      → (run (hardware dm) nodes env actions h).exists a.filename
        ≡ is_started (h.exists a.filename) actions
  unfolding run is_started
  run-exists dm nodes env a [] h e = refl
  run-exists dm nodes env a (action ∷ actions) h e =
      let after = (main (hardware dm) nodes env action h).0 in
      let one =
        ap (λ (p : Host S × Code). p.0.exists a.filename)
          (main-eq (hardware dm) nodes env a action h e)
        ∙ ap (λ (t : String → Bool). t a.filename) (answered-exists (hardware dm a action h))
        ∙ hardware-exists dm a action h in
      run-exists dm nodes env a actions after e
      ∙ ap (λ b. is_started b actions) one
      ∙ is_started-cons (h.exists a.filename) action actions

  -- Where the parameters of an agent for hardware are there, and Pacemaker has asked for any operations
  -- in any order, however the operations of the decision monitor end: the file of the agent is there
  -- exactly where the last start or stop was a start, or there was none and the file was there before;
  -- and a monitor then answers that the agent is not running exactly where the file is not there.
  pub run-Follows :
      (dm : DecisionMonitor S) (nodes env : Dict String) (a : Agent) (actions : List Operation)
      (h : Host S)
      → get_params nodes env ≡ ok a
      → ((run (hardware dm) nodes env actions h).exists a.filename
          ≡ is_started (h.exists a.filename) actions)
        × ((main (hardware dm) nodes env monitor (run (hardware dm) nodes env actions h)).1
              ≡ not_running
            ↔ is_started (h.exists a.filename) actions ≡ false)
  run-Follows dm nodes env a actions h e =
      let there = run-exists dm nodes env a actions h e in
      let now = run (hardware dm) nodes env actions h in
      let code =
        ap (λ (p : Host S × Code). p.1) (main-eq (hardware dm) nodes env a monitor now e) in
      (
        there,
        (
          (λ away. elim (Bool-cases (is_started (h.exists a.filename) actions)) [
            | inl on ↦ absurd (answer-here dm a now (there ∙ on) (sym code ∙ away))
            | inr off ↦ off
          ]),
          (λ off. code ∙ answer-away dm a now (there ∙ off)),
        ),
      )
