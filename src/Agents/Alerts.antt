-- ===== src/Agents/Alerts.antt =====
-- The agents for alerts (ha/resource/alert_monitor_resource_agent.py). The actions and the decision
-- monitor are those of cortx-utils: `S` is its state, and reading a status and acknowledging one are
-- parameters. The files of an agent are a part of the state of the host. The set of the nodes is in
-- the order of their first occurrence; the agents are for two nodes, of which one is left.
use Prim.Native.String.{◌++◌}
use cortx_ha.Prelude.{
  String, ◌==◌, Bool, true, false, not, ◌&&◌, List, [], ◌∷◌, Option, none, some, contains, remove,
  if◌then◌else◌,
}
use cortx_ha.Prelude.{Result, ok, raise, index_error, type_error}
use cortx_ha.Prelude.Acting.{Act, pure, lift, call, ◌>>=◌, ◌>>◌}
use cortx_ha.Prelude.Dict
use cortx_ha.Prelude.Dict.{Dict}
pub mod Deciding
pub mod Files
pub mod Running
pub mod Stopping

-- `Action` of cortx-utils
pub data Action : Type 0 where
  failed healthy resolved restart other : Action

-- what Pacemaker asks the agent in
pub data State : Type 0 where
  starting running stopping : State

-- what Pacemaker asks for
pub data Operation : Type 0 where
  monitor start stop : Operation

-- what the agent returns: the codes of OCF, and the action that a stop sees
pub data Code : Type 0 where
  success err_generic err_unimplemented not_running : Code
  restarted : Code

pub record Host (S : Type 0) : Type 0 where
  pub exists : String → Bool
  pub decisions : S

-- the parameters of an agent: its environment, and the nodes of the schema
pub record Agent : Type 0 where
  pub filename : String
  pub path : String
  pub node : String
  pub nodes : Dict String

pub record DecisionMonitor (S : Type 0) : Type 0 where
  pub get_resource_status : String → Act S Action
  pub get_resource_group_status : String → Act S Action
  pub acknowledge_resource : String → Act S (Unit {0})
  pub acknowledge_resource_group : String → Act S (Unit {0})

-- `list(set(nodes.values()))`
unfoldable pub distinct : List String → List String → List String
distinct seen [] = seen
distinct seen (x ∷ xs) = if contains seen x then distinct seen xs else distinct (add_last seen x) xs
  where
    add_last : List String → String → List String
    add_last [] x = x ∷ []
    add_last (y ∷ ys) x = y ∷ add_last ys x

abbrev first_or_error : List String → Result String
first_or_error [] = raise index_error
first_or_error (x ∷ xs) = ok x

-- the other node of the schema
unfoldable pub other_of : Dict String → String → Result String
unfolding distinct
other_of nodes self_node = first_or_error (remove (distinct [] (Dict.values nodes)) self_node)

abbrev pub is_failed : Action → Bool
is_failed failed = true
is_failed _ = false

abbrev pub key_of : String → String → String
key_of path node = (path ++ "_") ++ node

abbrev must_be_there : State → Bool
must_be_there stopping = false
must_be_there _ = true

abbrev pub is_resolved : Action → Bool
is_resolved resolved = true
is_resolved _ = false

unfoldable pub put : String → Bool → (String → Bool) → String → Bool
put filename there exists name = if filename == name then there else exists name

module _ {S : Type 0} where
  -- an operation of the decision monitor
  unfoldable pub ask : {A : Type 0} → Act S A → Act (Host S) A
  ask m h = let (s, r) = m h.decisions in (record h { decisions = s }, r)

  unfoldable pub caught : Host S × Result (Unit {0}) → Host S × Code
  caught (h, ok _) = (h, success)
  caught (h, raise e) = (h, err_generic)

  -- `_acknowledge_event` and `_acknowledge_event_group`, with the method that acknowledges
  unfoldable pub acknowledge_event : (String → Act S (Unit {0})) → String → Host S → Host S × Code
  unfolding caught ask
  acknowledge_event ack key h = caught (ask (ack key) h)

  -- the branches of `_monitor_action` for a status of the node, where the other has not failed as well
  unfoldable pub action_by : (Host S → Host S × Code) → State → Action → Host S → Host S × Code
  action_by ack state failed h = (h, err_generic)
  action_by ack state healthy h = (h, success)
  action_by ack state resolved h = ack h
  action_by ack starting restart h = (h, success)
  action_by ack running restart h = (h, err_generic)
  action_by ack stopping restart h = let (h', _) = ack h in (h', restarted)
  action_by ack state other h = (h, err_unimplemented)

  -- `_monitor_action`, where `ack` acknowledges the key of the node
  unfoldable pub monitor_action :
      (Host S → Host S × Code) → State → Action → Action → Host S → Host S × Code
  unfolding action_by
  monitor_action ack state self_node_status other_node_status h =
      if is_failed self_node_status && is_failed other_node_status
      then (h, success)
      else action_by ack state self_node_status h

  -- `open(filename, 'w')` of a file that is not there
  unfoldable pub create : String → Host S → Host S
  unfolding put
  create filename h =
      if h.exists filename then h else record h { exists = put filename true h.exists }

  unfoldable pub delete : String → Host S → Host S
  unfolding put
  delete filename h =
      if h.exists filename then record h { exists = put filename false h.exists } else h

  -- the status of this node and of the other
  unfoldable pub get_status :
      (String → Act S Action) → Agent → Act (Host S) (String × Action × Action)
  unfolding other_of ask
  get_status callback_status a = do
    self_node ← lift (Dict.subscript a.nodes "local")
    other_node ← lift (other_of a.nodes self_node)
    self_node_status ← ask (callback_status (key_of a.path self_node))
    other_node_status ← ask (callback_status (key_of a.path other_node))
    pure (self_node, self_node_status, other_node_status)

  -- is the agent asked of a resource that is not there
  unfoldable pub is_absent : Agent → State → Host S → Bool
  is_absent a state h = not (h.exists a.filename) && must_be_there state

  module _ (dm : DecisionMonitor S) (a : Agent) where
    -- `HardwareResourceAgent.monitor`, past the test for the file
    unfoldable pub act_hardware : State → Act (Host S) Code
    act_hardware state =
        get_status dm.get_resource_group_status a
        >>= λ (self_node, self_node_status, other_node_status). call (
            monitor_action
              (acknowledge_event dm.acknowledge_resource_group (key_of a.path self_node)) state
              self_node_status other_node_status)

    unfoldable pub monitor_hardware : State → Act (Host S) Code
    unfolding is_absent act_hardware
    monitor_hardware state h =
        if is_absent a state h then (h, ok not_running) else act_hardware state h

    -- `HardwareResourceAgent.start`
    unfoldable pub start_hardware : Act (Host S) Code
    unfolding create
    start_hardware h = monitor_hardware starting (create a.filename h)

    -- `HardwareResourceAgent.stop`
    unfoldable pub stop_hardware : Act (Host S) Code
    unfolding delete
    stop_hardware h = (delete a.filename h, ok success)

    -- an event of the other node that is resolved is acknowledged
    unfoldable pub ack_other : String → Action → Act (Host S) (Unit {0})
    ack_other self_node other_node_status =
        if not (a.node == "-") && not (a.node == self_node) && is_resolved other_node_status
        then (call (acknowledge_event dm.acknowledge_resource (key_of a.path a.node)) >> pure _)
        else pure _

    -- `IEMResourceAgent.monitor`, past the reading of the statuses
    unfoldable pub decide_iem : State → String × Action × Action → Act (Host S) Code
    unfolding ack_other
    decide_iem state (self_node, self_node_status, other_node_status) =
        ack_other self_node other_node_status >>= λ _. call (
          monitor_action (acknowledge_event dm.acknowledge_resource (key_of a.path self_node)) state
            self_node_status other_node_status)

    -- the same, past the test for the file
    unfoldable pub act_iem : State → Act (Host S) Code
    unfolding decide_iem
    act_iem state = get_status dm.get_resource_status a >>= decide_iem state

    unfoldable pub monitor_iem : State → Act (Host S) Code
    unfolding is_absent act_iem
    monitor_iem state h = if is_absent a state h then (h, ok not_running) else act_iem state h

    -- `IEMResourceAgent.start`
    unfoldable pub start_iem : Act (Host S) Code
    unfolding create
    start_iem h = monitor_iem starting (create a.filename h)

    -- `IEMResourceAgent.stop`
    unfoldable pub stop_iem : Act (Host S) Code
    unfolding delete
    stop_iem = monitor_iem stopping >>= λ _. λ h. (delete a.filename h, ok success)

abbrev or_dash : Option String → String
or_dash none = "-"
or_dash (some node) = node

-- `_get_params`, with the nodes of the schema; where a parameter is missing the source returns a number,
-- which is no tuple
unfoldable pub get_params : Dict String → Dict String → Result Agent
get_params nodes env = both (Dict.get env "OCF_RESKEY_filename") (Dict.get env "OCF_RESKEY_path")
  where
    both : Option String → Option String → Result Agent
    both (some filename) (some path) = ok (record {
      filename = filename;
      path = path;
      node = or_dash (Dict.get env "OCF_RESKEY_node");
      nodes = nodes;
    })
    both _ _ = raise type_error

module _ {S : Type 0} where
  -- a method of `HardwareResourceAgent`
  unfoldable pub hardware : DecisionMonitor S → Agent → Operation → Act (Host S) Code
  hardware dm a monitor = monitor_hardware dm a running
  hardware dm a start = start_hardware dm a
  hardware dm a stop = stop_hardware dm a

  -- a method of `IEMResourceAgent`
  unfoldable pub iem : DecisionMonitor S → Agent → Operation → Act (Host S) Code
  iem dm a monitor = monitor_iem dm a running
  iem dm a start = start_iem dm a
  iem dm a stop = stop_iem dm a

  -- `except Exception: return OCF_ERR_GENERIC`
  unfoldable pub answered : Host S × Result Code → Host S × Code
  answered (h, ok code) = (h, code)
  answered (h, raise e) = (h, err_generic)

  -- `main`, for an operation
  unfoldable pub main :
      (Agent → Operation → Act (Host S) Code)
      → Dict String
      → Dict String
      → Operation
      → Host S
      → Host S × Code
  unfolding answered get_params
  main resource nodes env action h =
      answered ((lift (get_params nodes env) >>= λ a. resource a action) h)
