-- ===== src/K8s/Parser.antt =====
-- ha/monitor/k8s/parser.py: from a watch event to an alert, by the change of a resource's readiness.
pub mod Edges
use cortx_ha.Prelude.{
  String, Bool, true, false, not, ◌&&◌, List, [], ◌∷◌, Option, none, some, ◌==◌, lower,
  if◌then◌else◌,
}
use cortx_ha.Prelude.{Exn, Result, ok, raise, key_error, name_error, not_supported, ◌>>=◌}
use cortx_ha.Prelude.Dict
use cortx_ha.Prelude.Dict.{Dict}
use cortx_ha.K8s.Alert.{Payload, EventApi}

-- A member is `none` where the document lacks the key.
pub record Condition : Type 0 where
  pub type : Option String
  pub status : Option String

-- `conditions` is `none` where `raw_object["status"]["conditions"]` is not there.
pub record WatchEvent : Type 0 where
  pub type : Option String
  pub name : Option String
  pub labels : Option (Dict String)
  pub conditions : Option (List Condition)

-- resource name to lowered ready status; `None` after an event without one
abbrev pub Cache : Type 0
Cache = Dict (Option String)

-- The loop over the conditions keeps the last "Ready"; an exception ends it.
unfoldable pub ready_from : Option String → List Condition → Option String
ready_from ready_status [] = ready_status
ready_from ready_status (c ∷ cs) = elim c.type [
  | none ↦ ready_status
  | some type ↦
      if type == "Ready"
      then elim c.status [ none ↦ ready_status | some status ↦ ready_from (some status) cs ]
      else ready_from ready_status cs
]

unfoldable pub ready_status_of : WatchEvent → Option String
unfolding ready_from
ready_status_of e = elim e.conditions [ none ↦ none | some cs ↦ ready_from none cs ]

-- `status == 'true'`, where the status may be `None`
abbrev pub is_true : Option String → Bool
is_true none = false
is_true (some s) = s == "true"

-- the status of the alert, if there is one, and the new cache
abbrev pub Change : Type 0
Change = Option String × Cache

-- the branch of `EventStates.ADDED`
unfoldable pub on_added : String → String → Cache → Change
on_added resource_name ready cache =
    (if ready == "true" then some "online" else none, Dict.put cache resource_name (some ready))

abbrev pub modified_from : String → String → Cache → Option String → Change
modified_from resource_name ready cache cached =
    if not (is_true cached) && ready == "true"
    then (some "online", Dict.put cache resource_name (some ready))
    else if is_true cached && not (ready == "true")
    then (some "failed", Dict.put cache resource_name (some ready))
    else (none, cache)

-- the branch of `EventStates.MODIFIED`
unfoldable pub on_modified : String → String → Cache → Change
on_modified resource_name ready cache = elim (Dict.get cache resource_name) [
  | none ↦ (none, cache)
  | some cached ↦ modified_from resource_name ready cache cached
]

-- The part of `parse` behind `ready_status`; both parsers have it.
unfoldable pub on_ready : String → String → Option String → Cache → Change
unfolding on_added on_modified
on_ready event_type resource_name none cache = (none, Dict.put cache resource_name none)
on_ready event_type resource_name (some ready_status) cache =
    if event_type == "ADDED"
    then on_added resource_name (lower ready_status) cache
    else if event_type == "MODIFIED"
    then on_modified resource_name (lower ready_status) cache
    else (none, cache)

abbrev pub or_raise : Exn → Option String → Result String
or_raise exn none = raise exn
or_raise exn (some s) = ok s

-- A local variable that no branch assigned raises where it is read.
abbrev pub assigned : Option String → Result String
assigned = or_raise name_error

-- The type is read only if a ready status was found.
abbrev pub type_if_ready : Exn → WatchEvent → Result String
type_if_ready exn e = elim (ready_status_of e) [
  | none ↦ ok ""
  | some ready_status ↦ or_raise exn e.type
]

module _ (api : EventApi) where
  open api use {Event, make, set_specific_info}

  -- `ObjectParser.__init__`, with the members that every alert overwrites
  unfoldable pub base_payload : String → String → String → Payload
  base_payload res_type res_name health_status = record {
    source = "monitor";
    cluster_id = "";
    site_id = "NOT_DEFINED";
    rack_id = "NOT_DEFINED";
    storageset_id = "NOT_DEFINED";
    node_id = res_name;
    resource_type = res_type;
    resource_id = res_name;
    resource_status = health_status;
    specific_info = [];
  }

  -- `NodeEventParser._create_health_alert`
  unfoldable pub host_alert : String → String → Event
  unfolding base_payload
  host_alert res_name health_status = make (base_payload "host" res_name health_status)

  -- `PodEventParser._create_health_alert`
  unfoldable pub pod_alert : String → String → String → Event
  unfolding base_payload
  pod_alert res_name health_status generation_id =
      set_specific_info (("generation_id", generation_id) ∷ [])
        (make (base_payload "node" res_name health_status))

  abbrev pub Parsed : Type 0
  Parsed = Option Event × Cache

  -- `NodeEventParser.parse`
  unfoldable pub parse_node : WatchEvent → Cache → Result Parsed
  unfolding on_ready ready_status_of host_alert
  parse_node e cache = do
    resource_name ← assigned e.name
    event_type ← type_if_ready name_error e
    let change = on_ready event_type resource_name (ready_status_of e) cache
    ok (
      elim (change.0) [ none ↦ none | some status ↦ some (host_alert resource_name status) ],
      change.1,
    )

  abbrev machine_id : WatchEvent → Result String
  machine_id e = elim e.labels [
    | none ↦ raise key_error
    | some labels ↦ assigned (Dict.get labels "cortx.io/machine-id")
  ]

  -- The generation id is read only where an alert is made.
  abbrev pod_event : WatchEvent → String → Option String → Result (Option Event)
  pod_event e resource_name none = ok none
  pod_event e resource_name (some status) = do
    generation_id ← assigned e.name
    ok (some (pod_alert resource_name status generation_id))

  -- `PodEventParser.parse`
  unfoldable pub parse_pod : WatchEvent → Cache → Result Parsed
  unfolding on_ready ready_status_of pod_alert
  parse_pod e cache = do
    resource_name ← machine_id e
    event_type ← type_if_ready key_error e
    let change = on_ready event_type resource_name (ready_status_of e) cache
    event ← pod_event e resource_name change.0
    ok (event, change.1)

  -- `EventParser.parse`
  unfoldable pub parse : String → WatchEvent → Cache → Result Parsed
  unfolding parse_node parse_pod
  parse k_object e cache =
      if k_object == "node"
      then parse_node e cache
      else if k_object == "pod"
      then parse_pod e cache
      else raise not_supported
