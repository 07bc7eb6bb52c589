-- ===== src/Health/Event.antt =====
-- ha/core/system_health/model/health_event.py and the enumerations of
-- ha/core/system_health/const.py, ha/fault_tolerance/const.py and ha/const.py.
use cortx_ha.Prelude.{String, List, [], ◌∷◌, ◌≡◌, refl}
use cortx_ha.Prelude.{Result, ok, ◌>>=◌}
use cortx_ha.Json.{Json, obj, field, end, subscript}

-- The members are what the event was given, or what a document held.
pub record HealthEvent : Type 0 where
  pub source : Json
  pub event_id : Json
  pub event_type : Json
  pub severity : Json
  pub site_id : Json
  pub rack_id : Json
  pub cluster_id : Json
  pub storageset_id : Json
  pub node_id : Json
  pub host_id : Json
  pub resource_type : Json
  pub timestamp : Json
  pub resource_id : Json
  pub specific_info : Json

-- HEALTH_STATUSES
abbrev pub health_statuses : List String
health_statuses =
    "starting" ∷ "recovering" ∷ "online" ∷ "degraded" ∷ "standby" ∷ "unhealthy" ∷ "offline"
    ∷ "failed" ∷ "unknown" ∷ "repairing" ∷ "repaired" ∷ "rebalancing" ∷ []

-- HEALTH_EVENT_SOURCES.MONITOR, the source of the events of the Kubernetes monitor
abbrev pub monitor_source : String
monitor_source = "monitor"

-- CLUSTER_ELEMENTS.NODE
abbrev pub node_element : String
node_element = "node"

-- `HealthEvent.dict_to_object`
unfoldable pub dict_to_object : Json → Result HealthEvent
unfolding subscript
dict_to_object event = do
  source ← subscript event "source"
  event_id ← subscript event "event_id"
  event_type ← subscript event "event_type"
  severity ← subscript event "severity"
  site_id ← subscript event "site_id"
  rack_id ← subscript event "rack_id"
  cluster_id ← subscript event "cluster_id"
  storageset_id ← subscript event "storageset_id"
  node_id ← subscript event "node_id"
  host_id ← subscript event "host_id"
  resource_type ← subscript event "resource_type"
  timestamp ← subscript event "timestamp"
  resource_id ← subscript event "resource_id"
  specific_info ← subscript event "specific_info"
  ok (record {
    source = source;
    event_id = event_id;
    event_type = event_type;
    severity = severity;
    site_id = site_id;
    rack_id = rack_id;
    cluster_id = cluster_id;
    storageset_id = storageset_id;
    node_id = node_id;
    host_id = host_id;
    resource_type = resource_type;
    timestamp = timestamp;
    resource_id = resource_id;
    specific_info = specific_info;
  })

-- `HealthEvent.__str__`: the document that the event is published as
unfoldable pub event_document : HealthEvent → Json
event_document e = obj (
    field "source" e.source (
      field "event_id" e.event_id (
        field "event_type" e.event_type (
          field "severity" e.severity (
            field "site_id" e.site_id (
              field "rack_id" e.rack_id (
                field "cluster_id" e.cluster_id (
                  field "storageset_id" e.storageset_id (
                    field "node_id" e.node_id (
                      field "host_id" e.host_id (
                        field "resource_type" e.resource_type (
                          field "timestamp" e.timestamp (
                            field "resource_id" e.resource_id
                              (field "specific_info" e.specific_info end))))))))))))))

-- A published event is read back as it was: `dict_to_object` inverts `__str__`.
pub dict_to_object-event_document : (e : HealthEvent) → dict_to_object (event_document e) ≡ ok e
unfolding dict_to_object event_document
dict_to_object-event_document e = refl
