-- ===== src/Events/Parser.antt =====
-- ha/core/event_analyzer/parser/parser.py: from a message to a health event.
pub mod Sources
pub mod Cluster
use Prim.Native.Char.{code}
use Prim.Native.String.{len, slice}
use text.Mathlib.Text.{starts_with}
use cortx_ha.Prelude.{
  ℕ, String, Bool, true, false, not, ◌&&◌, ◌||◌, List, Option, none, some, ◌==◌, eqb, lower,
  if◌then◌else◌, Bool-cases,
}
use cortx_ha.Prelude.{
  Result, ok, raise, index_error, attribute_error, type_error, parser_error, ◌>>=◌, reraise,
}
use cortx_ha.Prelude.Dict
use cortx_ha.Json.{Json, num, str, obj, end, field, Fields, subscript, truthy, is_text, lookup_by}
use cortx_ha.Health.Event.{HealthEvent, dict_to_object, node_element}
use cortx_ha.Health.StatusMapper.{event_to_severity_mapping}
use cortx_ha.Events.Attrs.{Attrs}
use cortx_ha.Events.Filter.{Message, inner, lower_of}

-- The members of a sensor response that both parsers of SSPL messages read.
pub record SensorParts : Type 0 where
  pub alert_id : Json
  pub alert_type : Json
  pub severity : Json
  pub site_id : Json
  pub rack_id : Json
  pub cluster_id : Json
  pub host_id : Json
  pub event_time : Json

unfoldable pub sensor_parts : Json → Result SensorParts
sensor_parts alert = do
  sensor ← subscript alert "sensor_response_type"
  alert_id ← subscript sensor "alert_id"
  alert_type ← subscript sensor "alert_type"
  severity ← subscript sensor "severity"
  info ← subscript sensor "info"
  site_id ← subscript info "site_id"
  rack_id ← subscript info "rack_id"
  cluster_id ← subscript info "cluster_id"
  host_id ← subscript sensor "host_id"
  event_time ← subscript info "event_time"
  ok (record {
    alert_id = alert_id;
    alert_type = alert_type;
    severity = severity;
    site_id = site_id;
    rack_id = rack_id;
    cluster_id = cluster_id;
    host_id = host_id;
    event_time = event_time;
  })

-- The dictionary `event` of `AlertParser` and `IEMParser`; it has no key "source".
unfoldable pub sensor_event : SensorParts → Json → Json → Json → Json → Json → Json
sensor_event p event_type node_id resource_type resource_id specific_info = obj (
    field "event_id" p.alert_id (
      field "event_type" event_type (
        field "severity" p.severity (
          field "site_id" p.site_id (
            field "rack_id" p.rack_id (
              field "cluster_id" p.cluster_id (
                field "storageset_id" (str "TBD") (
                  field "node_id" node_id (
                    field "host_id" p.host_id (
                      field "resource_type" resource_type (
                        field "timestamp" p.event_time (
                          field "resource_id" resource_id
                            (field "specific_info" specific_info end)))))))))))))

-- `AlertParser.parse_event`
unfoldable pub parse_alert : Message → Result HealthEvent
parse_alert msg = reraise parser_error do
  alert ← inner msg
  parts ← sensor_parts alert
  sensor ← subscript alert "sensor_response_type"
  info ← subscript sensor "info"
  node_id ← subscript info "node_id"
  resource_type ← subscript info "resource_type"
  resource_id ← subscript info "resource_id"
  specific_info ← subscript sensor "specific_info"
  dict_to_object
      (sensor_event parts parts.alert_type node_id resource_type resource_id specific_info)

-- The text up to a character that ends the host name.
until_stop : String → String
until_stop String.[] = String.[]
until_stop (String.◌∷◌ c s) =
    if eqb (code c) b';' || (eqb (code c) b'=' || eqb (code c) 10)
    then String.[]
    else String.◌∷◌ c (until_stop s)

abbrev is_line : String → Bool
is_line String.[] = false
is_line (String.◌∷◌ c s) = not (eqb (code c) 10)

-- `re.split("=", re.split(";", re.findall("host=.+", description)[0])[0])[1]`
unfoldable pub hostname : String → Result String
unfolding until_stop
hostname String.[] = raise index_error
hostname (String.◌∷◌ c s) =
    let t = String.◌∷◌ c s in
    let rest = slice t 5 (len t) in
    if starts_with t "host=" && is_line rest then ok (until_stop rest) else hostname s

-- `re.findall` wants a text
abbrev hostname_of : Json → Result String
hostname_of (str description) = hostname description
hostname_of _ = raise type_error

-- The special case of `IEMParser` for a node's warning.
abbrev iem_event_type : Json → Json → Json → Json
iem_event_type resource_type severity event_type =
    if is_text resource_type node_element && is_text severity "warning"
    then str "failed"
    else event_type

-- `IEMParser.parse_event`; `node_of` reads the node id of a host from the configuration store.
unfoldable pub parse_iem : (String → Result Json) → Message → Result HealthEvent
parse_iem node_of msg = reraise parser_error do
  iem_alert ← inner msg
  sensor ← subscript iem_alert "sensor_response_type"
  info ← subscript sensor "info"
  description ← subscript info "description"
  host ← hostname_of description
  node_id ← node_of host
  parts ← sensor_parts iem_alert
  specific_info ← subscript sensor "specific_info"
  module_type ← subscript specific_info "module"
  resource_type ← lower_of module_type
  dict_to_object (
      sensor_event parts (iem_event_type (str resource_type) parts.severity parts.alert_type)
        node_id (str resource_type) node_id specific_info)

-- `{"generation_id": generation_id, "pod_restart": 0}`
abbrev pub fresh_generation : Json → Json
fresh_generation generation_id =
    obj (field "generation_id" generation_id (field "pod_restart" (num 0) end))

abbrev pub generation_info : Json → Result Json
generation_info specific_info = do
  generation_id ← subscript specific_info "generation_id"
  ok (if truthy generation_id then fresh_generation generation_id else specific_info)

-- the specific info of a node with a generation id is replaced
unfoldable pub node_info : Json → Json → Result Json
node_info resource_type specific_info =
    if is_text resource_type node_element && truthy specific_info
    then generation_info specific_info
    else ok specific_info

-- The members that `ClusterResourceParser.__init__` reads from the configuration.
pub record Site : Type 0 where
  pub cluster_id : Json
  pub site_id : Json
  pub rack_id : Json

-- The dictionary `event` of `ClusterResourceParser`.
unfoldable pub cluster_dict :
    Site → Json → Json → Json → Json → String → Json → Json → Json → Json → Json
cluster_dict site source event_id timestamp event_type severity node_id resource_type resource_id
      specific_info =
    (obj (
      field "source" source (
        field "event_id" event_id (
          field "event_type" event_type (
            field "severity" (str severity) (
              field "site_id" site.site_id (
                field "rack_id" site.rack_id (
                  field "cluster_id" site.cluster_id (
                    field "storageset_id" node_id (
                      field "node_id" node_id (
                        field "host_id" node_id (
                          field "resource_type" resource_type (
                            field "timestamp" timestamp (
                              field "resource_id" resource_id
                                (field "specific_info" specific_info end)))))))))))))))

-- `ClusterResourceParser.parse_event`
unfoldable pub parse_cluster_resource : Attrs → Site → Message → Result HealthEvent
parse_cluster_resource attrs site msg = reraise parser_error do
  alert ← msg
  header ← subscript alert attrs.event_header
  timestamp ← subscript header attrs.timestamp
  event_id ← subscript header attrs.event_id
  payload ← subscript alert attrs.event_payload
  source ← subscript payload attrs.source
  node_id ← subscript payload attrs.node_id
  resource_type ← subscript payload attrs.resource_type
  resource_id ← subscript payload attrs.resource_id
  event_type ← subscript payload attrs.resource_status
  given_info ← subscript payload attrs.specific_info
  specific_info ← node_info resource_type given_info
  severity ← lookup_by event_to_severity_mapping event_type
  dict_to_object (
      cluster_dict site source event_id timestamp event_type severity node_id resource_type
        resource_id specific_info)
