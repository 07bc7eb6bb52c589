-- ===== src/Events/Filter.antt =====
-- ha/core/event_analyzer/filter/filter.py. A message is given by what its text parses to; a text that
-- does not parse raises. The configured lists and filter types are arguments.
pub mod Decisions
use cortx_ha.Prelude.{
  String, Bool, true, false, not, ◌&&◌, ◌||◌, List, contains, Option, none, some, ◌==◌, lower,
  if◌then◌else◌,
}
use cortx_ha.Prelude.{Result, ok, raise, type_error, attribute_error, filter_error, ◌>>=◌, reraise}
use cortx_ha.Prelude.Dict
use cortx_ha.Prelude.Dict.{Dict}
use cortx_ha.Json.{Json, str, subscript, get_of, is_none, is_in}
use cortx_ha.Events.Attrs.{Attrs}

abbrev pub Message : Type 0
Message = Result Json

-- `json.loads(msg).get("message")`
unfoldable pub inner : Message → Result Json
inner msg = do document ← msg; get_of document "message"

-- `message.get("sensor_response_type")["info"]["resource_type"]`, also `Filter.get_msg_type`
unfoldable pub sensor_type : Json → Result Json
sensor_type message = do
  sensor ← get_of message "sensor_response_type"
  info ← subscript sensor "info"
  subscript info "resource_type"

-- `const.INCLUSION`; any other filter type is an exclusion (`validate_filter` lets no third one in)
abbrev pub inclusion : String
inclusion = "inclusion"

-- `AlertFilter.filter_event`
unfoldable pub alert_filter : String → List String → Message → Result Bool
alert_filter filter_type resource_types_list msg = reraise filter_error do
  message ← inner msg
  actuator ← get_of message "actuator_response_type"
  if not (is_none actuator) then ok false else do
    resource_type ← sensor_type message
    ok (
        if filter_type == inclusion
        then is_in resource_type resource_types_list
        else not (is_in resource_type resource_types_list))

-- `s.lower()`
abbrev pub lower_of : Json → Result String
lower_of (str s) = ok (lower s)
lower_of _ = raise attribute_error

-- `module_type in self.modules_dict.get(component_type)`
abbrev pub module_in : Json → Option (List String) → Result Bool
module_in module_type none = raise type_error
module_in module_type (some modules) = ok (is_in module_type modules)

abbrev pub modules_of : Dict (List String) → Json → Option (List String)
modules_of modules_dict (str component) = Dict.get modules_dict component
modules_of modules_dict _ = none

-- The tests of `IEMFilter`: the second operand of `and` and of `or` is read only where it matters.
unfoldable pub iem_test : String → List String → Dict (List String) → Json → Json → Result Bool
iem_test filter_type components_list modules_dict component_type module_type =
    if filter_type == inclusion
    then if is_in component_type components_list
      then module_in module_type (modules_of modules_dict component_type)
      else ok false
    else if not (is_in component_type components_list)
    then ok true
    else do known ← module_in module_type (modules_of modules_dict component_type); ok (not known)

-- `IEMFilter.filter_event`
unfoldable pub iem_filter : String → List String → Dict (List String) → Message → Result Bool
iem_filter filter_type components_list modules_dict msg = reraise filter_error do
  message ← inner msg
  actuator ← get_of message "actuator_response_type"
  if not (is_none actuator) then ok false else do
    msg_type ← sensor_type message
    lowered ← lower_of msg_type
    if not (lowered == "iem") then ok false else do
      sensor ← get_of message "sensor_response_type"
      specific_info ← subscript sensor "specific_info"
      component_type ← subscript specific_info "component"
      module_type ← subscript specific_info "module"
      iem_test filter_type components_list modules_dict component_type module_type

-- `ClusterResourceFilter.filter_event`
unfoldable pub cluster_resource_filter : Attrs → List String → Message → Result Bool
cluster_resource_filter attrs required_resource_type_list msg = reraise filter_error do
  message ← msg
  payload ← get_of message attrs.event_payload
  event_resource_type ← get_of payload attrs.resource_type
  ok (is_in event_resource_type required_resource_type_list)
