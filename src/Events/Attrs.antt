-- ===== src/Events/Attrs.antt =====
-- `EventAttr` and `HealthAttr` of cortx.utils.event_framework, which belong to cortx-utils: the names
-- of an event's parts are a parameter.
use cortx_ha.Prelude.{String}

pub record Attrs : Type 0 where
  pub event_header : String
  pub event_payload : String
  pub timestamp : String
  pub event_id : String
  pub source : String
  pub node_id : String
  pub resource_type : String
  pub resource_id : String
  pub resource_status : String
  pub specific_info : String

abbrev pub plain_attrs : Attrs
plain_attrs = record {
  event_header = "header";
  event_payload = "payload";
  timestamp = "timestamp";
  event_id = "event_id";
  source = "source";
  node_id = "node_id";
  resource_type = "resource_type";
  resource_id = "resource_id";
  resource_status = "resource_status";
  specific_info = "specific_info";
}
