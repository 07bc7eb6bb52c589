-- ===== src/K8s/Alert.antt =====
-- The alerts that the monitor sends. `cortx.utils.event_framework.health.HealthEvent` belongs to
-- cortx-utils: its class is the parameter `EventApi`.
use cortx_ha.Prelude.{String}
use cortx_ha.Prelude.Dict.{Dict}

-- The payload that `ObjectParser` prepares. Its specific info maps names to texts.
pub record Payload : Type 0 where
  pub source : String
  pub cluster_id : String
  pub site_id : String
  pub rack_id : String
  pub storageset_id : String
  pub node_id : String
  pub resource_type : String
  pub resource_id : String
  pub resource_status : String
  pub specific_info : Dict String

-- `HealthEvent(**payload)`, `event.set_specific_info(info)`, and the part "payload" of `event.json`
pub record EventApi : Type 1 where
  pub Event : Type 0
  pub make : Payload → Event
  pub set_specific_info : Dict String → Event → Event
  pub payload : Event → Payload

-- a class that keeps just the payload
abbrev pub plain_events : EventApi
plain_events = record {
  Event = Payload;
  make = λ p. p;
  set_specific_info = λ info p. record p { specific_info = info };
  payload = λ p. p;
}
