-- ===== src/Actions/Service.antt =====
-- ha/core/health_monitor/health_monitord.py: `HealthMonitorService.process_event`, the callback of the
-- consumer of health events. `format` is Python's `str` of a value, as the f-string of a rule's key
-- applies it; `publish_event` is the publishing of the event manager.
pub mod Answers
use cortx_ha.Prelude.{String, List, [], ◌∷◌}
use cortx_ha.Prelude.{Exn, Result, ok, raise}
use cortx_ha.Prelude as P
use cortx_ha.Prelude.Acting.{Act, pure, lift, ◌>>=◌}
use cortx_ha.Json.{Json}
use cortx_ha.Health.Event.{HealthEvent, dict_to_object}
use cortx_ha.Bus.Consumer.{Status, success, failed}
use cortx_ha.Events.Filter.{Message}
use cortx_ha.Store.Services.{Consul}
use cortx_ha.Actions.Rules.{evaluate}
use cortx_ha.Actions.Handlers.{get_action_handler, act}

-- `HealthEvent.dict_to_object(json.loads(message))`
unfoldable pub read_event : Message → Result HealthEvent
read_event (ok event) = dict_to_object event
read_event (raise e) = raise e

module _ {S : Type 0} (consul : Consul S) (prefix : String) (format : Json → String)
    (publish_event : HealthEvent → Act S (Unit {0})) where
  abbrev act_on : HealthEvent → List String → Act S (Unit {0})
  act_on health_event [] = pure _
  act_on health_event (a ∷ l) = do
    action_handler ← lift (get_action_handler health_event (a ∷ l))
    act publish_event action_handler health_event (a ∷ l)

  -- the steps under the second `try`
  unfoldable pub handle_event : HealthEvent → Act S (Unit {0})
  handle_event health_event = do
    action_list ←
        evaluate consul prefix (format health_event.resource_type) (format health_event.event_type)
    act_on health_event action_list

  abbrev pub answered : S × Result (Unit {0}) → S × Status
  answered (s, ok _) = (s, success)
  answered (s, raise e) = (s, failed)

  abbrev process_read : Result HealthEvent → S → S × Status
  process_read (ok health_event) s = answered (handle_event health_event s)
  process_read (raise e) s = (s, success)

  unfoldable pub process_event : Message → S → S × Status
  process_event message s = process_read (read_event message) s
