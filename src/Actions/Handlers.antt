-- ===== src/Actions/Handlers.antt =====
-- ha/core/action_handler/action_handler.py and action_factory.py. The event manager's `publish` is
-- `publish_event`, an argument.
pub mod Publishing
use cortx_ha.Prelude.{
  String, ◌==◌, Bool, true, false, ◌&&◌, ◌||◌, List, [], ◌∷◌, length, contains, eqb, if◌then◌else◌,
}
use cortx_ha.Prelude.{
  Exn, Result, ok, raise, reraise, type_error, invalid_action, invalid_event, action_handler_error,
  unimplemented,
}
use cortx_ha.Prelude.Acting.{Act, pure, fail, ◌>>=◌}
use cortx_ha.Json.{Json, str, arr, obj, is_text}
use cortx_ha.Health.Event.{HealthEvent}
use cortx_ha.Actions.Rules.{publish_act}

-- the subclasses of `ActionHandler`
pub data Handler : Type 0 where
  default_handler node_handler cvg_handler disk_handler : Handler

-- the four methods that `ActionHandler.act` chooses from
pub data Method : Type 0 where
  on_online on_degraded on_offline on_failure : Method

-- EVENT_ACTION_HANDLERS_MAPPING; the key of a list or a dictionary is a type error
unfoldable pub handler_of : Json → Result Handler
handler_of (arr _) = raise type_error
handler_of (obj _) = raise type_error
handler_of resource_type =
    if is_text resource_type "node"
    then ok node_handler
    else if is_text resource_type "cvg"
    then ok cvg_handler
    else if is_text resource_type "disk"
    then ok disk_handler
    else raise invalid_action

-- `len(actions) == 0 or len(actions) == 1 and actions[0] == "publish"`
unfoldable pub only_publish : List String → Bool
only_publish [] = true
only_publish (a ∷ []) = a == publish_act
only_publish (a ∷ b ∷ l) = false

-- `ActionFactory.get_action_handler`
unfoldable pub get_action_handler : HealthEvent → List String → Result Handler
get_action_handler event actions =
    reraise action_handler_error
      (if only_publish actions then ok default_handler else handler_of event.resource_type)

module _ {S : Type 0} (publish_event : HealthEvent → Act S (Unit {0})) where
  abbrev pub if_publish : HealthEvent → Bool → Act S (Unit {0})
  if_publish event true = publish_event event
  if_publish event false = pure _

  -- the methods of each class; one that a class does not define is the base class's
  unfoldable pub method : Handler → Method → HealthEvent → Bool → Act S (Unit {0})
  method default_handler _ event publish = fail unimplemented
  method node_handler on_online event publish = if_publish event publish
  method node_handler on_offline event publish = if_publish event publish
  method node_handler _ event publish = fail unimplemented
  method _ on_degraded event publish = fail unimplemented
  method _ _ event publish = if_publish event publish

  -- `ActionHandler.act`, which every subclass overrides
  unfoldable pub base_act : Handler → HealthEvent → List String → Act S (Unit {0})
  base_act handler event action =
      let publish = contains action publish_act in
      if is_text event.event_type "online"
      then method handler on_online event publish
      else if is_text event.event_type "degraded"
      then method handler on_degraded event publish
      else if is_text event.event_type "offline"
      then method handler on_offline event publish
      else if is_text event.event_type "failed"
      then method handler on_failure event publish
      else fail invalid_event

  -- `DefaultActionHandler.act`
  unfoldable pub default_act : HealthEvent → List String → Act S (Unit {0})
  default_act event action =
      if eqb (length action) 0
      then pure _
      else if contains action publish_act && eqb (length action) 1
      then publish_event event
      else fail invalid_action

  -- `act` of each class
  unfoldable pub act : Handler → HealthEvent → List String → Act S (Unit {0})
  unfolding default_act
  act default_handler event action = default_act event action
  act _ event action = if_publish event (contains action publish_act)
