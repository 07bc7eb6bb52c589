-- ===== src/Manager/Service.antt =====
-- The operations of `EventManager` (ha/core/event_manager/event_manager.py): `subscribe`,
-- `unsubscribe`, `get_events`, `message_type` and `publish`.
pub mod Delivery
use cortx_ha.Prelude.{
  String, Bool, true, false, not, List, [], ◌∷◌, ◌++◌, contains, lower, get_last?, Option, none,
  some, if◌then◌else◌,
}
use cortx_ha.Prelude.{
  Exn, Result, ok, raise, invalid_component, attribute_error, key_error, type_error,
  subscribe_error, unsubscribe_error, publish_error,
}
use cortx_ha.Prelude.Dict.{Dict}
use cortx_ha.Prelude.Acting.{Act, pure, fail, lift, attempt, for_each, ◌>>=◌, ◌>>◌}
use cortx_ha.Json.{Json, str, is_text}
use cortx_ha.Store.Key.{event_key, subscription_key, message_type_key, producer_id}
use cortx_ha.Store.Services.{Stored, plain, names, loads, Consul}
use cortx_ha.Store.KvStore.{key_exists, get}
use cortx_ha.Actions.Rules.{publish_act, add_rule, remove_rule}
use cortx_ha.Manager.Lists.{SubscribeEvent, subscription_list, stored_list, first_ending}
use cortx_ha.Manager.Subscriptions.{
  MessageBus, create_message_type, store_component_key, store_event_key, delete_component_key,
  delete_event_key,
}

-- What `publish` reads of an event, and its text.
pub record Outgoing (E : Type 0) : Type 0 where
  pub resource_type : Json
  pub status : Json
  pub source : Json
  pub json : E

-- the argument of `str.replace`
abbrev text_of : Json → Result String
text_of (str s) = ok s
text_of _ = raise type_error

-- `_validate_component`; that the events are a list is their type here
unfoldable pub validate_component : {S : Type 0} → String → Act S (Unit {0})
validate_component component =
    if contains subscription_list (lower component) then pure _ else fail invalid_component

-- `_, message_type = kv.popitem()`
unfoldable pub last_type : Option (Dict Stored) → Result Stored
last_type none = raise attribute_error
last_type (some kv) = of_last (get_last? kv)
  where
    of_last : Option (String × Stored) → Result Stored
    of_last none = raise key_error
    of_last (some (_, v)) = ok v

module _ {S E : Type 0} (consul : Consul S) (bus : MessageBus S E) (prefix : String) where
  unfoldable pub subscribe_event : String → SubscribeEvent → Act S (Unit {0})
  subscribe_event component event = do
    store_component_key consul bus prefix (subscription_key component) event.resource_type
        event.states
    store_event_key consul bus prefix event.resource_type event.states component
    for_each event.states λ state. add_rule consul prefix event.resource_type state publish_act

  unfoldable pub subscribe : String → List SubscribeEvent → Act S String
  subscribe component events = attempt subscribe_error do
    validate_component component
    message_type ← create_message_type consul bus prefix component
    for_each events (subscribe_event component)
    pure message_type

  abbrev remove_unless : String → String → Bool → Act S (Unit {0})
  remove_unless resource_type state true = pure _
  remove_unless resource_type state false =
      remove_rule consul prefix resource_type state publish_act

  unfoldable pub unsubscribe_state : String → String → Act S (Unit {0})
  unsubscribe_state resource_type state = do
    exists ← key_exists consul prefix (event_key resource_type state)
    remove_unless resource_type state exists

  unfoldable pub unsubscribe_event : String → SubscribeEvent → Act S (Unit {0})
  unsubscribe_event component event = do
    delete_component_key consul bus prefix component event.resource_type event.states
    delete_event_key consul bus prefix component event.resource_type event.states
    for_each event.states (unsubscribe_state event.resource_type)

  -- `except InvalidComponent: raise` and `except Exception: raise UnSubscribeException`
  abbrev unsubscribed : S × Result (Unit {0}) → S × Result (Unit {0})
  unsubscribed (s, ok _) = (s, ok _)
  unsubscribed (s, raise invalid_component) = (s, raise invalid_component)
  unsubscribed (s, raise e) = (s, raise unsubscribe_error)

  unfoldable pub unsubscribe : String → List SubscribeEvent → Act S (Unit {0})
  unsubscribe component events s =
      unsubscribed
        ((validate_component component >> for_each events (unsubscribe_event component)) s)

  abbrev events_in : Option Stored → Result (List String)
  events_in none = ok []
  events_in (some v) = loads v

  abbrev kv_or_empty : Option (Dict Stored) → Dict Stored
  kv_or_empty none = []
  kv_or_empty (some kv) = kv

  unfoldable pub get_events : String → Act S (List String)
  get_events component = do
    kv ← get consul prefix (subscription_key component)
    lift (events_in (first_ending (subscription_key component) (kv_or_empty kv)))

  unfoldable pub message_type : String → Act S (Option Stored)
  message_type component = do
    kv ← get consul prefix (message_type_key component)
    pure (first_ending (message_type_key component) (kv_or_empty kv))

  abbrev send_as : String → E → Stored → Act S (Unit {0})
  send_as component json (plain message_type) = bus.send (producer_id component) message_type json
  send_as component json _ = fail type_error

  -- `_get_producer`, and the producer's `publish`; a message type is a text
  unfoldable pub send_to : E → String → Act S (Unit {0})
  send_to json component = do
    message_type_key_val ← get consul prefix (message_type_key component)
    message_type ← lift (last_type message_type_key_val)
    send_as component json message_type

  -- the source of an event is not told of it
  unfoldable pub send_unless_source : Outgoing E → String → Act S (Unit {0})
  send_unless_source event component =
      if is_text event.source component then pure _ else send_to event.json component

  -- no key is an empty list of components, and so is an empty dictionary
  abbrev components_in : Option (Dict Stored) → Result (List String)
  components_in none = ok []
  components_in (some []) = ok []
  components_in (some (e ∷ kv)) = stored_list (some (e ∷ kv))

  unfoldable pub publish : Outgoing E → Act S (Unit {0})
  publish event = attempt publish_error do
    resource_type ← lift (text_of event.resource_type)
    status ← lift (text_of event.status)
    component_list_key_val ← get consul prefix (event_key resource_type status)
    component_list ← lift (components_in component_list_key_val)
    for_each component_list (send_unless_source event)
