-- ===== src/Manager/Subscriptions.antt =====
-- The parts of `EventManager` that read and write the keys of the subscriptions
-- (ha/core/event_manager/event_manager.py). The message bus is cortx-utils': a record of operations.
pub mod EventKeys
pub mod StateKeys
pub mod Emptied
use cortx_ha.Prelude.{
  String, Bool, true, false, List, [], ◌∷◌, ◌++◌, contains, remove, if◌then◌else◌,
}
use cortx_ha.Prelude.{invalid_component}
use cortx_ha.Prelude.Acting.{Act, pure, fail, lift, for_each, ◌>>=◌, ◌>>◌}
use cortx_ha.Store.Key.{
  event_key, subscription_key, message_type_key, message_type_value, state_name,
}
use cortx_ha.Store.Services.{Stored, names, plain, Consul}
use cortx_ha.Store.KvStore.{key_exists, get, set, update, delete}
use cortx_ha.Manager.Lists.{merge, state_names, without_duplicates, stored_list}

-- `MessageBus.register` and `deregister`, and the `publish` of a producer that `get_producer` gives
-- for a producer id and a message type
pub record MessageBus (S E : Type 0) : Type 0 where
  pub register : String → Act S (Unit {0})
  pub deregister : String → Act S (Unit {0})
  pub send : String → String → E → Act S (Unit {0})

module _ {S E : Type 0} (consul : Consul S) (bus : MessageBus S E) (prefix : String) where
  abbrev set_unless : String → Stored → Bool → Act S (Unit {0})
  set_unless key val true = pure _
  set_unless key val false = set consul prefix key val >> pure _

  -- `_create_message_type`
  unfoldable pub create_message_type : String → Act S String
  create_message_type component = do
    bus.register (message_type_value component)
    exists ← key_exists consul prefix (message_type_key component)
    set_unless (message_type_key component) (plain (message_type_value component)) exists
    pure (message_type_value component)

  abbrev delete_if : String → Bool → Act S (Unit {0})
  delete_if key true = delete consul prefix key false >> pure _
  delete_if key false = pure _

  -- `_delete_message_type`
  unfoldable pub delete_message_type : String → Act S (Unit {0})
  delete_message_type component = do
    bus.deregister (message_type_value component)
    exists ← key_exists consul prefix (message_type_key component)
    delete_if (message_type_key component) exists

  abbrev store_states : String → String → List String → Bool → Act S (Unit {0})
  store_states key resource_type val true = do
    event_json_list ← get consul prefix key
    event_list ← lift (stored_list event_json_list)
    update consul prefix key (names (without_duplicates (merge resource_type event_list val)))
    pure _
  store_states key resource_type val false =
      set consul prefix key (names (state_names resource_type val)) >> pure _

  -- `_store_component_key`
  unfoldable pub store_component_key : String → String → List String → Act S (Unit {0})
  store_component_key key resource_type val = do
    exists ← key_exists consul prefix key
    store_states key resource_type val exists

  abbrev pub with_component : List String → String → List String
  with_component comp_list comp =
      if contains comp_list comp then comp_list else comp_list ++ comp ∷ []

  abbrev store_comp : String → String → Bool → Act S (Unit {0})
  store_comp key comp true = do
    comp_json_list ← get consul prefix key
    comp_list ← lift (stored_list comp_json_list)
    update consul prefix key (names (with_component comp_list comp))
    pure _
  store_comp key comp false = set consul prefix key (names (comp ∷ [])) >> pure _

  -- one state of `_store_event_key`
  unfoldable pub store_event_state : String → String → String → Act S (Unit {0})
  store_event_state resource_type comp state = do
    exists ← key_exists consul prefix (event_key resource_type state)
    store_comp (event_key resource_type state) comp exists

  -- `_store_event_key`
  unfoldable pub store_event_key : String → List String → String → Act S (Unit {0})
  store_event_key resource_type states comp = for_each states (store_event_state resource_type comp)

  abbrev write_events : String → String → List String → Act S (Unit {0})
  write_events component key [] = delete consul prefix key false >> delete_message_type component
  write_events component key (e ∷ l) = update consul prefix key (names (e ∷ l)) >> pure _

  abbrev drop_state : String → String → String → Bool → Act S (Unit {0})
  drop_state component key state true = do
    comp_json_list ← get consul prefix key
    event_list ← lift (stored_list comp_json_list)
    write_events component key (remove event_list state)
  drop_state component key state false = fail invalid_component

  -- one state of `_delete_component_key`
  unfoldable pub delete_component_state : String → String → String → Act S (Unit {0})
  delete_component_state component resource_type state = do
    exists ← key_exists consul prefix (subscription_key component)
    drop_state component (subscription_key component) (state_name resource_type state) exists

  -- `_delete_component_key`
  unfoldable pub delete_component_key : String → String → List String → Act S (Unit {0})
  delete_component_key component resource_type states =
      for_each states (delete_component_state component resource_type)

  abbrev write_components : String → List String → Act S (Unit {0})
  write_components key [] = delete consul prefix key false >> pure _
  write_components key (c ∷ l) = update consul prefix key (names (c ∷ l)) >> pure _

  abbrev drop_component : String → String → Bool → Act S (Unit {0})
  drop_component component key true = do
    comp_json_list ← get consul prefix key
    comp_list ← lift (stored_list comp_json_list)
    write_components key (remove comp_list component)
  drop_component component key false = pure _

  -- one state of `_delete_event_key`
  unfoldable pub delete_event_state : String → String → String → Act S (Unit {0})
  delete_event_state component resource_type state = do
    exists ← key_exists consul prefix (event_key resource_type state)
    drop_component component (event_key resource_type state) exists

  -- `_delete_event_key`
  unfoldable pub delete_event_key : String → String → List String → Act S (Unit {0})
  delete_event_key component resource_type states =
      for_each states (delete_event_state component resource_type)
