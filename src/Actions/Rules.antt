-- ===== src/Actions/Rules.antt =====
-- ha/core/health_monitor/monitor_rules_manager.py: the actions of each kind of event, kept in the
-- configuration store as lists under the keys of the rules.
pub mod Evaluation
use cortx_ha.Prelude.{
  String, Bool, true, false, List, [], ◌∷◌, ◌++◌, length, contains, remove, get_last?, Option, none,
  some, if◌then◌else◌,
}
use cortx_ha.Prelude.{Exn, Result, ok, raise, key_error, invalid_action}
use cortx_ha.Prelude.Dict.{Dict}
use cortx_ha.Prelude.Acting.{Act, pure, fail, lift, ◌>>=◌, ◌>>◌}
use cortx_ha.Store.Key.{rule_key}
use cortx_ha.Store.Services.{Stored, names, loads, Consul}
use cortx_ha.Store.KvStore.{key_exists, get, set, update, delete}

-- HEALTH_MON_ACTIONS of ha/core/health_monitor/const.py
abbrev pub publish_act : String
publish_act = "publish"

abbrev pub ha_act : String
ha_act = "ha"

abbrev pub health_mon_actions : List String
health_mon_actions = publish_act ∷ ha_act ∷ []

-- `_get_k_v`, the value: that of the last entry
abbrev last_value : Option (String × Stored) → Result (List String)
last_value none = raise key_error
last_value (some (_, v)) = loads v

abbrev pub get_k_v : Dict Stored → Result (List String)
get_k_v kv = last_value (get_last? kv)

module _ {S : Type 0} (consul : Consul S) (prefix : String) where
  abbrev val_if : String → Bool → Act S (Option (Dict Stored))
  val_if key true = get consul prefix key
  val_if key false = pure none

  unfoldable pub get_val : String → Act S (Option (Dict Stored))
  get_val key = do exists ← key_exists consul prefix key; val_if key exists

  abbrev validate_action : String → Act S (Unit {0})
  validate_action action =
      if contains health_mon_actions action then pure _ else fail invalid_action

  -- an empty dictionary is false
  abbrev actions_of : Option (Dict Stored) → Act S (List String)
  actions_of none = pure []
  actions_of (some []) = pure []
  actions_of (some (e ∷ kv)) = lift (get_k_v (e ∷ kv))

  unfoldable pub evaluate : String → String → Act S (List String)
  evaluate resource_type event_type = do
    kv ← get_val (rule_key resource_type event_type)
    actions_of kv

  abbrev append_action : String → String → List String → Act S (Unit {0})
  append_action key action val =
      if contains val action
      then pure _
      else update consul prefix key (names (val ++ action ∷ [])) >> pure _

  abbrev add_to : String → String → Option (Dict Stored) → Act S (Unit {0})
  add_to key action none = set consul prefix key (names (action ∷ [])) >> pure _
  add_to key action (some []) = set consul prefix key (names (action ∷ [])) >> pure _
  add_to key action (some (e ∷ kv)) = do val ← lift (get_k_v (e ∷ kv)); append_action key action val

  unfoldable pub add_rule : String → String → String → Act S (Unit {0})
  add_rule resource event action = do
    validate_action action
    kv ← get_val (rule_key resource event)
    add_to (rule_key resource event) action kv

  -- what is left of the list is written back, an empty list by deleting the key
  abbrev write_actions : String → List String → Act S (Unit {0})
  write_actions key [] = delete consul prefix key false >> pure _
  write_actions key (a ∷ val) = update consul prefix key (names (a ∷ val)) >> pure _

  abbrev remove_action : String → String → List String → Act S (Unit {0})
  remove_action key action val =
      if contains val action then write_actions key (remove val action) else pure _

  abbrev remove_from : String → String → Option (Dict Stored) → Act S (Unit {0})
  remove_from key action none = pure _
  remove_from key action (some []) = pure _
  remove_from key action (some (e ∷ kv)) = do
    val ← lift (get_k_v (e ∷ kv))
    remove_action key action val

  unfoldable pub remove_rule : String → String → String → Act S (Unit {0})
  remove_rule resource event action = do
    validate_action action
    kv ← get_val (rule_key resource event)
    remove_from (rule_key resource event) action kv
