-- ===== src/Health/System.antt =====
-- `SystemHealth.process_event` of ha/core/system_health/system_health.py over the store, with
-- `SystemHealthManager` (system_health_manager.py). `send` publishes an event on the bus; `get_cvg_list`
-- looks up the CVGs of a disk by patterns in the keys of the store. Updates of the components above
-- are disabled in the source (`next_component = None`), so `_update` ends with the publishing.
pub mod Processing
pub mod Events
pub mod Statuses
use text.Mathlib.Text.{starts_with}
use cortx_ha.Prelude.{
  ℕ, String, ◌==◌, Bool, true, false, List, [], ◌∷◌, Option, none, some, get_last?, if◌then◌else◌,
}
use cortx_ha.Prelude.{
  Exn, Result, ok, raise, index_error, type_error, key_error, generic, attribute_error,
  ha_system_health,
}
use cortx_ha.Prelude.Dict.{Dict}
use cortx_ha.Prelude.Acting.{◌>=>◌, Act, pure, fail, lift, attempt, for_each, ◌>>=◌, ◌>>◌}
use cortx_ha.Json.{
  Json, Items, Fields, null, str, arr, obj, nil, cons, end, field, subscript, field?, or_null,
  truthy,
}
use cortx_ha.Store.Key.{split_on}
use cortx_ha.Store.Services.{Stored, names, document, plain, no_value, Consul}
use cortx_ha.Store.KvStore.{key_exists, get, set, update}
use cortx_ha.Health.Event.{HealthEvent}
use cortx_ha.Health.StatusMapper.{map_event}
use cortx_ha.Health.Keys.{get_component, get_hierarchy, prepare_key, text_value}
use cortx_ha.Health.Updates.{
  Plan, Update, updates, reset_restart, nothing, is_update_required, plan,
}

-- `json.loads(v)`, where a health value is expected; no other value is under such a key
abbrev pub load_health : Stored → Result Json
load_health (document d) = ok d
load_health (names l) = raise type_error
load_health (plain t) = raise generic
load_health no_value = raise type_error

abbrev last_or_error : Option (String × Stored) → Result (Option Stored)
last_or_error none = raise key_error
last_or_error (some (_, v)) = ok (some v)

-- `get_key` of `SystemHealthManager`, for the value alone
abbrev pub popped : Option (Dict Stored) → Result (Option Stored)
popped none = ok none
popped (some kv) = last_or_error (get_last? kv)

abbrev loaded : Option Stored → Result (Option Json)
loaded none = ok none
loaded (some v) = health_of (load_health v)
  where
    health_of : Result Json → Result (Option Json)
    health_of (ok d) = ok (some d)
    health_of (raise e) = raise e

abbrev part_or : Option String → Result String
part_or none = raise index_error
part_or (some s) = ok s

-- `resource_type.split(':')[-1]`
unfoldable pub last_part : String → Result String
last_part resource_type = part_or (get_last? (split_on b':' resource_type))

-- `d[k] = v`, on a dictionary
unfoldable pub put_field : Fields → String → Json → Fields
put_field end k v = field k v end
put_field (field j w fs) k v = if j == k then field j v fs else field j w (put_field fs k v)

abbrev in_dict : String → Json → Json → Result Json
in_dict k v (obj fs) = ok (obj (put_field fs k v))
in_dict k v _ = raise type_error

abbrev in_first : Json → Json → Result Json
in_first info (arr (cons e es)) = in_dict "specific_info" info e >=> λ e'. ok (arr (cons e' es))
in_first info (arr nil) = raise index_error
in_first info _ = raise type_error

-- `d["events"][0]["specific_info"] = info`
unfoldable pub replace_info : Json → Json → Result Json
replace_info info d = subscript d "events" >=> λ events.
    in_first info events >=> λ events'. in_dict "events" events' d

abbrev pub disk_element : String
disk_element = "disk"

-- the arguments of a key: the components of the cluster that the event names
unfoldable pub key_args : HealthEvent → String → Json → Dict Json
key_args event component_type cvg_id =
    ("comp_type", str component_type)
    ∷ ("comp_id", event.resource_id)
    ∷ ("cluster_id", event.cluster_id)
    ∷ ("site_id", event.site_id)
    ∷ ("rack_id", event.rack_id)
    ∷ ("storageset_id", event.storageset_id)
    ∷ ("node_id", event.node_id)
    ∷ ("server_id", event.node_id)
    ∷ ("storage_id", event.node_id)
    ∷ ("cvg_id", cvg_id)
    ∷ []

-- the arguments that the reset of a restart mark gives
unfoldable pub node_args : HealthEvent → Dict Json
node_args event =
    ("cluster_id", event.cluster_id)
    ∷ ("site_id", event.site_id)
    ∷ ("rack_id", event.rack_id)
    ∷ ("node_id", event.node_id)
    ∷ []

abbrev dict_or_empty : Json → Fields
dict_or_empty (obj fs) = fs
dict_or_empty _ = end

abbrev first_or_null : List String → Json
first_or_null [] = null
first_or_null (cvg ∷ _) = str cvg

-- the CVG of a disk, which the event names or is told; other components have none
module _ {S : Type 0} (get_cvg_list : HealthEvent → Act S (List String)) where
  unfoldable pub place_disk : HealthEvent → Fields → Act S (HealthEvent × Json)
  place_disk event info =
      let named = or_null (field? info "cvg_id") in
      if truthy named then pure (event, named) else (do
        cvg_list ← get_cvg_list event
        let cvg_id = first_or_null cvg_list
        pure (record event { specific_info = obj (put_field info "cvg_id" cvg_id) }, cvg_id))

  unfoldable pub place : String → HealthEvent → Act S (HealthEvent × Json)
  unfolding place_disk
  place component_type event =
      if component_type == disk_element
      then (let info = dict_or_empty event.specific_info in
          place_disk (record event { specific_info = obj info }) info)
      else pure (event, null)

module _ {S : Type 0} (consul : Consul S) (prefix : String)
    (send : HealthEvent → Act S (Unit {0})) where
  abbrev put_value : String → Json → Bool → Act S (Unit {0})
  put_value key value true = update consul prefix key (document value) >> pure _
  put_value key value false = set consul prefix key (document value) >> pure _

  -- `SystemHealthManager.set_key`
  unfoldable pub set_key : String → Json → Act S (Unit {0})
  set_key key value = do exists ← key_exists consul prefix key; put_value key value exists

  abbrev send_if : HealthEvent → Bool → Act S (Unit {0})
  send_if event true = send event
  send_if event false = pure _

  -- `_update`
  unfoldable pub update_value : String → HealthEvent → Json → Act S (Unit {0})
  update_value key event healthvalue = do
    is_key_exists ← key_exists consul prefix key
    set_key key healthvalue
    send_if event is_key_exists

  abbrev update_if : String → Update → Bool → Act S (Unit {0})
  update_if key u true = update_value key u.event u.value
  update_if key u false = pure _

  -- `_check_and_update`
  unfoldable pub check_and_update : String → Update → Act S (Unit {0})
  check_and_update key u = do
    update_action ← lift (is_update_required u.event u.before u.value)
    update_if key u update_action

  -- what the plan says, for the key of the event and that of its node
  abbrev carry_out : String → String → HealthEvent → Option Json → Plan → Act S (Unit {0})
  carry_out component key event current (updates us) = for_each us (check_and_update key)
  carry_out component key event none (reset_restart info) = pure _
  carry_out component key event (some d) (reset_restart info) = do
    node_key ← lift (prepare_key component (node_args event))
    value ← lift (replace_info info d)
    set_key node_key value
  carry_out component key event current nothing = pure _

  unfoldable pub process_event :
      (HealthEvent → Act S (List String)) → ℕ → Json → HealthEvent → Act S (Unit {0})
  unfolding place
  process_event get_cvg_list num_events now event = attempt ha_system_health do
    status ← lift (map_event event)
    component ← lift (get_component event.resource_type)
    update_hierarchy ← lift (get_hierarchy component)
    resource_type ← lift (text_value event.resource_type)
    component_type ← lift (last_part resource_type)
    (placed, cvg_id) ← place get_cvg_list component_type event
    key ← lift (prepare_key component (key_args placed component_type cvg_id))
    key_val ← get consul prefix key
    value ← lift (popped key_val)
    current ← lift (loaded value)
    planned ← lift (plan num_events now status component_type placed current)
    carry_out component key placed current planned
