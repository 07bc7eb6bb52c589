-- ===== src/Health/EntityHealth.antt =====
-- ha/core/system_health/model/entity_health.py: the health value stored for each component, its
-- bounded history of events, and its conversion to and from a stored document.
pub mod Bounds
pub mod RoundTrip
use cortx_ha.Prelude.{
  ℕ, suc, String, Bool, true, false, ◌&&◌, Option, none, some, List, [], ◌∷◌, length, ltb,
  if◌then◌else◌, ◌==◌, head?,
}
use cortx_ha.Prelude.{
  Result, ok, raise, key_error, type_error, index_error, attribute_error, ha_entity_health, ◌>>=◌,
  reraise,
}
use cortx_ha.Json.{Json, Items, Fields, null, str, arr, obj, nil, cons, end, field, subscript}

-- The members are what the constructor was given, or what a document held.
pub record EntityEvent : Type 0 where
  pub event_timestamp : Json
  pub created_timestamp : Json
  pub status : Json
  pub specific_info : Json

pub record EntityAction : Type 0 where
  pub modified_timestamp : Json
  pub status : Json

-- `action` is `{}` until it is set: `none`.
pub record EntityHealth : Type 0 where
  pub events : List EntityEvent
  pub action : Option EntityAction
  pub attributes : Fields

abbrev pub empty : EntityHealth
empty = record { events = []; action = none; attributes = end }

-- `del l[len(l) - 1]`
unfoldable pub drop_last {ℓ} : {A : Type ℓ} → List A → List A
drop_last [] = []
drop_last (x ∷ []) = []
drop_last (x ∷ y ∷ xs) = x ∷ drop_last (y ∷ xs)

-- `num_events` is the configured SYSTEM_HEALTH>num_entity_health_events.
unfoldable pub add_event : ℕ → EntityEvent → EntityHealth → EntityHealth
unfolding drop_last
add_event num_events event h =
    let events = event ∷ h.events in
    record h { events = if ltb num_events (length events) then drop_last events else events }

unfoldable pub set_action : EntityAction → EntityHealth → EntityHealth
set_action action h = record h { action = some action }

-- The loop assigns to `self.attibutes`, which no object has: any entry raises, and so does a
-- document that has no `items`.
unfoldable pub add_attributes : Json → EntityHealth → Result EntityHealth
add_attributes (obj end) h = ok h
add_attributes _ h = raise attribute_error

unfoldable pub get_latest_event : EntityHealth → Result EntityEvent
get_latest_event h = elim (head? h.events) [ none ↦ raise index_error | some event ↦ ok event ]

unfoldable pub event_dict : EntityEvent → Json
event_dict e = obj (
    field "event_timestamp" e.event_timestamp (
      field "created_timestamp" e.created_timestamp
        (field "status" e.status (field "specific_info" e.specific_info end))))

unfoldable pub action_dict : Option EntityAction → Json
action_dict none = obj end
action_dict (some a) =
    obj (field "modified_timestamp" a.modified_timestamp (field "status" a.status end))

unfoldable pub event_items : List EntityEvent → Items
event_items [] = nil
event_items (e ∷ es) = cons (event_dict e) (event_items es)

unfoldable pub write : EntityHealth → Json
unfolding event_dict action_dict event_items
write h = obj (
    field "events" (arr (event_items h.events))
      (field "action" (action_dict h.action) (field "attributes" (obj h.attributes) end)))

unfoldable pub read_event : Json → Result EntityEvent
unfolding subscript
read_event d = do
  event_timestamp ← subscript d "event_timestamp"
  created_timestamp ← subscript d "created_timestamp"
  status ← subscript d "status"
  specific_info ← subscript d "specific_info"
  ok (record {
    event_timestamp = event_timestamp;
    created_timestamp = created_timestamp;
    status = status;
    specific_info = specific_info;
  })

-- The `while` loop goes from the last element to the first.
unfoldable pub read_events : ℕ → Items → EntityHealth → Result EntityHealth
unfolding read_event add_event
read_events num_events nil h = ok h
read_events num_events (cons d ds) h = do
  older ← read_events num_events ds h
  event ← read_event d
  ok (add_event num_events event older)

-- What has no length, or is not indexed by numbers, raises; what is empty has no rounds.
unfoldable pub read_history : ℕ → Json → EntityHealth → Result EntityHealth
unfolding read_events
read_history num_events (arr ds) h = read_events num_events ds h
read_history num_events (obj end) h = ok h
read_history num_events (obj (field k v fs)) h = raise key_error
read_history num_events (str s) h = if s == "" then ok h else raise type_error
read_history num_events _ h = raise type_error

unfoldable pub read_action : Json → EntityHealth → Result EntityHealth
unfolding subscript set_action
read_action d h = do
  modified_timestamp ← subscript d "modified_timestamp"
  status ← subscript d "status"
  ok (set_action (record { modified_timestamp = modified_timestamp; status = status }) h)

-- the body of the loop over the keys
unfoldable pub read_key : ℕ → String → Json → EntityHealth → Result EntityHealth
unfolding read_history read_action add_attributes
read_key num_events key value h =
    if key == "events"
    then read_history num_events value h
    else if key == "action"
    then read_action value h
    else if key == "attributes"
    then add_attributes value h
    else raise ha_entity_health

unfoldable pub read_keys : ℕ → Fields → EntityHealth → Result EntityHealth
unfolding read_key
read_keys num_events end h = ok h
read_keys num_events (field key value fs) h = do
  h' ← read_key num_events key value h
  read_keys num_events fs h'

abbrev pub read_document : ℕ → Json → Result EntityHealth
read_document num_events (obj fs) = read_keys num_events fs empty
read_document num_events _ = raise attribute_error

unfoldable pub read : ℕ → Json → Result EntityHealth
unfolding read_keys
read num_events current_health = reraise ha_entity_health (read_document num_events current_health)
