-- ===== src/Health/Updates.antt =====
-- The decisions of ha/core/system_health/system_health.py: what a health event makes of the stored
-- health of its component. `now` is the text of the current time.
pub mod Required
pub mod Restart
use cortx_ha.Prelude.{
  ℕ, String, ◌==◌, Bool, true, false, not, ◌&&◌, ◌||◌, List, [], ◌∷◌, eqb, Option, none, some,
  if◌then◌else◌,
}
use cortx_ha.Prelude.{Exn, Result, ok, raise, ◌>>=◌}
use cortx_ha.Json.{
  Json, Items, Fields, null, bool, num, str, arr, obj, nil, cons, end, field, subscript, latest,
  truthy, is_text, is_none,
}
use cortx_ha.Health.Event.{HealthEvent, monitor_source, node_element}
use cortx_ha.Health.EntityHealth.{
  EntityEvent, EntityAction, EntityHealth, empty, add_event, set_action, read, write,
}

-- `a == b`; the documents that are compared hold texts, and no dictionaries
abbrev pub same : Json → Json → Bool
same null null = true
same (bool a) (bool b) = if a then b else not b
same (num a) (num b) = eqb a b
same (str a) (str b) = a == b
same _ _ = false

-- `_is_update_required`: whether the answer is not "ignore"
unfoldable pub required : HealthEvent → Json → Json → Bool
required event old_status new_status = not (
    same old_status new_status
    || (is_text event.resource_type node_element
        && (is_text old_status "offline" && is_text new_status "failed")))

unfoldable pub is_update_required : HealthEvent → Option Json → Json → Result Bool
is_update_required event none updated_health = ok true
is_update_required event (some current_health) updated_health = do
  old_status ← latest current_health "status"
  new_status ← latest updated_health "status"
  ok (required event old_status new_status)

-- `create_updated_event_object`, before the value is written out
unfoldable pub updated : ℕ → Json → Json → Json → Json → EntityHealth → EntityHealth
updated num_events now event_timestamp status spec_info health =
    set_action (record { modified_timestamp = now; status = str "pending" })
      (add_event num_events
        (record {
          event_timestamp = event_timestamp;
          created_timestamp = now;
          status = status;
          specific_info = spec_info;
        })
        health)

-- A value that is to be stored if an update is required: the value before it, the event, the value.
pub record Update : Type 0 where
  pub before : Option Json
  pub event : HealthEvent
  pub value : Json

-- What `process_event` does to the store: the updates, in their order, or the stored document with
-- the specific info of its latest event replaced.
pub data Plan : Type 0 where
  updates : List Update → Plan
  reset_restart : Json → Plan
  nothing : Plan

-- `{"generation_id": id, "pod_restart": n}`
abbrev pub restart_info : Json → ℕ → Json
restart_info id n = obj (field "generation_id" id (field "pod_restart" (num n) end))

-- the branch for an event of a kind that is always counted: `status` is what the mapper answered
unfoldable pub plain_plan : ℕ → Json → String → HealthEvent → Option Json → EntityHealth → Plan
plain_plan num_events now status event current latest_health = updates (
    record {
      before = current;
      event = event;
      value =
          write
            (updated num_events now event.timestamp (str status) event.specific_info latest_health);
    }
    ∷ [])

-- the event with a status and an info of its own
abbrev pub restated : HealthEvent → String → Json → HealthEvent
restated event type info = record event { event_type = str type; specific_info = info }

-- The node came back as another pod: its failure is recorded first, then that it is online.
unfoldable pub restart_plan : ℕ → Json → Json → Json → HealthEvent → Json → EntityHealth → Plan
restart_plan num_events now stored_id incoming_id event current latest_health =
    let failed_info = restart_info stored_id 1 in
    let online_info = restart_info incoming_id 1 in
    let failed_health =
      updated num_events now event.timestamp (str "failed") failed_info latest_health in
    let online_health =
      updated num_events now event.timestamp (str "online") online_info failed_health in
    updates (
      record {
        before = some current;
        event = restated event "failed" failed_info;
        value = write failed_health;
      }
      ∷ record {
        before = some (write failed_health);
        event = restated event "online" online_info;
        value = write online_health;
      }
      ∷ [])

-- the generation of the pod differs from the stored one, whose status is not "failed"
abbrev pub is_new_pod : Json → Json → Json → Bool
is_new_pod stored_id incoming_id stored_status =
    truthy stored_id && (not (same stored_id incoming_id) && not (is_text stored_status "failed"))

-- An alert of the old pod, which came after that of the new one, is not recorded again.
abbrev pub late_plan : Json → Json → Plan
late_plan stored_id pod_restart =
    if not (is_none pod_restart) && truthy pod_restart
    then reset_restart (restart_info stored_id 0)
    else nothing

-- the branch for a node that the Kubernetes monitor reports, with a specific info stored
unfoldable pub node_plan : ℕ → Json → String → HealthEvent → Json → Json → Result Plan
node_plan num_events now status event current info = do
  stored_id ← subscript info "generation_id"
  stored_status ← latest current "status"
  incoming_id ← subscript event.specific_info "generation_id"
  pod_restart ← subscript info "pod_restart"
  latest_health ← read num_events current
  ok (
      if is_new_pod stored_id incoming_id stored_status
      then if is_text event.event_type "online"
        then restart_plan num_events now stored_id incoming_id event current latest_health
        else late_plan stored_id pod_restart
      else plain_plan num_events now status event (some current) latest_health)

abbrev pub is_node_report : HealthEvent → String → Json → Bool
is_node_report event component_type info =
    component_type == node_element && (truthy info && is_text event.source monitor_source)

-- The body of `process_event` from the stored value on.
unfoldable pub plan : ℕ → Json → String → String → HealthEvent → Option Json → Result Plan
plan num_events now status component_type event none =
    ok (plain_plan num_events now status event none empty)
plan num_events now status component_type event (some current) = do
  info ← latest current "specific_info"
  if is_node_report event component_type info
      then node_plan num_events now status event current info
      else do
        latest_health ← read num_events current
        ok (plain_plan num_events now status event (some current) latest_health)
