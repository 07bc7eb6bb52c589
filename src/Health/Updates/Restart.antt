-- ===== src/Health/Updates/Restart.antt =====
-- What a node does that comes back as another pod.
use cortx_ha.Prelude.{
  ℕ, suc, String, ◌≡◌, refl, ◌==◌, arith, true, false, List, [], ◌∷◌, take, length, length-take_le,
  ◌≤◌, some,
}
use cortx_ha.Prelude.{ok}
use cortx_ha.Json.{Json, str, end, subscript, latest, truthy, is_text, is_none}
use cortx_ha.Health.Event.{HealthEvent, monitor_source}
use cortx_ha.Health.EntityHealth.{
  EntityEvent, EntityAction, EntityHealth, write, event_items, event_dict, action_dict, set_action,
}
use cortx_ha.Health.EntityHealth.Bounds.{add_event-eq-take}
use cortx_ha.Health.EntityHealth.RoundTrip.{read-write, with_events}
use cortx_ha.Health.Updates.{
  updates, plan, node_plan, restart_plan, restart_info, restated, updated, is_update_required,
  required,
}

-- a stored health value whose latest event is the node being online as the pod `id`
abbrev pub online_as : String → ℕ → Json → Json → List EntityEvent → EntityAction → EntityHealth
online_as id restarts event_timestamp created_timestamp older action = record {
  events =
      record {
        event_timestamp = event_timestamp;
        created_timestamp = created_timestamp;
        status = str "online";
        specific_info = restart_info (str id) restarts;
      }
      ∷ older;
  action = some action;
  attributes = end;
}

new_pod_plan :
    (n : ℕ) (now t c : Json) (status id new : String) (restarts : ℕ) (older : List EntityEvent)
    (action : EntityAction) (event : HealthEvent)
    → let h = online_as id restarts t c older action in
      event.source ≡ str monitor_source
      → event.event_type ≡ str "online"
      → subscript event.specific_info "generation_id" ≡ ok (str new)
      → (id == "") ≡ false
      → (id == new) ≡ false
      → plan n now status "node" event (some (write h))
        ≡ ok (
            restart_plan n now (str id) (str new) event (write h) (with_events h (take n h.events)))
unfolding plan node_plan write event_items event_dict action_dict latest truthy is_text is_none
    subscript
new_pod_plan n now t c status id new restarts older action event from_monitor online incoming named
      other =
    rw (
      from_monitor,
      online,
      incoming,
      named,
      other,
      read-write n (online_as id restarts t c older action),
    )

online_stored :
    (id : String) (restarts : ℕ) (t c : Json) (older : List EntityEvent) (action : EntityAction)
    → latest (write (online_as id restarts t c older action)) "status" ≡ ok (str "online")
unfolding write event_items event_dict latest subscript
online_stored id restarts t c older action = refl

-- a change of the status that does not start from "offline"
update_required :
    (event : HealthEvent) (before after : Json) (old new : String)
    → latest before "status" ≡ ok (str old)
    → latest after "status" ≡ ok (str new)
    → (old == new) ≡ false
    → (old == "offline") ≡ false
    → is_update_required event (some before) after ≡ ok true
unfolding is_update_required required is_text
update_required event before after old new was is changed not_offline =
    rw (was, is, changed, not_offline) (ground arith)

-- The latest event of an updated value is the one that was added.
pub latest-updated :
    (n : ℕ) (now t status info : Json) (h : EntityHealth)
    → length h.events ≤ suc n
    → (latest (write (updated (suc n) now t status info h)) "status" ≡ ok status)
      × (latest (write (updated (suc n) now t status info h)) "specific_info" ≡ ok info)
      × (length (updated (suc n) now t status info h).events ≤ suc n)
unfolding updated write event_items event_dict action_dict latest subscript set_action
latest-updated n now t status info h fits =
    rw
      (add_event-eq-take (suc n)
        (record {
          event_timestamp = t;
          created_timestamp = now;
          status = status;
          specific_info = info;
        })
        h fits)
      (refl, refl, omega (arith, length-take_le n h.events))

-- The stored node was online as one pod, and the monitor reports it online as another: the failure of
-- the old pod and the new pod's being online are recorded in this order, each is an update that is
-- required, and the latest event is then the new pod's, marked as a restart.
pub plan-restart :
    (n : ℕ) (now t c : Json) (status id new : String) (restarts : ℕ) (older : List EntityEvent)
    (action : EntityAction) (event : HealthEvent)
    → event.source ≡ str monitor_source
    → event.event_type ≡ str "online"
    → subscript event.specific_info "generation_id" ≡ ok (str new)
    → (id == "") ≡ false
    → (id == new) ≡ false
    → let current = some (write (online_as id restarts t c older action)) in
      let failure = restated event "failed" (restart_info (str id) 1) in
      let recovery = restated event "online" (restart_info (str new) 1) in
      (down : Json) × (up : Json) × (plan (suc n) now status "node" event current
        ≡ ok (
            updates (
              record { before = current; event = failure; value = down }
              ∷ record { before = some down; event = recovery; value = up }
              ∷ [])))
      × (is_update_required failure current down ≡ ok true)
      × (is_update_required recovery (some down) up ≡ ok true)
      × (latest up "specific_info" ≡ ok (restart_info (str new) 1))
unfolding restart_plan
plan-restart n now t c status id new restarts older action event from_monitor online incoming named
      other =
    let h = online_as id restarts t c older action in
    let read_back = with_events h (take (suc n) h.events) in
    let failed_health =
      updated (suc n) now event.timestamp (str "failed") (restart_info (str id) 1) read_back in
    let online_health =
      updated (suc n) now event.timestamp (str "online") (restart_info (str new) 1) failed_health in
    let (down_status, _, fits) =
      latest-updated n now event.timestamp (str "failed") (restart_info (str id) 1) read_back
        (length-take_le (suc n) h.events) in
    let (up_status, up_info, _) =
      latest-updated n now event.timestamp (str "online") (restart_info (str new) 1) failed_health
        fits in
    (
      write failed_health,
      write online_health,
      new_pod_plan (suc n) now t c status id new restarts older action event from_monitor online
          incoming named other,
      update_required (restated event "failed" (restart_info (str id) 1)) (write h)
          (write failed_health) "online" "failed" (online_stored id restarts t c older action)
          down_status refl refl,
      update_required (restated event "online" (restart_info (str new) 1)) (write failed_health)
          (write online_health) "failed" "online" down_status up_status refl refl,
      up_info,
    )
