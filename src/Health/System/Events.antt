-- ===== src/Health/System/Events.antt =====
-- `SystemHealth.process_event` as a whole, for an event whose component and key can be told.
use cortx_ha.Prelude.{ℕ, suc, String, ◌≡◌, refl, ◌==◌, true, false, List, [], ◌∷◌, some}
use cortx_ha.Prelude.{ok}
use cortx_ha.Prelude.Acting.{Act, for_each}
use cortx_ha.Json.{Json, null, str, subscript, latest}
use cortx_ha.Store.Services.{document, Consul, IsConsul}
use cortx_ha.Store.KvStore.Contract.{Holds, get-Holds}
use cortx_ha.Health.Event.{HealthEvent, monitor_source}
use cortx_ha.Health.EntityHealth.{EntityEvent, EntityAction, write}
use cortx_ha.Health.StatusMapper.{map_event}
use cortx_ha.Health.Keys.{get_component, get_hierarchy, text_value}
use cortx_ha.Health.Keys.{prepare_key as component_key}
use cortx_ha.Health.Updates.{Update, updates, plan, is_update_required, restated, restart_info}
use cortx_ha.Health.Updates.Restart.{online_as, plan-restart}
use cortx_ha.Health.System.{
  disk_element, key_args, last_part, place, check_and_update, process_event,
}
use cortx_ha.Health.System.Processing.{IsProducer, Reaches, outcome, updates-Reaches}

-- What `process_event` finds out of an event, with the CVG of a disk, before it reads the store: its status, its component and
-- type, and the key of its health value.
pub record IsAddressed (event : HealthEvent) (cvg_id : Json) (status component_type key : String)
    : Type 0 where
  pub component : String
  pub hierarchy : List String
  pub resource_type : String
  pub mapped : map_event event ≡ ok status
  pub known : get_component event.resource_type ≡ ok component
  pub placed : get_hierarchy component ≡ ok hierarchy
  pub named : text_value event.resource_type ≡ ok resource_type
  pub typed : last_part resource_type ≡ ok component_type
  pub keyed : component_key component (key_args event component_type cvg_id) ≡ ok key
  pub not_empty : (key == "") ≡ false

module _ {S : Type 0} (consul : Consul S) (prefix : String) (send : HealthEvent → Act S (Unit {0}))
    (laws : IsConsul consul) (producer : IsProducer laws send) (num_events : ℕ) (now : Json)
    (get_cvg_list : HealthEvent → Act S (List String)) where
  -- An event of a component but a disk that has a health value, stored alone under its key, does what
  -- the updates of its plan do, if the plan consists of updates.
  pub process_event-planned :
      (s s' : S) (event : HealthEvent) (status component_type key : String) (old : Json)
      (us : List Update)
      → IsAddressed event null status component_type key
      → (component_type == disk_element) ≡ false
      → Holds consul prefix laws s key (some (document old))
      → plan num_events now status component_type event (some old) ≡ ok (updates us)
      → for_each us (check_and_update consul prefix send key) s ≡ (s', ok _)
      → process_event consul prefix send get_cvg_list num_events now event s ≡ (s', ok _)
  unfolding process_event place
  process_event-planned s s' event status component_type key old us a no_disk h planned carried =
      rw (
        a.mapped,
        a.known,
        a.placed,
        a.named,
        a.typed,
        no_disk,
        a.keyed,
        get-Holds consul prefix laws s key (some (document old)) h,
        planned,
        carried,
      )

  -- So it leads to the value and announces the events that these updates give.
  pub process_event-updates :
      (s : S) (event : HealthEvent) (status component_type key : String) (old d : Json)
      (us : List Update) (events : List HealthEvent)
      → IsAddressed event null status component_type key
      → (component_type == disk_element) ≡ false
      → Holds consul prefix laws s key (some (document old))
      → plan num_events now status component_type event (some old) ≡ ok (updates us)
      → outcome old us ≡ ok (d, events)
      → Reaches consul prefix send laws producer s key d events
          (process_event consul prefix send get_cvg_list num_events now event)
  process_event-updates s event status component_type key old d us events a no_disk h planned
        taken =
      let r =
        updates-Reaches consul prefix send laws producer us s key old d events a.not_empty h
          taken in
      record {
        after = r.after;
        result =
            process_event-planned s r.after event status component_type key old us a no_disk h
              planned r.result;
        here = r.here;
        announced = r.announced;
      }

-- both updates of a pod's return are taken
restart-outcome :
    (old down up : Json) (failure recovery : HealthEvent)
    → is_update_required failure (some old) down ≡ ok true
    → is_update_required recovery (some down) up ≡ ok true
    → outcome old (
        record { before = some old; event = failure; value = down }
        ∷ record { before = some down; event = recovery; value = up }
        ∷ [])
      ≡ ok (up, failure ∷ recovery ∷ [])
unfolding outcome
restart-outcome old down up failure recovery first second = rw (first, second)

module _ {S : Type 0} (consul : Consul S) (prefix : String) (send : HealthEvent → Act S (Unit {0}))
    (laws : IsConsul consul) (producer : IsProducer laws send) (n : ℕ) (now : Json)
    (get_cvg_list : HealthEvent → Act S (List String)) where
  -- The monitor reports a node online as another pod than the one that is stored as online, alone under
  -- its key: the failure of the old pod is announced and then the new pod's being online, and the last
  -- value that is stored has the new pod as its latest event.
  pub process_event-restart :
      (s : S) (event : HealthEvent) (status key : String) (t c : Json) (id new : String)
      (restarts : ℕ) (older : List EntityEvent) (action : EntityAction)
      → IsAddressed event null status "node" key
      → Holds consul prefix laws s key
          (some (document (write (online_as id restarts t c older action))))
      → event.source ≡ str monitor_source
      → event.event_type ≡ str "online"
      → subscript event.specific_info "generation_id" ≡ ok (str new)
      → (id == "") ≡ false
      → (id == new) ≡ false
      → (up : Json) × (latest up "specific_info" ≡ ok (restart_info (str new) 1))
        × Reaches consul prefix send laws producer s key up
            (restated event "failed" (restart_info (str id) 1)
              ∷ restated event "online" (restart_info (str new) 1)
              ∷ [])
            (process_event consul prefix send get_cvg_list (suc n) now event)
  process_event-restart s event status key t c id new restarts older action a h from_monitor online
        incoming named other =
      let old = write (online_as id restarts t c older action) in
      let failure = restated event "failed" (restart_info (str id) 1) in
      let recovery = restated event "online" (restart_info (str new) 1) in
      let (down, up, planned, first, second, info) =
        plan-restart n now t c status id new restarts older action event from_monitor online
          incoming named other in
      (
        up,
        info,
        process_event-updates consul prefix send laws producer (suc n) now get_cvg_list s event
            status "node" key old up _ (failure ∷ recovery ∷ []) a refl h planned
            (restart-outcome old down up failure recovery first second),
      )
