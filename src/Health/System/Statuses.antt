-- ===== src/Health/System/Statuses.antt =====
-- What `SystemHealth.process_event` makes of the status of an event that the Kubernetes monitor has not
-- sent.
use cortx_ha.Prelude.{
  ℕ, suc, String, ◌≡◌, refl, ap, ◌∙◌, ◌==◌, true, false, List, [], ◌∷◌, take, length-take_le, some,
  ◌⊎◌, arith, Bool-cases, inl, inr,
}
use cortx_ha.Prelude.{ok}
use cortx_ha.Prelude.Acting.{Act, for_each}
use cortx_ha.Json.{Json, null, str, end, subscript, latest, is_text}
use cortx_ha.Store.Services.{document, Consul, IsConsul}
use cortx_ha.Store.KvStore.Contract.{Holds}
use cortx_ha.Health.Event.{HealthEvent, monitor_source, node_element}
use cortx_ha.Health.EntityHealth.{
  EntityEvent, EntityAction, EntityHealth, write, event_items, event_dict, action_dict,
}
use cortx_ha.Health.EntityHealth.RoundTrip.{read-write, with_events}
use cortx_ha.Health.Updates.{
  Update, updates, plan, plain_plan, updated, is_node_report, is_update_required, required,
}
use cortx_ha.Health.Updates.Required.{required_iff}
use cortx_ha.Health.Updates.Restart.{latest-updated}
use cortx_ha.Health.System.{disk_element, check_and_update, process_event}
use cortx_ha.Health.System.Processing.{IsProducer, Reaches, outcome}
use cortx_ha.Health.System.Events.{IsAddressed, process_event-planned, process_event-updates}

-- a stored health value whose latest event has a status and an info
abbrev pub stored_as : String → Json → Json → Json → List EntityEvent → EntityAction → EntityHealth
stored_as old t c info older action = record {
  events =
      record { event_timestamp = t; created_timestamp = c; status = str old; specific_info = info }
      ∷ older;
  action = some action;
  attributes = end;
}

-- the status is the stored one, or a node that is offline is reported failed
abbrev pub Ignored : HealthEvent → String → String → Type 0
Ignored event old status =
    (old ≡ status)
    ⊎ ((event.resource_type ≡ str node_element) × (old ≡ "offline") × (status ≡ "failed"))

no_report :
    (event : HealthEvent) (component_type source : String) (info : Json)
    → event.source ≡ str source
    → (source == monitor_source) ≡ false
    → is_node_report event component_type info ≡ false
unfolding is_text
no_report event component_type source info from other = ground (arith, from)

-- what the value of the component becomes
abbrev next_value : ℕ → Json → String → HealthEvent → EntityHealth → EntityHealth
next_value n now status event h =
    updated (suc n) now event.timestamp (str status) event.specific_info
      (with_events h (take (suc n) h.events))

plan-plain :
    (n : ℕ) (now t c info : Json) (old status component_type source : String)
    (older : List EntityEvent) (action : EntityAction) (event : HealthEvent)
    → let h = stored_as old t c info older action in
      event.source ≡ str source
      → (source == monitor_source) ≡ false
      → plan (suc n) now status component_type event (some (write h))
        ≡ ok (
            updates (
              record {
                before = some (write h);
                event = event;
                value = write (next_value n now status event h);
              }
              ∷ []))
unfolding plan plain_plan write event_items event_dict action_dict latest subscript
plan-plain n now t c info old status component_type source older action event from other =
    rw
      (
        no_report event component_type source info from other,
        read-write (suc n) (stored_as old t c info older action),
      )
      refl

old_status :
    (t c info : Json) (old : String) (older : List EntityEvent) (action : EntityAction)
    → latest (write (stored_as old t c info older action)) "status" ≡ ok (str old)
unfolding write event_items event_dict latest subscript
old_status t c info old older action = refl

decision :
    (event : HealthEvent) (before after : Json) (old new : String)
    → latest before "status" ≡ ok (str old)
    → latest after "status" ≡ ok (str new)
    → is_update_required event (some before) after ≡ ok (required event (str old) (str new))
unfolding is_update_required
decision event before after old new was is = rw (was, is) refl

module _ {S : Type 0} (consul : Consul S) (prefix : String) (send : HealthEvent → Act S (Unit {0}))
    (laws : IsConsul consul) (producer : IsProducer laws send) (n : ℕ) (now : Json)
    (get_cvg_list : HealthEvent → Act S (List String)) where
  -- the update is not carried out
  ignored-carried :
      (s : S) (key : String) (u : Update)
      → is_update_required u.event u.before u.value ≡ ok false
      → for_each (u ∷ []) (check_and_update consul prefix send key) s ≡ (s, ok _)
  unfolding for_each check_and_update
  ignored-carried s key u is = rw is refl

  one-outcome :
      (d : Json) (u : Update)
      → is_update_required u.event u.before u.value ≡ ok true
      → outcome d (u ∷ []) ≡ ok (u.value, u.event ∷ [])
  unfolding outcome
  one-outcome d u is = rw is refl

  -- An event that the Kubernetes monitor has not sent, of a component but a disk that has a health value
  -- alone under its key: where its status is the stored one, or a node that is offline is reported
  -- failed, nothing is stored or announced; otherwise the value that is stored has the event's status
  -- and specific info as its latest, and the event, as it came, is announced once and nothing else.
  pub process_event-status :
      (s : S) (event : HealthEvent) (status component_type key source old : String)
      (t c info : Json) (older : List EntityEvent) (action : EntityAction)
      → IsAddressed event null status component_type key
      → (component_type == disk_element) ≡ false
      → event.source ≡ str source
      → (source == monitor_source) ≡ false
      → Holds consul prefix laws s key
          (some (document (write (stored_as old t c info older action))))
      → (Ignored event old status
          → process_event consul prefix send get_cvg_list (suc n) now event s ≡ (s, ok _))
        × (¬ Ignored event old status
            → (up : Json) × (latest up "status" ≡ ok (str status))
              × (latest up "specific_info" ≡ ok event.specific_info)
              × Reaches consul prefix send laws producer s key up
                  (event ∷ [])
                  (process_event consul prefix send get_cvg_list (suc n) now event))
  process_event-status s event status component_type key source old t c info older action a no_disk
        from other h =
      let health = stored_as old t c info older action in
      let up = write (next_value n now status event health) in
      let u : Update = record { before = some (write health); event = event; value = up } in
      let (up_status, up_info, _) =
        latest-updated n now event.timestamp (str status) event.specific_info
          (with_events health (take (suc n) health.events))
          (length-take_le (suc n) health.events) in
      let planned =
        plan-plain n now t c info old status component_type source older action event from other in
      let decided =
        decision event (write health) up old status (old_status t c info old older action)
          up_status in
      let (ignores, ignored) = required_iff event old status in
      (
        λ same.
            process_event-planned consul prefix send laws producer (suc n) now get_cvg_list s s
              event status component_type key (write health) (u ∷ []) a no_disk h planned
              (ignored-carried s key u (decided ∙ ap ok (ignored same))),
        λ changed. (
          up,
          up_status,
          up_info,
          process_event-updates consul prefix send laws producer (suc n) now get_cvg_list s event
              status component_type key (write health) up (u ∷ []) (event ∷ []) a no_disk h planned
              (one-outcome (write health) u (
                decided
                ∙ ap ok (elim (Bool-cases (required event (str old) (str status))) [
                  | inl needed ↦ needed
                  | inr not_so ↦ absurd (changed (ignores not_so))
                ]))),
        ),
      )
