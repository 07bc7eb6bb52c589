-- ===== src/Health/StatusMapper/Statuses.antt =====
-- Which statuses come out of the mapping of events.
use cortx_ha.Prelude.{
  refl, Bool, if◌then◌else◌, String, ◌⊎◌, ◌≡◌, ◌↔◌, true, false, ◌==◌, arith, contains, inl, inr,
}
use cortx_ha.Prelude.{Result, raise, reraise, ha_status_mapper, ok}
use cortx_ha.Prelude.Dict
use cortx_ha.Prelude.Dict.{get-AllValues}
use cortx_ha.Json.{Json, null, str, is_text_iff, lookup_by}
use cortx_ha.Health.Event.{HealthEvent, health_statuses, monitor_source, node_element}
use cortx_ha.Health.StatusMapper.{event_to_status_mapping, is_starting, map_event}

abbrev Known : String → Type 0
Known s = (contains health_statuses s ≡ true) × ((s == "starting") ≡ false)

statuses-Known : Dict.AllValues Known event_to_status_mapping
unfolding contains
statuses-Known = ground arith

looked_up-Known : (k : Json) {s : String} → lookup_by event_to_status_mapping k ≡ ok s → Known s
unfolding lookup_by
looked_up-Known (str k) h =
    get-AllValues Known event_to_status_mapping k statuses-Known (ground arith)
looked_up-Known null h = cc
looked_up-Known _ h = cc

-- where an answer comes from
map_event-eq-ok :
    (event : HealthEvent) (s : String)
    → map_event event ≡ ok s
    → ((is_starting event ≡ true) × (s ≡ "starting"))
      ⊎ ((is_starting event ≡ false) × (lookup_by event_to_status_mapping event.event_type ≡ ok s))
unfolding map_event
map_event-eq-ok event s h =
    by_cases (is_starting event) (lookup_by event_to_status_mapping event.event_type) h
  where
    by_cases :
        (b : Bool) (r : Result String)
        → reraise ha_status_mapper (if b then ok "starting" else r) ≡ ok s
        → ((b ≡ true) × (s ≡ "starting")) ⊎ ((b ≡ false) × (r ≡ ok s))
    by_cases true r h = inl (refl, ground arith)
    by_cases false (ok t) h = inr (refl, h)
    by_cases false (raise e) h = cc

-- Whatever `map_event` answers is one of the health statuses.
map_event-known :
    (event : HealthEvent) (s : String) → map_event event ≡ ok s → contains health_statuses s ≡ true
unfolding contains
map_event-known event s h = elim (map_event-eq-ok event s h) [
  | inl (_, e) ↦ rw e
  | inr (_, e) ↦ (looked_up-Known event.event_type e).0
]

-- An event is mapped to "starting" exactly when the Kubernetes monitor reports a node online.
map_event-starting :
    (event : HealthEvent)
    → (map_event event ≡ ok "starting") ↔ (
        (event.source ≡ str monitor_source)
        × (event.event_type ≡ str "online")
        × (event.resource_type ≡ str node_element))
unfolding map_event
map_event-starting event = (
  λ h. elim (map_event-eq-ok event "starting" h) [
    | inl (e, _) ↦ ground (
      arith,
      is_text_iff event.source monitor_source,
      is_text_iff event.event_type "online",
      is_text_iff event.resource_type node_element,
    )
    | inr (_, e) ↦ absurd (ground (arith, (looked_up-Known event.event_type e).1))
  ],
  λ h. ground (
    arith,
    is_text_iff event.source monitor_source,
    is_text_iff event.event_type "online",
    is_text_iff event.resource_type node_element,
  ),
)
