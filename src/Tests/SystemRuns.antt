-- ===== src/Tests/SystemRuns.antt =====
-- Runs of ha/core/system_health/system_health.py over a store that is a list of entries.
use cortx_ha.Prelude.{String, ◌≡◌, refl, List, [], ◌∷◌, contains, inl, inr, arith, eq_iff}
use cortx_ha.Prelude.{ok}
use cortx_ha.Prelude.Acting.{Act, pure}
use cortx_ha.Prelude.Dict
use cortx_ha.Prelude.Dict.{Dict}
use cortx_ha.Json.{Json, str, null, obj, field, end, subscript, latest, is_text, truthy}
use cortx_ha.Health.Event.{HealthEvent}
use cortx_ha.Health.EntityHealth.{EntityHealth, EntityAction, write}
use cortx_ha.Health.StatusMapper.{map_event}
use cortx_ha.Health.Keys.{
  get_component, get_hierarchy, prepare_key, components, component_of, any_in, hierarchy_in,
  from_component, key_of, put_comp_id, fill,
}
use cortx_ha.Health.Updates.{restated, restart_info}
use cortx_ha.Health.Updates.Restart.{online_as}
use cortx_ha.Health.System.{process_event, place, place_disk, put_field, key_args, last_part}
use cortx_ha.Health.System.Processing.{Reaches}
use cortx_ha.Health.System.Events.{IsAddressed, process_event-restart}
use cortx_ha.Health.System.Statuses.{Ignored, process_event-status}
use cortx_ha.Store.Key.{prepare_key as store_key, split_on}
use cortx_ha.Store.Services.{document, under}
use cortx_ha.Tests.HealthStore.{Ha, consul, laws, announce, producer}

abbrev pod_info : Json
pod_info = obj (field "generation_id" (str "pod-2") end)

abbrev event_from : String → String → Json → HealthEvent
event_from source type info = record {
  source = str source;
  event_id = str "1";
  event_type = str type;
  severity = str "informational";
  site_id = str "1";
  rack_id = str "1";
  cluster_id = str "c";
  storageset_id = str "n1";
  node_id = str "n1";
  host_id = str "n1";
  resource_type = str "node";
  timestamp = str "7";
  resource_id = str "n1";
  specific_info = info;
}

abbrev event : String → Json → HealthEvent
event type info = event_from "monitor" type info

abbrev pending : EntityAction
pending = record { modified_timestamp = str "5"; status = str "pending" }

abbrev node_key : String
node_key = ">cortx>ha>system>cluster>c>site>1>rack>1>node>n1>health"

rack_hierarchy : get_hierarchy "rack" ≡ ok ("rack" ∷ "site" ∷ "cluster" ∷ [])
unfolding hierarchy_in contains from_component
rack_hierarchy = refl

pod_read : subscript pod_info "generation_id" ≡ ok (str "pod-2")
unfolding subscript
pod_read = refl

addressed :
    (source type : String) (info : Json) (status : String)
    → map_event (event_from source type info) ≡ ok status
    → IsAddressed (event_from source type info) null status "node" node_key
unfolding get_component components component_of any_in hierarchy_in contains from_component
    last_part split_on prepare_key key_of put_comp_id Dict.get key_args fill
addressed source type info status mapped = record {
  component = "node";
  hierarchy = "node" ∷ "rack" ∷ "site" ∷ "cluster" ∷ [];
  resource_type = "node";
  mapped = mapped;
  known = refl;
  placed = refl;
  named = refl;
  typed = refl;
  keyed = refl;
  not_empty = refl;
}

abbrev no_cvgs : HealthEvent → Act Ha (List String)
no_cvgs e = pure []

abbrev online_health : EntityHealth
online_health = online_as "pod-1" 0 (str "1") (str "2") [] pending

abbrev one_health : Ha
one_health = (
  (
    "cortx>ha>v1>cortx>ha>system>cluster>c>site>1>rack>1>node>n1>health",
    document (write online_health),
  )
      ∷ [],
  [],
)

health_there :
    under (store_key "cortx>ha>v1>" node_key) (one_health.0)
    ≡ (store_key "cortx>ha>v1>" node_key, document (write online_health)) ∷ []
unfolding under store_key
health_there = refl

starting_status : map_event (event "online" pod_info) ≡ ok "starting"
unfolding map_event is_text Dict.get
starting_status = refl

process_event-restart_example :
    (up : Json) × (latest up "specific_info" ≡ ok (restart_info (str "pod-2") 1))
    × Reaches consul "cortx>ha>v1>" announce laws producer one_health node_key up
        (restated (event "online" pod_info) "failed" (restart_info (str "pod-1") 1)
          ∷ restated (event "online" pod_info) "online" (restart_info (str "pod-2") 1)
          ∷ [])
        (process_event consul "cortx>ha>v1>" announce no_cvgs 5 (str "9") (event "online" pod_info))
process_event-restart_example =
    process_event-restart consul "cortx>ha>v1>" announce laws producer 4 (str "9") no_cvgs
      one_health (event "online" pod_info) "starting" node_key (str "1") (str "2") "pod-1" "pod-2" 0
      [] pending (addressed "monitor" "online" pod_info "starting" starting_status) health_there
      refl refl pod_read refl refl

-- another part of the program reports the node failed
abbrev failure : HealthEvent
failure = event_from "hare" "failed" null

failure_status : map_event failure ≡ ok "failed"
unfolding map_event is_text Dict.get
failure_status = refl

process_event-status_example :
    let result = process_event consul "cortx>ha>v1>" announce no_cvgs 5 (str "9") failure in
    (Ignored failure "online" "failed" → result one_health ≡ (one_health, ok _))
    × (¬ Ignored failure "online" "failed"
        → (up : Json) × (latest up "status" ≡ ok (str "failed"))
          × (latest up "specific_info" ≡ ok failure.specific_info)
          × Reaches consul "cortx>ha>v1>" announce laws producer one_health node_key up
              (failure ∷ [])
              result)
process_event-status_example =
    process_event-status consul "cortx>ha>v1>" announce laws producer 4 (str "9") no_cvgs one_health
      failure "failed" "node" node_key "hare" "online" (str "1") (str "2")
      (restart_info (str "pod-1") 0) [] pending
      (addressed "hare" "failed" null "failed" failure_status) refl refl refl health_there

is_not-Ignored : ¬ Ignored failure "online" "failed"
is_not-Ignored (inl e) = ground (arith, eq_iff "online" "failed")
is_not-Ignored (inr (n, e, f)) = ground (arith, eq_iff "online" "offline")

-- a disk of which the event does not name the CVG is told it
disk_placed : place (λ e. pure ("cvg-1" ∷ [])) "disk" failure one_health ≡ (
  one_health,
  ok (record failure { specific_info = obj (field "cvg_id" (str "cvg-1") end) }, str "cvg-1"),
)
unfolding place place_disk put_field truthy cortx_ha.Json.field?
disk_placed = refl
