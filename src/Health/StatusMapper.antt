-- ===== src/Health/StatusMapper.antt =====
-- ha/core/system_health/status_mapper.py
pub mod Statuses
use cortx_ha.Prelude.{String, Bool, ◌&&◌, [], ◌∷◌, ◌==◌, if◌then◌else◌}
use cortx_ha.Prelude.{Result, ok, ha_status_mapper, reraise}
use cortx_ha.Prelude.Dict.{Dict}
use cortx_ha.Prelude.Dict
use cortx_ha.Json.{is_text, lookup_by}
use cortx_ha.Health.Event.{HealthEvent, monitor_source, node_element}

abbrev pub event_to_status_mapping : Dict String
event_to_status_mapping =
    ("fault", "offline")
    ∷ ("fault_resolved", "online")
    ∷ ("missing", "offline")
    ∷ ("insertion", "online")
    ∷ ("recovering", "recovering")
    ∷ ("online", "online")
    ∷ ("failed", "failed")
    ∷ ("unknown", "unknown")
    ∷ ("degraded", "degraded")
    ∷ ("threshold_breached:low", "degraded")
    ∷ ("threshold_breached:high", "degraded")
    ∷ ("offline", "offline")
    ∷ ("repairing", "repairing")
    ∷ ("repaired", "repaired")
    ∷ ("rebalancing", "rebalancing")
    ∷ []

abbrev pub event_to_severity_mapping : Dict String
event_to_severity_mapping =
    ("starting", "informational")
    ∷ ("recovering", "informational")
    ∷ ("online", "informational")
    ∷ ("degraded", "informational")
    ∷ ("repairing", "informational")
    ∷ ("repaired", "informational")
    ∷ ("rebalancing", "informational")
    ∷ ("failed", "error")
    ∷ ("offline", "informational")
    ∷ []

-- the test of `map_event`: a node that the monitor finds online is only starting
abbrev pub is_starting : HealthEvent → Bool
is_starting event =
    is_text event.source monitor_source
    && (is_text event.event_type "online" && is_text event.resource_type node_element)

unfoldable pub map_event : HealthEvent → Result String
unfolding lookup_by
map_event event = reraise ha_status_mapper (
    if is_starting event then ok "starting" else lookup_by event_to_status_mapping event.event_type)
