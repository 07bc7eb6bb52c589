-- ===== src/Health/Updates/Required.antt =====
-- When an event changes the stored health.
use cortx_ha.Prelude.{String, ◌≡◌, ◌⊎◌, ◌↔◌, eq_iff, arith, false}
use cortx_ha.Json.{str, is_text, is_text_iff}
use cortx_ha.Health.Event.{HealthEvent, node_element}
use cortx_ha.Health.Updates.{required}

-- Between two statuses an event is ignored exactly when they are equal, or when it is a node's and
-- the status would go from "offline" to "failed".
pub required_iff :
    (event : HealthEvent) (old new : String)
    → (required event (str old) (str new) ≡ false) ↔ (
        (old ≡ new)
        ⊎ ((event.resource_type ≡ str node_element) × (old ≡ "offline") × (new ≡ "failed")))
unfolding required is_text
required_iff event old new = (
  λ h. ground (
    arith,
    eq_iff old new,
    is_text_iff event.resource_type node_element,
    eq_iff old "offline",
    eq_iff new "failed",
  ),
  λ h. ground (
    arith,
    eq_iff old new,
    is_text_iff event.resource_type node_element,
    eq_iff old "offline",
    eq_iff new "failed",
  ),
)
