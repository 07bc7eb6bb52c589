-- ===== src/Tests/HealthRuns.antt =====
-- Runs of ha/core/system_health.
use cortx_ha.Prelude.{String, ◌≡◌, refl, List, [], ◌∷◌, contains, some, Distinct}
use cortx_ha.Prelude.{ok}
use cortx_ha.Json.{is_text, str, num, null, end}
use cortx_ha.Health.Event.{HealthEvent}
use cortx_ha.Health.EntityHealth.{EntityEvent, EntityHealth, read, write}
use cortx_ha.Health.EntityHealth.RoundTrip.{read-write}
use cortx_ha.Health.StatusMapper.{map_event}
use cortx_ha.Health.Rules.{StatusMap, rack_rules}
use cortx_ha.Health.Rules.Quorum.{Majority, rack_rules-Majority}
use cortx_ha.Health.Hierarchy.{get_component_level, get_next_components}

abbrev node_online : HealthEvent
node_online = record {
  source = str "monitor";
  event_id = str "1";
  event_type = str "online";
  severity = str "informational";
  site_id = str "1";
  rack_id = str "1";
  cluster_id = str "1";
  storageset_id = str "n1";
  node_id = str "n1";
  host_id = str "n1";
  resource_type = str "node";
  timestamp = num 7;
  resource_id = str "n1";
  specific_info = null;
}

abbrev failure : EntityEvent
failure = record {
  event_timestamp = num 1;
  created_timestamp = num 2;
  status = str "failed";
  specific_info = null;
}

abbrev recovery : EntityEvent
recovery = record {
  event_timestamp = num 3;
  created_timestamp = num 4;
  status = str "online";
  specific_info = null;
}

abbrev history : EntityHealth
history = record {
  events = recovery ∷ failure ∷ [];
  action = some (record { modified_timestamp = num 5; status = str "pending" });
  attributes = end;
}

abbrev newest : EntityHealth
newest = record history { events = recovery ∷ [] }

read-write_example : read 1 (write history) ≡ ok newest
read-write_example = read-write 1 history

node_starts : map_event node_online ≡ ok "starting"
unfolding map_event is_text
node_starts = refl

abbrev nodes : StatusMap
nodes = ("n1", str "online") ∷ ("n2", str "failed") ∷ ("n3", str "failed") ∷ []

rack_rules-Majority_example : Majority (rack_rules nodes) nodes
rack_rules-Majority_example = rack_rules-Majority nodes (λ e. cc)

abbrev levels : List String
levels = "cluster" ∷ "site" ∷ "rack" ∷ "node" ∷ []

levels-Distinct : Distinct levels
unfolding contains
levels-Distinct = (refl, (refl, (refl, (refl, tt))))

below_site : get_next_components levels "site" ≡ "rack" ∷ []
unfolding get_next_components
below_site = refl

site_level : get_component_level levels "site" ≡ ok 2
unfolding get_component_level
site_level = refl
