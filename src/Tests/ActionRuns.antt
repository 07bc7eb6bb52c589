-- ===== src/Tests/ActionRuns.antt =====
-- Runs of the handlers and of the health monitor service.
use cortx_ha.Prelude.{String, ◌≡◌, refl, [], ◌∷◌}
use cortx_ha.Prelude.{ok}
use cortx_ha.Prelude.Acting.{Act}
use cortx_ha.Json.{Json, str, num, null, is_text}
use cortx_ha.Health.Event.{HealthEvent, event_document, dict_to_object-event_document}
use cortx_ha.Store.Key.{prepare_key, rule_key}
use cortx_ha.Store.Services.{names, under}
use cortx_ha.Actions.Handlers.{node_handler, get_action_handler, handler_of, only_publish}
use cortx_ha.Actions.Service.{read_event, process_event}
use cortx_ha.Actions.Service.Answers.{expected, HasActions, process_event-HasActions}
use cortx_ha.Tests.ListConsul.{Cluster, list_consul, list_laws, prefix}

abbrev node_failed : HealthEvent
node_failed = record {
  source = str "monitor";
  event_id = str "1";
  event_type = str "failed";
  severity = str "error";
  site_id = str "1";
  rack_id = str "1";
  cluster_id = str "1";
  storageset_id = str "n1";
  node_id = str "n1";
  host_id = str "n1";
  resource_type = str "node";
  timestamp = num 7;
  resource_id = str "n1";
  specific_info = null;
}

-- publishing that counts
abbrev counted : HealthEvent → Act Cluster (Unit {0})
counted e (d, sent) = ((d, ("p", "t", "j") ∷ sent), ok _)

chosen : get_action_handler node_failed ("ha" ∷ "publish" ∷ []) ≡ ok node_handler
unfolding get_action_handler handler_of only_publish is_text
chosen = refl

abbrev format : Json → String
format (str s) = s
format _ = "?"

abbrev with_rule : Cluster
with_rule = (("cortx>ha>v1>action>node>failed", names ("publish" ∷ [])) ∷ [], [])

rule_of_event :
    HasActions list_consul prefix list_laws format counted with_rule node_failed ("publish" ∷ [])
unfolding under prepare_key rule_key
rule_of_event = refl

event_read : read_event (ok (event_document node_failed)) ≡ ok node_failed
unfolding read_event
event_read = dict_to_object-event_document node_failed

process_event-HasActions_example :
    process_event list_consul prefix format counted (ok (event_document node_failed)) with_rule
    ≡ expected list_consul prefix list_laws format counted node_failed ("publish" ∷ []) with_rule
process_event-HasActions_example =
    process_event-HasActions list_consul prefix list_laws format counted with_rule
      (ok (event_document node_failed)) node_failed ("publish" ∷ []) event_read rule_of_event
