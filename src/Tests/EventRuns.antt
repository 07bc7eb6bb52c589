-- ===== src/Tests/EventRuns.antt =====
-- Runs of ha/core/event_analyzer.
use cortx_ha.Prelude.{◌≡◌, refl, List, [], ◌∷◌, contains, Bool}
use cortx_ha.Prelude.{filter_error, parser_error, generic, Result, ok, raise}
use cortx_ha.Json.{
  Json, str, num, null, obj, field, end, get_of, subscript, is_text, truthy, lookup_by, is_in,
}
use cortx_ha.Prelude.Dict
use cortx_ha.Health.Event.{HealthEvent, dict_to_object}
use cortx_ha.Bus.Consumer.{failed}
use cortx_ha.Events.Attrs.{plain_attrs}
use cortx_ha.Events.Filter.{Message, inner, sensor_type, cluster_resource_filter}
use cortx_ha.Events.Parser.{
  Site, node_info, cluster_dict, parse_alert, parse_iem, parse_cluster_resource,
}
use cortx_ha.Events.Parser.Sources.{parse-raises}
use cortx_ha.Events.Watcher.{analyze, process_message}
use cortx_ha.Events.Watcher.Outcomes.{
  Outcome, OnlyRaises, reraise-OnlyRaises, process_message-Outcome,
}

abbrev iem_response : Json
iem_response = obj (
    field "info" (obj (field "resource_type" (str "iem") end)) (
      field "specific_info" (obj (field "component" (str "S3") (field "module" (str "auth") end)))
        end))

abbrev iem_alert : Json
iem_alert = obj (field "sensor_response_type" iem_response end)

abbrev iem_message : Message
iem_message = ok (obj (field "message" iem_alert end))

inner_iem : inner iem_message ≡ ok iem_alert
unfolding inner get_of
inner_iem = refl

no_actuator : get_of iem_alert "actuator_response_type" ≡ ok null
unfolding get_of
no_actuator = refl

type_iem : sensor_type iem_alert ≡ ok (str "iem")
unfolding sensor_type get_of subscript
type_iem = refl

parse-raises_example :
    (parse_alert iem_message ≡ raise parser_error)
    × (parse_iem (λ host. ok (str host)) iem_message ≡ raise parser_error)
parse-raises_example = parse-raises (λ host. ok (str host)) iem_message

abbrev site : Site
site = record { cluster_id = str "c1"; site_id = str "1"; rack_id = str "1" }

abbrev generation : Json
generation = obj (field "generation_id" (str "pod-7") end)

abbrev node_message : Message
node_message = ok (
    obj (
      field "header" (obj (field "timestamp" (num 9) (field "event_id" (str "e1") end))) (
        field "payload"
          (obj (
            field "source" (str "monitor") (
              field "node_id" (str "n1") (
                field "resource_type" (str "node") (
                  field "resource_id" (str "n1") (
                    field "resource_status" (str "failed")
                      (field "specific_info" generation end)))))))
          end)))

abbrev node_failed : HealthEvent
node_failed = record {
  source = str "monitor";
  event_id = str "e1";
  event_type = str "failed";
  severity = str "error";
  site_id = str "1";
  rack_id = str "1";
  cluster_id = str "c1";
  storageset_id = str "n1";
  node_id = str "n1";
  host_id = str "n1";
  resource_type = str "node";
  timestamp = num 9;
  resource_id = str "n1";
  specific_info = obj (field "generation_id" (str "pod-7") (field "pod_restart" (num 0) end));
}

node_parsed : parse_cluster_resource plain_attrs site node_message ≡ ok node_failed
unfolding parse_cluster_resource subscript node_info is_text truthy lookup_by Dict.get
    dict_to_object cluster_dict
node_parsed = refl

-- a subscriber that counts the events it refuses
abbrev refusing : List HealthEvent → HealthEvent → List HealthEvent × Result (Unit {0})
refusing s e = (e ∷ s, raise generic)

abbrev node_filter : Message → Result Bool
node_filter = cluster_resource_filter plain_attrs ("node" ∷ [])

abbrev cluster_parser : Message → Result HealthEvent
cluster_parser = parse_cluster_resource plain_attrs site

only_filter : OnlyRaises filter_error node_filter
unfolding cluster_resource_filter
only_filter = reraise-OnlyRaises filter_error _

only_parser : OnlyRaises parser_error cluster_parser
unfolding parse_cluster_resource
only_parser = reraise-OnlyRaises parser_error _

process_message-Outcome_example :
    Outcome node_filter cluster_parser refusing [] node_message (node_failed ∷ []) failed
unfolding process_message analyze cluster_resource_filter get_of is_in contains
    parse_cluster_resource subscript node_info is_text truthy lookup_by Dict.get dict_to_object
    cluster_dict
process_message-Outcome_example =
    process_message-Outcome node_filter cluster_parser refusing only_filter only_parser []
      node_message
