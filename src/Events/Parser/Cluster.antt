-- ===== src/Events/Parser/Cluster.antt =====
-- The events that come out of the parser of cluster resource alerts.
use cortx_ha.Prelude.{String, ◌≡◌, refl}
use cortx_ha.Prelude.{ok, Ensures, Ensures-bind, Ensures-reraise, Ensures-ok}
use cortx_ha.Json.{Json, str, lookup_by}
use cortx_ha.Health.Event.{HealthEvent, dict_to_object}
use cortx_ha.Health.StatusMapper.{event_to_severity_mapping}
use cortx_ha.Events.Attrs.{Attrs}
use cortx_ha.Events.Filter.{Message}
use cortx_ha.Events.Parser.{Site, cluster_dict, node_info, parse_cluster_resource}

-- What the parser makes of a payload.
pub record IsParsed (site : Site) (given_info : Json) (e : HealthEvent) : Type 0 where
  pub cluster :
      (e.cluster_id ≡ site.cluster_id) × (e.site_id ≡ site.site_id) × (e.rack_id ≡ site.rack_id)
  pub node : (e.storageset_id ≡ e.node_id) × (e.host_id ≡ e.node_id)
  pub severity :
      (s : String) × (lookup_by event_to_severity_mapping e.event_type ≡ ok s)
      × (e.severity ≡ str s)
  pub info : node_info e.resource_type given_info ≡ ok e.specific_info

cluster_dict-IsParsed :
    (site : Site) (source event_id timestamp event_type : Json) (severity : String)
    (node_id resource_type resource_id given_info specific_info : Json)
    → node_info resource_type given_info ≡ ok specific_info
    → lookup_by event_to_severity_mapping event_type ≡ ok severity
    → Ensures
        (λ e. (given_info : Json) × IsParsed site given_info e)
        (dict_to_object (
          cluster_dict site source event_id timestamp event_type severity node_id resource_type
            resource_id specific_info))
unfolding dict_to_object cluster_dict
cluster_dict-IsParsed site source event_id timestamp event_type severity node_id resource_type
      resource_id given_info specific_info found listed =
    Ensures-ok _ (
      given_info,
      record {
        cluster = (refl, refl, refl);
        node = (refl, refl);
        severity = (severity, listed, refl);
        info = found;
      },
    )

-- An event that the parser of cluster resource alerts returns has the cluster, site and rack of the
-- configuration, the payload's node as storage set and host, a severity that the table of severities
-- gives for its type, and the payload's specific info, which for a node with a generation id is cut
-- to that id with the restart mark 0.
parse_cluster_resource-IsParsed :
    (attrs : Attrs) (site : Site) (msg : Message) (e : HealthEvent)
    → parse_cluster_resource attrs site msg ≡ ok e
    → (given_info : Json) × IsParsed site given_info e
unfolding parse_cluster_resource
parse_cluster_resource-IsParsed attrs site msg e h =
    let kept : Ensures (λ e. (given_info : Json) × IsParsed site given_info e)
        (parse_cluster_resource attrs site msg) =
      search (Ensures-reraise, Ensures-bind, cluster_dict-IsParsed) depth 32 in
    kept.at e h
