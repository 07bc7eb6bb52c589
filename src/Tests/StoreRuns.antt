-- ===== src/Tests/StoreRuns.antt =====
-- Runs of the configuration store, the rules and the event manager.
use cortx_ha.Prelude.{String, ◌≡◌, refl, ◌==◌, [], ◌∷◌, contains, remove, if◌then◌else◌}
use cortx_ha.Json.{str}
use cortx_ha.Store.Key.{prepare_key, event_key, message_type_key, rule_key}
use cortx_ha.Store.Services.{names, plain, under}
use cortx_ha.Actions.Rules.{add_rule, remove_rule}
use cortx_ha.Actions.Rules.Evaluation.{Changes, with_action, add_rule-Changes, remove_rule-Changes}
use cortx_ha.Manager.Service.{publish}
use cortx_ha.Manager.Service.Delivery.{Sends, HasTypes, messages, event_of, publish-Sends}
use cortx_ha.Tests.ListConsul.{Cluster, list_consul, list_laws, list_bus, list_posts, prefix}

abbrev failed_rule : Cluster
failed_rule = (("cortx>ha>v1>action>node>failed", names ("publish" ∷ [])) ∷ [], [])

rule_stored :
    under (prepare_key prefix (rule_key "node" "failed")) (failed_rule.0)
    ≡ (prepare_key prefix (rule_key "node" "failed"), names ("publish" ∷ [])) ∷ []
unfolding under prepare_key rule_key
rule_stored = refl

add_rule-Changes_example :
    Changes list_consul prefix list_laws failed_rule "node" "failed"
      (with_action ("publish" ∷ []) "ha")
      (add_rule list_consul prefix "node" "failed" "ha")
unfolding contains
add_rule-Changes_example =
    add_rule-Changes list_consul prefix list_laws failed_rule "node" "failed" "ha" ("publish" ∷ [])
      rule_stored refl

remove_rule-Changes_example :
    Changes list_consul prefix list_laws failed_rule "node" "failed"
      (remove ("publish" ∷ []) "publish")
      (remove_rule list_consul prefix "node" "failed" "publish")
unfolding contains
remove_rule-Changes_example =
    remove_rule-Changes list_consul prefix list_laws failed_rule "node" "failed" "publish"
      ("publish" ∷ []) rule_stored refl

abbrev no_rule : Cluster
no_rule = ([], [])

nothing_stored : under (prepare_key prefix "action>node>failed") (no_rule.0) ≡ []
unfolding under
nothing_stored = refl

rule_at :
    under (prepare_key prefix "action>node>failed") (failed_rule.0)
    ≡ (prepare_key prefix "action>node>failed", names ("publish" ∷ [])) ∷ []
unfolding under prepare_key
rule_at = refl

-- "hare" and "motr" want to know of failed nodes
abbrev two_components : Cluster
two_components = (
  ("cortx>ha>v1>events>node>failed", names ("hare" ∷ "motr" ∷ []))
      ∷ ("cortx>ha>v1>message_type>hare", plain "ha_event_hare")
      ∷ ("cortx>ha>v1>message_type>motr", plain "ha_event_motr")
      ∷ [],
  [],
)

abbrev type_of : String → String
type_of c = if c == "hare" then "ha_event_hare" else "ha_event_motr"

components_stored :
    under (prepare_key prefix (event_key "node" "failed")) (two_components.0)
    ≡ (prepare_key prefix (event_key "node" "failed"), names ("hare" ∷ "motr" ∷ [])) ∷ []
unfolding under prepare_key event_key
components_stored = refl

types_stored :
    HasTypes list_consul list_bus prefix list_laws list_posts
      (two_components.0)
      type_of
      ("hare" ∷ "motr" ∷ [])
unfolding under prepare_key message_type_key
types_stored = (refl, (refl, tt))

publish-Sends_example :
    Sends list_consul list_bus prefix list_laws list_posts two_components
      (messages list_consul list_bus prefix list_laws list_posts
        (event_of list_consul list_bus prefix list_laws list_posts "node" "failed"
          (str "motr")
          "{}")
        type_of
        ("hare" ∷ "motr" ∷ []))
      (publish list_consul list_bus prefix (
        event_of list_consul list_bus prefix list_laws list_posts "node" "failed"
          (str "motr")
          "{}"))
publish-Sends_example =
    publish-Sends list_consul list_bus prefix list_laws list_posts two_components "node" "failed"
      (str "motr") "{}" ("hare" ∷ "motr" ∷ []) type_of components_stored types_stored

abbrev ha_and_hare : Cluster
ha_and_hare = (
  ("cortx>ha>v1>message_type>ha", plain "ha_event_ha")
      ∷ ("cortx>ha>v1>message_type>hare", plain "ha_event_hare")
      ∷ [],
  [],
)

both_stored :
    under (prepare_key prefix (message_type_key "ha")) (ha_and_hare.0)
    ≡ (prepare_key prefix (message_type_key "ha"), plain "ha_event_ha")
      ∷ ("cortx>ha>v1>message_type>hare", plain "ha_event_hare")
      ∷ []
unfolding under prepare_key message_type_key
both_stored = refl
