-- ===== src/Tests/SubscriptionRuns.antt =====
-- Runs of the subscriptions of the event manager.
use cortx_ha.Prelude.{contains, Distinct}
use cortx_ha.Prelude.{◌≡◌, refl, [], ◌∷◌, remove}
use cortx_ha.Store.Key.{prepare_key, event_key, state_name}
use cortx_ha.Store.Services.{names, under}
use cortx_ha.Prelude.{none, raise, invalid_component}
use cortx_ha.Store.Key.{subscription_key, message_type_key}
use cortx_ha.Store.KvStore.Contract.{Writes, Holds}
use cortx_ha.Manager.Subscriptions.{delete_component_key}
use cortx_ha.Manager.Subscriptions.Emptied.{IsRegistry, Apart, delete_component_key-emptied}
use cortx_ha.Actions.Rules.Evaluation.{rule}
use cortx_ha.Manager.Lists.{state_names}
use cortx_ha.Manager.Subscriptions.{store_component_key, delete_event_state}
use cortx_ha.Manager.Subscriptions.EventKeys.{delete_event_state-Writes}
use cortx_ha.Manager.Subscriptions.StateKeys.{WritesUnion, store_component_key-WritesUnion}
use cortx_ha.Tests.ListConsul.{Cluster, list_consul, list_laws, list_bus, prefix}

abbrev subscribed : Cluster
subscribed = (
  ("cortx>ha>v1>events>node>failed", names ("hare" ∷ []))
      ∷ ("cortx>ha>v1>events>subscribe>hare", names ("node>failed" ∷ []))
      ∷ [],
  [],
)

components_there :
    under (prepare_key prefix (event_key "node" "failed")) (subscribed.0)
    ≡ (prepare_key prefix (event_key "node" "failed"), names ("hare" ∷ [])) ∷ []
unfolding under prepare_key event_key
components_there = refl

states_there :
    under (prepare_key prefix "events>subscribe>hare") (subscribed.0)
    ≡ (prepare_key prefix "events>subscribe>hare", names ("node>failed" ∷ [])) ∷ []
unfolding under prepare_key
states_there = refl

states-Distinct : Distinct (state_names "node" ("failed" ∷ "online" ∷ []))
unfolding state_names state_name contains
states-Distinct = (refl, (refl, tt))

store_component_key-WritesUnion_example :
    WritesUnion list_consul list_bus prefix list_laws subscribed "events>subscribe>hare" "node"
      ("node>failed" ∷ [])
      ("failed" ∷ "online" ∷ [])
      (store_component_key list_consul list_bus prefix "events>subscribe>hare" "node"
        ("failed" ∷ "online" ∷ []))
store_component_key-WritesUnion_example =
    store_component_key-WritesUnion list_consul list_bus prefix list_laws subscribed
      "events>subscribe>hare" "node" ("node>failed" ∷ []) ("failed" ∷ "online" ∷ []) refl
      states-Distinct states_there

delete_event_state-Writes_example :
    Writes list_consul prefix list_laws subscribed
      (event_key "node" "failed")
      (rule (remove ("hare" ∷ []) "hare"))
      (delete_event_state list_consul list_bus prefix "hare" "node" "failed")
      _
delete_event_state-Writes_example =
    delete_event_state-Writes list_consul list_bus prefix list_laws subscribed "hare" "node"
      "failed" ("hare" ∷ []) components_there

registry : IsRegistry list_consul list_bus prefix list_laws
registry = record { deregister_law = λ message_type s. (s, refl, refl) }

hare-Apart :
    Apart list_consul list_bus prefix list_laws (subscription_key "hare") (message_type_key "hare")
unfolding prepare_key subscription_key message_type_key
hare-Apart = record { first = refl; second = refl }

hare_subscribed :
    under (prepare_key prefix (subscription_key "hare")) (subscribed.0)
    ≡ (prepare_key prefix (subscription_key "hare"), names (state_name "node" "failed" ∷ [])) ∷ []
unfolding under prepare_key subscription_key state_name
hare_subscribed = refl

no_type : under (prepare_key prefix (message_type_key "hare")) (subscribed.0) ≡ []
unfolding under prepare_key message_type_key
no_type = refl

delete_component_key-emptied_example :
    (s' : Cluster) × (delete_component_key list_consul list_bus prefix "hare" "node"
        ("failed" ∷ "online" ∷ [])
        subscribed
      ≡ (s', raise invalid_component))
    × Holds list_consul prefix list_laws s' (subscription_key "hare") none
delete_component_key-emptied_example =
    delete_component_key-emptied list_consul list_bus prefix list_laws subscribed "hare" "node"
      "failed" "online" [] none registry hare-Apart hare_subscribed no_type
