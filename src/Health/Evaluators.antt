-- ===== src/Health/Evaluators.antt =====
-- ha/core/system_health/health_evaluators: the status of a rack, a site or the cluster from the health
-- of its children in the store. `components` is the schema's list of the hierarchy.
pub mod Statuses
pub mod Below
use cortx_ha.Prelude.{
  ℕ, suc, zero, String, ◌==◌, Bool, true, false, List, [], ◌∷◌, ◌++◌, contains, is_start, Option,
  none, some, if◌then◌else◌,
}
use cortx_ha.Prelude.{
  Exn, Result, ok, raise, index_error, attribute_error, ha_system_health, health_not_found,
}
use cortx_ha.Prelude.Dict.{Dict}
use cortx_ha.Prelude.Acting.{◌>=>◌, Act, pure, fail, lift, attempt, ◌>>=◌, ◌>>◌}
use cortx_ha.Json.{Json, null, str, get_of, first}
use cortx_ha.Store.Key.{split}
use cortx_ha.Store.Services.{Stored, Consul}
use cortx_ha.Store.KvStore.{get}
use cortx_ha.Health.Event.{HealthEvent}
use cortx_ha.Health.Hierarchy.{get_next_components}
use cortx_ha.Health.Keys.{prepare_key}
use cortx_ha.Health.Rules.{
  StatusMap, Children, check_rack_rules, check_site_rules, check_cluster_rules,
}
use cortx_ha.Health.System.{popped, load_health}

-- `key.replace(">health", "")`; `skip` counts the characters of a match that are still to be left out
unfoldable pub without_health : ℕ → String → String
without_health skip String.[] = String.[]
without_health (suc skip) (String.◌∷◌ c s) = without_health skip s
without_health zero (String.◌∷◌ c s) =
    let kept = String.◌∷◌ c (without_health zero s) in
    let left_out = without_health 6 s in
    if is_start ">health" (String.◌∷◌ c s) then left_out else kept

-- `key.replace(">", "", 1)`, for a key that begins with `>`
abbrev without_first : String → String
without_first String.[] = String.[]
without_first (String.◌∷◌ c s) = s

-- The part behind the first one that is `child`; none where `child` is no part.
unfoldable pub id_behind : String → List String → Result (Option String)
id_behind child [] = ok none
id_behind child (x ∷ []) = if x == child then raise index_error else ok none
id_behind child (x ∷ y ∷ parts) =
    let rest = id_behind child (y ∷ parts) in if x == child then ok (some y) else rest

abbrev add_id : Option String → List String → List String
add_id none ids = ids
add_id (some id) ids = if contains ids id then ids else ids ++ id ∷ []

-- the loop over the keys of `get_children`
unfoldable pub ids_in : String → List String → Dict Stored → Result (List String)
ids_in child ids [] = ok ids
ids_in child ids ((key, v) ∷ kv) =
    id_behind child (split key) >=> λ found. ids_in child (add_id found ids) kv

abbrev keys_of : Option (Dict Stored) → Result (Dict Stored)
keys_of none = raise attribute_error
keys_of (some kv) = ok kv

-- `json.loads(v).get("events")[0].get("status")`
unfoldable pub status_of : Stored → Result Json
status_of v = load_health v >=> λ d.
    get_of d "events" >=> λ events. first events >=> λ event. get_of event "status"

-- a component type with its children, or `{}`
abbrev pub ChildIds : Type 0
ChildIds = Option (String × List String)

-- `_get_new_event`
unfoldable pub get_new_event : String → String → Json → HealthEvent → HealthEvent
get_new_event event_type resource_type resource_id subelement_event = record subelement_event {
  event_type = str event_type;
  resource_type = str resource_type;
  resource_id = resource_id;
  specific_info = null;
}

module _ {S : Type 0} (consul : Consul S) (prefix : String) (components : List String) where
  -- `get_status_raw`, for a component with an id
  unfoldable pub get_status_raw : String → Json → Dict Json → Act S (Option Stored)
  get_status_raw component component_id kwargs = attempt ha_system_health do
    key ← lift (prepare_key component (("comp_id", component_id) ∷ kwargs))
    key_val ← get consul prefix key
    lift (popped key_val)

  abbrev children_of : String → Json → Dict Json → List String → Act S ChildIds
  children_of element element_id kwargs [] = pure none
  children_of element element_id kwargs (child ∷ more) = do
    key ← lift (prepare_key element (("comp_id", element_id) ∷ kwargs))
    key_val ← get consul prefix (without_first (without_health 0 key))
    kv ← lift (keys_of key_val)
    ids ← lift (ids_in child [] kv)
    pure (some (child, ids))

  unfoldable pub get_children : String → Json → Dict Json → Act S ChildIds
  get_children element element_id kwargs =
      children_of element element_id kwargs (get_next_components components element)

  abbrev status_or_error : Option Stored → Result Json
  status_or_error none = raise health_not_found
  status_or_error (some v) = status_of v

  -- the loop over the ids of `get_status_map`; the ids are distinct
  unfoldable pub statuses : String → Dict Json → List String → Act S StatusMap
  statuses child kwargs [] = pure []
  statuses child kwargs (id ∷ ids) = do
    current_health ← get_status_raw child (str id) (("comp_type", str child) ∷ kwargs)
    status ← lift (status_or_error current_health)
    rest ← statuses child kwargs ids
    pure ((id, status) ∷ rest)

  unfoldable pub get_status_map : ChildIds → Dict Json → Act S Children
  get_status_map none kwargs = pure []
  get_status_map (some (child, ids)) kwargs = do
    m ← statuses child kwargs ids
    pure ((child, (child, m) ∷ []) ∷ [])

  -- `RackHealthEvaluator.evaluate_status` and `get_rack_status`
  unfoldable pub evaluate_rack : HealthEvent → Act S HealthEvent
  evaluate_rack e = do
    let place = ("cluster_id", e.cluster_id) ∷ ("site_id", e.site_id) ∷ []
    children ← get_children "rack" e.rack_id (place ++ ("comp_type", str "rack") ∷ [])
    status_map ← get_status_map children (("rack_id", e.rack_id) ∷ place)
    status ← lift (check_rack_rules status_map)
    pure (get_new_event status "rack" e.rack_id e)

  -- `SiteHealthEvaluator.evaluate_status` and `get_site_status`
  unfoldable pub evaluate_site : HealthEvent → Act S HealthEvent
  evaluate_site e = do
    let place = ("cluster_id", e.cluster_id) ∷ []
    children ← get_children "site" e.site_id (place ++ ("comp_type", str "site") ∷ [])
    status_map ← get_status_map children (("site_id", e.site_id) ∷ place)
    status ← lift (check_site_rules status_map)
    pure (get_new_event status "site" e.site_id e)

  -- `ClusterHealthEvaluator.evaluate_status` and `get_cluster_status`
  unfoldable pub evaluate_cluster : HealthEvent → Act S HealthEvent
  evaluate_cluster e = do
    children ← get_children "cluster" e.cluster_id (("comp_type", str "cluster") ∷ [])
    status_map ← get_status_map children (("cluster_id", e.cluster_id) ∷ [])
    status ← lift (check_cluster_rules status_map)
    pure (get_new_event status "cluster" e.cluster_id e)
