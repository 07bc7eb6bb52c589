-- ===== src/Health/Evaluators/Statuses.antt =====
-- The evaluated status of a rack, from the stored health of its nodes.
use cortx_ha.Prelude.{
  String, ◌≡◌, ◌≢◌, refl, ap, Option, append, occurs_in, false, List, [], ◌∷◌, some,
}
use cortx_ha.Prelude.{ok}
use cortx_ha.Prelude.Dict
use cortx_ha.Prelude.Dict.{Dict}
use cortx_ha.Json.{Json, null, str, get_of, first, field?}
use cortx_ha.Store.Key.{prepare_key as store_key}
use cortx_ha.Store.Services.{Stored, document, Consul, IsConsul, under}
use cortx_ha.Store.KvStore.{get}
use cortx_ha.Store.KvStore.Contract.{Holds, get-Holds}
use cortx_ha.Health.Event.{HealthEvent}
use cortx_ha.Health.EntityHealth.{EntityHealth, EntityEvent, write, event_items, event_dict}
use cortx_ha.Health.Hierarchy.{get_next_components}
use cortx_ha.Health.Keys.{prepare_key as component_key}
use cortx_ha.Health.Rules.{StatusMap, rack_rules, check_rack_rules}
use cortx_ha.Health.Rules.Quorum.{Majority, rack_rules-Majority}
use cortx_ha.Health.Evaluators.{
  status_of, get_status_raw, statuses, get_status_map, get_children, without_first, without_health,
  get_new_event, evaluate_rack,
}
use cortx_ha.Health.Evaluators.Below.{Named, firsts, without_health-suffix, ids_in-firsts}

abbrev pub ids_of : StatusMap → List String
ids_of [] = []
ids_of ((id, status) ∷ m) = id ∷ ids_of m

module _ {S : Type 0} (consul : Consul S) (prefix : String) (components : List String)
    (laws : IsConsul consul) where
  -- The child has a health value, alone under its key, whose latest event has the status.
  pub record HasStatus (s : S) (child : String) (kwargs : Dict Json) (id : String) (status : Json)
      : Type 0 where
    pub key : String
    pub health : EntityHealth
    pub last_event : EntityEvent
    pub older : List EntityEvent
    pub keyed :
        component_key child (("comp_id", str id) ∷ ("comp_type", str child) ∷ kwargs) ≡ ok key
    pub stored : Holds consul prefix laws s key (some (document (write health)))
    pub history : health.events ≡ last_event ∷ older
    pub latest : last_event.status ≡ status

  latest_status :
      {s : S} {child id : String} {kwargs : Dict Json} {status : Json}
      (h : HasStatus s child kwargs id status)
      → status_of (document (write h.health)) ≡ ok status
  unfolding status_of write event_items event_dict get_of first field?
  latest_status h = rw (h.history) (ap ok h.latest)

  abbrev pub HaveStatuses : S → String → Dict Json → StatusMap → Type 0
  HaveStatuses s child kwargs [] = Unit
  HaveStatuses s child kwargs ((id, status) ∷ m) =
      HasStatus s child kwargs id status × HaveStatuses s child kwargs m

  raw_status :
      (s : S) (child : String) (kwargs : Dict Json) (id : String) (status : Json)
      (h : HasStatus s child kwargs id status)
      → get_status_raw consul prefix components child (str id) (("comp_type", str child) ∷ kwargs) s
        ≡ (s, ok (some (document (write h.health))))
  unfolding get_status_raw
  raw_status s child kwargs id status h =
      rw (h.keyed, get-Holds consul prefix laws s h.key (some (document (write h.health))) h.stored)

  statuses-HaveStatuses :
      (s : S) (child : String) (kwargs : Dict Json) (m : StatusMap)
      → HaveStatuses s child kwargs m
      → statuses consul prefix components child kwargs (ids_of m) s ≡ (s, ok m)
  unfolding statuses
  statuses-HaveStatuses s child kwargs [] h = refl
  statuses-HaveStatuses s child kwargs ((id, status) ∷ m) h =
      let one = h.0 in
      rw (
        raw_status s child kwargs id status one,
        latest_status one,
        statuses-HaveStatuses s child kwargs m h.1,
      )

  -- Where the keys below a rack name the nodes of `m`, one at least, in the order of their first
  -- occurrence, each of which has a health value alone under its key with the status in `m` as its
  -- latest, the rack's event is that of the node with the type, the resource and the id of the rack,
  -- without a specific info, and its type is the verdict of the majorities of `m`; the store is left as
  -- it is. The directory of the rack does not have the suffix of a health key itself.
  pub evaluate_rack-HaveStatuses :
      (s : S) (e : HealthEvent) (dir : String) (entry : String × Stored) (kv : Dict Stored)
      (named : List (Option String)) (m : StatusMap)
      → get_next_components components "rack" ≡ "node" ∷ []
      → component_key "rack" (
          ("comp_id", e.rack_id)
          ∷ ("cluster_id", e.cluster_id)
          ∷ ("site_id", e.site_id)
          ∷ ("comp_type", str "rack")
          ∷ [])
        ≡ ok (append ">" (append dir ">health"))
      → occurs_in ">health" (append ">" dir) ≡ false
      → under (store_key prefix dir) (laws.entries s) ≡ entry ∷ kv
      → Named "node" (entry ∷ kv) named
      → firsts [] named ≡ ids_of m
      → m ≢ []
      → HaveStatuses s "node"
          (("rack_id", e.rack_id) ∷ ("cluster_id", e.cluster_id) ∷ ("site_id", e.site_id) ∷ [])
          m
      → (verdict : String) × Majority verdict m
        × (evaluate_rack consul prefix components e s ≡ (
          s,
          ok (record e {
            event_type = str verdict;
            resource_type = str "rack";
            resource_id = e.rack_id;
            specific_info = null;
          }),
        ))
  unfolding evaluate_rack get_children get_status_map get check_rack_rules Dict.get get_new_event
  evaluate_rack-HaveStatuses s e dir entry kv named m below keyed no_suffix entries names ids
        some_node h =
      let at_dir : without_first (without_health 0 (append ">" (append dir ">health"))) ≡ dir =
        ap without_first (without_health-suffix (append ">" dir) no_suffix) in
      (
        rack_rules m,
        rack_rules-Majority m some_node,
        rw
            (
              below,
              keyed,
              at_dir,
              laws.get_law (store_key prefix dir) s,
              entries,
              ids_in-firsts "node" [] (entry ∷ kv) named names,
              ids,
              statuses-HaveStatuses s "node"
                  (("rack_id", e.rack_id)
                    ∷ ("cluster_id", e.cluster_id)
                    ∷ ("site_id", e.site_id)
                    ∷ [])
                  m h,
            )
            refl,
      )
