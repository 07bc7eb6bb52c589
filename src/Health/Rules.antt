-- ===== src/Health/Rules.antt =====
-- The rules of ha/core/system_health/health_evaluators: the status of a rack, a site or the cluster
-- from the statuses of its children.
pub mod Quorum
use cortx_ha.Prelude.{
  ℕ, suc, ◌+◌, ◌/◌, String, Bool, false, List, [], ◌∷◌, ◌==◌, eqb, leb, if◌then◌else◌, length,
}
use cortx_ha.Prelude.{Result, ok, ◌>>=◌}
use cortx_ha.Prelude.Dict
use cortx_ha.Prelude.Dict.{Dict}
use cortx_ha.Json.{Json, is_text}

-- Component id to the status in its latest event, which need not be a text.
abbrev pub StatusMap : Type 0
StatusMap = Dict Json

-- component to component type to status map
abbrev pub Children : Type 0
Children = Dict (Dict StatusMap)

abbrev pub is_status : Json → String → Bool
is_status = is_text

unfoldable pub count_status : StatusMap → String → ℕ
unfolding is_text
count_status [] status = 0
count_status ((k, v) ∷ m) status = (if is_status v status then 1 else 0) + count_status m status

abbrev pub quorum_size : StatusMap → ℕ
quorum_size m = length m / 2 + 1

unfoldable pub rack_rules : StatusMap → String
rack_rules node_ids =
    if eqb (count_status node_ids "online") (length node_ids)
    then "fault_resolved"
    else if leb (quorum_size node_ids) (count_status node_ids "online")
    then "threshold_breached:low"
    else if leb (quorum_size node_ids) (count_status node_ids "failed")
    then "failed"
    else "threshold_breached:low"

-- The site and the cluster have the same rules over their racks and sites.
unfoldable pub group_rules : StatusMap → String
group_rules ids =
    if eqb (count_status ids "online") (length ids)
    then "fault_resolved"
    else if leb (quorum_size ids) (count_status ids "online")
    then "threshold_breached:low"
    else if leb (quorum_size ids) (count_status ids "degraded")
    then "threshold_breached:low"
    else if leb (quorum_size ids) (count_status ids "failed")
    then "failed"
    else "threshold_breached:low"

-- `children[element][element]`
abbrev pub status_map_of : Children → String → Result StatusMap
status_map_of children element = do
  types ← Dict.subscript children element
  Dict.subscript types element

unfoldable pub check_rack_rules : Children → Result String
unfolding rack_rules
check_rack_rules children = do node_ids ← status_map_of children "node"; ok (rack_rules node_ids)

unfoldable pub check_site_rules : Children → Result String
unfolding group_rules
check_site_rules children = do rack_ids ← status_map_of children "rack"; ok (group_rules rack_ids)

unfoldable pub check_cluster_rules : Children → Result String
unfolding group_rules
check_cluster_rules children = do
  site_ids ← status_map_of children "site"
  ok (group_rules site_ids)
