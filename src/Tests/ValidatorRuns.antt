-- ===== src/Tests/ValidatorRuns.antt =====
-- Runs of the validator's checks (ha/setup/cluster_validator/cluster_test.py).
use cortx_ha.Prelude.{
  String, ◌≡◌, refl, Bool, true, false, some, none, List, [], ◌∷◌, contains, ◌↔◌, ◌==◌,
}
use cortx_ha.Validator.{
  ClusterNode, names_where, difference, symmetric_difference, is_subset, same_set,
  check_nodes_online, check_nodes_in, check_nodes_standby, members, compare_by_attribute,
}
use cortx_ha.Validator.Members.{Has, compare_by_attribute_iff}

abbrev node_at : String → Bool → ClusterNode
node_at name standby = record {
  name = name;
  online = true;
  standby = standby;
  maintenance = false;
  unclean = false;
  resources_running = 4;
}

abbrev two_nodes : List ClusterNode
two_nodes = node_at "n1" false ∷ node_at "n2" true ∷ []

both_online : check_nodes_online two_nodes ("n2" ∷ "n1" ∷ "n2" ∷ []) ≡ true
unfolding check_nodes_online names_where same_set is_subset contains
both_online = refl

one_standby : check_nodes_standby two_nodes (some ("n2" ∷ [])) ≡ true
unfolding check_nodes_standby check_nodes_in names_where symmetric_difference difference contains
one_standby = refl

none_standby : check_nodes_standby two_nodes none ≡ false
unfolding check_nodes_standby check_nodes_in names_where
none_standby = refl

-- resources by name and role
abbrev resources : List (String × String)
resources = ("motr", "Started") ∷ ("hax", "Stopped") ∷ []

abbrev name_of : String × String → String
name_of (name, role) = name

abbrev is_started : String × String → Bool
is_started (name, role) = role == "Started"

compare_by_attribute_iff_example :
    (compare_by_attribute name_of is_started resources (some ("hax" ∷ [])) ≡ true) ↔ (
      (a : String)
      → (contains (members (some ("hax" ∷ []))) a ≡ true)
        ↔ (Has name_of (λ x. true) a resources × (Has name_of is_started a resources → ⊥)))
compare_by_attribute_iff_example =
    compare_by_attribute_iff name_of is_started resources (some ("hax" ∷ []))
