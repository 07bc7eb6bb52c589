-- ===== src/Validator.antt =====
-- The checks of nodes and resources by the cluster validator
-- (ha/setup/cluster_validator/cluster_test.py). The lists that `ClusterStatusPcs` reads from the XML
-- of pcs are arguments. A Python set is a list that is only asked for its members.
use cortx_ha.Prelude.{
  ℕ, String, Bool, true, false, not, ◌&&◌, Option, none, some, List, [], ◌∷◌, ◌++◌, contains,
  if◌then◌else◌,
}
pub mod Members

pub record ClusterNode : Type 0 where
  pub name : String
  pub online : Bool
  pub standby : Bool
  pub maintenance : Bool
  pub unclean : Bool
  pub resources_running : ℕ

-- `set(map(lambda a: a.name, filter(test, l)))`
unfoldable pub names_where {ℓ} : {A : Type ℓ} → (A → String) → (A → Bool) → List A → List String
names_where name test [] = []
names_where name test (x ∷ l) =
    let rest = names_where name test l in if test x then name x ∷ rest else rest

unfoldable pub difference : List String → List String → List String
difference [] ys = []
difference (x ∷ xs) ys = let rest = difference xs ys in if contains ys x then rest else x ∷ rest

unfoldable pub symmetric_difference : List String → List String → List String
symmetric_difference xs ys = difference xs ys ++ difference ys xs

abbrev pub is_empty {ℓ} : {A : Type ℓ} → List A → Bool
is_empty [] = true
is_empty (x ∷ l) = false

unfoldable pub is_subset : List String → List String → Bool
is_subset [] ys = true
is_subset (x ∷ xs) ys = contains ys x && is_subset xs ys

-- `==` of sets
unfoldable pub same_set : List String → List String → Bool
same_set xs ys = is_subset xs ys && is_subset ys xs

unfoldable pub check_nodes_online : List ClusterNode → List String → Bool
check_nodes_online nodes nodelist =
    same_set (names_where (λ a. a.name) (λ a. a.online) nodes) nodelist

-- the checks for a state that nodes are in; the three of the source differ in `state` only
unfoldable pub check_nodes_in :
    (ClusterNode → Bool) → List ClusterNode → Option (List String) → Bool
check_nodes_in state nodes none = is_empty (names_where (λ a. a.name) state nodes)
check_nodes_in state nodes (some nodelist) =
    is_empty (symmetric_difference (names_where (λ a. a.name) state nodes) nodelist)

unfoldable pub check_nodes_standby : List ClusterNode → Option (List String) → Bool
check_nodes_standby = check_nodes_in (λ a. a.standby)

unfoldable pub check_nodes_maintenance : List ClusterNode → Option (List String) → Bool
check_nodes_maintenance = check_nodes_in (λ a. a.maintenance)

unfoldable pub check_nodes_unclean : List ClusterNode → Option (List String) → Bool
check_nodes_unclean = check_nodes_in (λ a. a.unclean)

-- `set() if l is None else set(l)`
abbrev pub members : Option (List String) → List String
members none = []
members (some l) = l

-- `__compare_by_attribute`, on resources with names, of which `as_expected` have the attribute's value
unfoldable pub compare_by_attribute {ℓ} :
    {A : Type ℓ} → (A → String) → (A → Bool) → List A → Option (List String) → Bool
compare_by_attribute name as_expected resources exceptions = is_empty (
    symmetric_difference (members exceptions) (
      difference (names_where name (λ a. true) resources) (names_where name as_expected resources)))
