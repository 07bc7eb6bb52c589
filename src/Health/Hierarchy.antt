-- ===== src/Health/Hierarchy.antt =====
-- ha/core/system_health/system_health_hierarchy.py: the levels of the cluster's components. The
-- schema file's list "components", from the top down, is the argument `components`.
pub mod Levels
use cortx_ha.Prelude.{ℕ, suc, ◌+◌, String, List, [], ◌∷◌, ◌==◌, eqb, length, if◌then◌else◌}
use cortx_ha.Prelude.{Result, ok, raise, generic}

-- the `for count, value in enumerate(components)` loop: the last match stays
unfoldable pub level_from : ℕ → ℕ → List String → String → ℕ
level_from count component_level [] component = component_level
level_from count component_level (value ∷ components) component =
    level_from (count + 1) (if value == component then count + 1 else component_level) components
      component

unfoldable pub get_component_level : List String → String → Result ℕ
unfolding level_from
get_component_level components component =
    let component_level = level_from 0 0 components component in
    if eqb component_level 0 then raise generic else ok component_level

unfoldable pub get_total_depth : List String → Result ℕ
get_total_depth components =
    let total_depth = length components in
    if eqb total_depth 0 then raise generic else ok total_depth

-- Each occurrence that is not the last element gives the element after it.
unfoldable pub get_next_components : List String → String → List String
get_next_components [] component = []
get_next_components (value ∷ []) component = []
get_next_components (value ∷ next ∷ components) component =
    let rest = get_next_components (next ∷ components) component in
    if value == component then next ∷ rest else rest
