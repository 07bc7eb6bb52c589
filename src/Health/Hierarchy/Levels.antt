-- ===== src/Health/Hierarchy/Levels.antt =====
-- The next component stands one level below, and a component has none exactly at the total depth.
use cortx_ha.Prelude.{
  ℕ, ◌+◌, String, ◌≡◌, refl, true, false, List, [], ◌∷◌, ◌==◌, eq_iff, arith, length, contains,
  Distinct, Bool-cases, inl, inr, ◌≤◌, if◌then◌else◌,
}
use cortx_ha.Prelude.{ok}
use cortx_ha.Health.Hierarchy.{
  level_from, get_component_level, get_total_depth, get_next_components,
}

level_from_absent :
    (count level : ℕ) (cs : List String) (c : String)
    → contains cs c ≡ false
    → level_from count level cs c ≡ level
unfolding level_from contains
level_from_absent count level [] c h = refl
level_from_absent count level (x ∷ cs) c h =
    ground (arith, level_from_absent (count + 1) level cs c)

next_absent :
    (cs : List String) (c : String) → contains cs c ≡ false → get_next_components cs c ≡ []
unfolding get_next_components contains
next_absent [] c h = refl
next_absent (x ∷ []) c h = refl
next_absent (x ∷ y ∷ cs) c h = ground (arith, next_absent (y ∷ cs) c)

next_contained :
    (cs : List String) (c d : String) → get_next_components cs c ≡ d ∷ [] → contains cs d ≡ true
unfolding get_next_components contains
next_contained [] c d h = cc
next_contained (x ∷ []) c d h = cc
next_contained (x ∷ y ∷ cs) c d h = ground (arith, eq_iff y d, next_contained (y ∷ cs) c d)

level_from-next :
    (count level : ℕ) (cs : List String) (c d : String)
    → Distinct cs
    → get_next_components cs c ≡ d ∷ []
    → level_from count level cs d ≡ level_from count level cs c + 1
unfolding get_next_components level_from contains
level_from-next count level [] c d u h = cc
level_from-next count level (x ∷ []) c d u h = cc
level_from-next count level (x ∷ y ∷ cs) c d u h = elim (Bool-cases (x == c)) [
  | inl e ↦ ground (
    arith,
    eq_iff x c,
    eq_iff y d,
    eq_iff y c,
    eq_iff x d,
    next_absent (y ∷ cs) c,
    level_from_absent (count + 1 + 1) (count + 1 + 1) cs y,
    level_from_absent (count + 1 + 1) (count + 1) cs c,
  )
  | inr e ↦ ground (
    arith,
    e,
    eq_iff x d,
    next_contained (y ∷ cs) c d,
    level_from-next (count + 1) level (y ∷ cs) c d u.1,
  )
]

-- In a schema without repetitions, the component that `get_next_components` gives stands one level
-- below the one asked for.
level-next :
    (cs : List String) (c d : String) (l : ℕ)
    → Distinct cs
    → get_next_components cs c ≡ d ∷ []
    → get_component_level cs c ≡ ok l
    → get_component_level cs d ≡ ok (l + 1)
unfolding get_component_level
level-next cs c d l u h e = ground (arith, level_from-next 0 0 cs c d u h)

level_from-next_nil :
    (count level : ℕ) (cs : List String) (c : String)
    → Distinct cs
    → contains cs c ≡ true
    → get_next_components cs c ≡ []
    → level_from count level cs c ≡ count + length cs
unfolding get_next_components level_from contains
level_from-next_nil count level [] c u m h = cc
level_from-next_nil count level (x ∷ []) c u m h = ground arith
level_from-next_nil count level (x ∷ y ∷ cs) c u m h =
    ground (arith, level_from-next_nil (count + 1) level (y ∷ cs) c u.1)

level_from-le :
    (count level : ℕ) (cs : List String) (c : String)
    → level ≤ count
    → level_from count level cs c ≤ count + length cs
unfolding level_from
level_from-le count level [] c h = omega arith
level_from-le count level (x ∷ cs) c h =
    ground (arith, level_from-le (count + 1) (if x == c then count + 1 else level) cs c)

-- A level lies between 1 and the total depth, and a component of a schema without repetitions that
-- has nothing below it stands at the total depth.
pub level_bounds :
    (cs : List String) (c : String) (l : ℕ)
    → get_component_level cs c ≡ ok l
    → (1 ≤ l)
      × (l ≤ length cs)
      × (Distinct cs
          → contains cs c ≡ true
          → get_next_components cs c ≡ []
          → get_total_depth cs ≡ ok l)
unfolding get_component_level get_total_depth
level_bounds cs c l h = (
  ground arith,
  ground (arith, level_from-le 0 0 cs c (omega arith)),
  λ u m n. ground (arith, level_from-next_nil 0 0 cs c u m n),
)
