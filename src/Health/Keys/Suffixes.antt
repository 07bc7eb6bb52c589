-- ===== src/Health/Keys/Suffixes.antt =====
-- The hierarchies.
use cortx_ha.Prelude.{
  String, ◌≡◌, refl, ◌∙◌, subst, eq_iff, arith, true, List, [], ◌∷◌, contains, head?, get_last?,
  All, ◌⊎◌, inl, inr, Bool-cases, some,
}
use cortx_ha.Prelude.{ok}
use cortx_ha.Health.Keys.{from_component, hierarchy_in, hierarchies, get_hierarchy}

head-from_component :
    (l : List String) (c : String) → contains l c ≡ true → head? (from_component l c) ≡ some c
unfolding contains from_component
head-from_component [] c h = cc
head-from_component (x ∷ l) c h = ground (arith, eq_iff x c, head-from_component l c)

head-hierarchy_in :
    (ls : List (List String)) (c : String) (l : List String)
    → hierarchy_in ls c ≡ ok l
    → head? l ≡ some c
unfolding hierarchy_in
head-hierarchy_in [] c l h = cc
head-hierarchy_in (x ∷ ls) c l h = ground (arith, head-hierarchy_in ls c l, head-from_component x c)

last-from_component :
    (l : List String) (c : String)
    → contains l c ≡ true
    → get_last? (from_component l c) ≡ get_last? l
unfolding contains from_component
last-from_component [] c h = cc
last-from_component (x ∷ []) c h = ground arith
last-from_component (x ∷ y ∷ l) c h = ground (arith, last-from_component (y ∷ l) c)

-- The list ends with the cluster, or is that of a component of its own.
abbrev pub Ends : List String → Type 0
Ends l = (get_last? l ≡ some "cluster") ⊎ ((l ≡ "cvg" ∷ []) ⊎ (l ≡ "disk" ∷ []))

from_component-single :
    (l : List String) (x c : String)
    → l ≡ x ∷ []
    → contains l c ≡ true
    → from_component l c ≡ x ∷ []
unfolding contains from_component
from_component-single [] x c e h = cc
from_component-single (y ∷ []) x c e h = ground arith
from_component-single (y ∷ z ∷ l) x c e h = cc

Ends-from_component :
    (l : List String) (c : String) → contains l c ≡ true → Ends l → Ends (from_component l c)
Ends-from_component l c h (inl last) = inl (last-from_component l c h ∙ last)
Ends-from_component l c h (inr (inl e)) = inr (inl (from_component-single l "cvg" c e h))
Ends-from_component l c h (inr (inr e)) = inr (inr (from_component-single l "disk" c e h))

Ends-hierarchy_in :
    (ls : List (List String)) (c : String) (l : List String)
    → All Ends ls
    → hierarchy_in ls c ≡ ok l
    → Ends l
unfolding hierarchy_in
Ends-hierarchy_in [] c l a h = cc
Ends-hierarchy_in (x ∷ ls) c l a h = elim (Bool-cases (contains x c)) [
  | inl here ↦ subst Ends (ground arith) (Ends-from_component x c here a.0)
  | inr there ↦ Ends-hierarchy_in ls c l a.1 (rw there at h)
]

-- The update hierarchy of a component begins with it; that of a component other than "cvg" and "disk"
-- ends with the cluster, and the other two are alone in theirs.
get_hierarchy-Ends :
    (c : String) (l : List String) → get_hierarchy c ≡ ok l → (head? l ≡ some c) × Ends l
get_hierarchy-Ends c l h = (
  head-hierarchy_in hierarchies c l h,
  Ends-hierarchy_in hierarchies c l
      (inl refl, (inl refl, (inl refl, (inr (inl refl), (inr (inr refl), tt))))) h,
)
