-- ===== src/Controllers/Cluster/Groups.antt =====
-- The groups of nodes by which the cluster is started and stopped.
use mathlib.Core.List.{◌++◌ as ◌+++◌}
use cortx_ha.Prelude.{
  ℕ, zero, suc, ◌+◌, ◌<◌, ◌≤◌, String, ◌≡◌, refl, ap, ◌∙◌, true, ◌||◌, List, [], ◌∷◌, All, length,
  take, drop, contains, contains-append, arith, inl, inr, Bool-cases,
}
use cortx_ha.Prelude.{ok}
use cortx_ha.Controllers.Cluster.{pcs_node_group_size, groups, flat, group_of, other_groups}

append-take-drop : (n : ℕ) (l : List String) → take n l +++ drop n l ≡ l
append-take-drop zero l = refl
append-take-drop (suc n) [] = refl
append-take-drop (suc n) (x ∷ l) = ap (λ k. x ∷ k) (append-take-drop n l)

length-drop_le : (n : ℕ) (l : List String) → length (drop n l) ≤ length l
length-drop_le zero l = omega arith
length-drop_le (suc n) [] = omega arith
length-drop_le (suc n) (x ∷ l) = omega (arith, length-drop_le n l)

length-take_le : (n : ℕ) (l : List String) → length (take n l) ≤ n
length-take_le zero l = omega arith
length-take_le (suc n) [] = omega arith
length-take_le (suc n) (x ∷ l) = omega (arith, length-take_le n l)

-- one to three nodes
abbrev pub IsGroup : List String → Type 0
IsGroup g = (0 < length g) × (length g ≤ pcs_node_group_size)

groups_lem :
    (n : ℕ) (l : List String) → length l ≤ n → (flat (groups n l) ≡ l) × All IsGroup (groups n l)
unfolding groups flat
groups_lem zero [] le = (refl, _)
groups_lem zero (x ∷ l) le = absurd (omega arith)
groups_lem (suc n) [] le = (refl, _)
groups_lem (suc n) (x ∷ l) le =
    let (all, sizes) = groups_lem n (drop 2 l) (omega (arith, length-drop_le 2 l)) in
    (
      ap (λ k. x ∷ (take 2 l +++ k)) all ∙ ap (λ k. x ∷ k) (append-take-drop 2 l),
      ((omega arith, omega (arith, length-take_le 2 l)), sizes),
    )

-- With a round for each node, the groups are the list of nodes in its order, cut into groups of one to
-- three nodes.
pub groups-Cover :
    (l : List String) → (flat (groups (length l) l) ≡ l) × All IsGroup (groups (length l) l)
groups-Cover l = groups_lem (length l) l (omega arith)

length-append : (xs ys : List String) → length (xs +++ ys) ≡ length xs + length ys
length-append [] ys = omega arith
length-append (x ∷ xs) ys = omega (arith, length-append xs ys)

ok-injective : {A : Type 0} {a b : A} → ok a ≡ ok b → a ≡ b
ok-injective e = cc

-- Where the first group with the node is found, it has the node, and it and the other groups together
-- are all groups: their nodes are as many, and a name is among the nodes of all groups exactly when it
-- is in it or among the nodes of the others.
pub other_groups-Rest :
    (node : String) (gs : List (List String)) {g : List String}
    → group_of node gs ≡ ok g
    → (contains g node ≡ true)
      × (length (flat gs) ≡ length g + length (flat (other_groups node gs)))
      × ((a : String)
          → contains (flat gs) a ≡ (contains g a || contains (flat (other_groups node gs)) a))
unfolding group_of other_groups flat
other_groups-Rest node [] same = cc
other_groups-Rest node (h ∷ gs) {g} same = elim (Bool-cases (contains h node)) [
  | inl e ↦
      let h_eq : h ≡ g = ok-injective (rw e at same) in
      rw (e, ← h_eq) (e, length-append h (flat gs), λ a. contains-append h (flat gs) a)
  | inr e ↦
      let (has, sizes, members) = other_groups-Rest node gs (rw e at same) in
      rw e (
        has,
        omega (
          arith,
          sizes,
          length-append h (flat gs),
          length-append h (flat (other_groups node gs)),
        ),
        λ a. ground (
          arith,
          members a,
          contains-append h (flat gs) a,
          contains-append h (flat (other_groups node gs)) a,
        ),
      )
]
