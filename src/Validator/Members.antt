-- ===== src/Validator/Members.antt =====
-- What the checks of the validator say of each name.
use cortx_ha.Prelude.{
  String, ◌≡◌, refl, Bool, true, false, not, ◌&&◌, Option, none, some, List, [], ◌∷◌, contains,
  contains-append, arith, eq_iff, ◌↔◌, ◌∙◌, sym, ◌==◌, Bool-cases, inl, inr,
}
use cortx_ha.Validator.{
  ClusterNode, names_where, difference, symmetric_difference, is_empty, is_subset, same_set,
  check_nodes_online, check_nodes_in, members, compare_by_attribute,
}

-- A list has an element of the name that satisfies the test.
pub data Has {ℓ} {A : Type ℓ} (name : A → String) (test : A → Bool) (a : String)
    : List A → Type ℓ where
  here : {x : A} {l : List A} → name x ≡ a → test x ≡ true → Has name test a (x ∷ l)
  there : {x : A} {l : List A} → Has name test a l → Has name test a (x ∷ l)

module _ {ℓ} {A : Type ℓ} (name : A → String) (test : A → Bool) (a : String) where
  Has-names_where : (l : List A) → contains (names_where name test l) a ≡ true → Has name test a l
  unfolding contains names_where
  Has-names_where [] h = cc
  Has-names_where (x ∷ l) h = elim (Bool-cases (test x)) [
    | inl t ↦ elim (Bool-cases (name x == a)) [
      | inl e ↦ here ((eq_iff (name x) a).0 e) t
      | inr e ↦ there (Has-names_where l (ground arith))
    ]
    | inr t ↦ there (Has-names_where l (ground arith))
  ]

  names_where-Has : (l : List A) → Has name test a l → contains (names_where name test l) a ≡ true
  unfolding contains names_where
  names_where-Has [] h = elim h [ ]
  names_where-Has (x ∷ l) (here e t) = ground (arith, eq_iff (name x) a)
  names_where-Has (x ∷ l) (there h) = ground (arith, names_where-Has l h)

  contains-names_where :
      (l : List A) → (contains (names_where name test l) a ≡ true) ↔ Has name test a l
  contains-names_where l = (Has-names_where l, names_where-Has l)

iff-eq : {x y : Bool} → (x ≡ true → y ≡ true) → (y ≡ true → x ≡ true) → x ≡ y
iff-eq {x} {y} f g = elim (Bool-cases x) [
  | inl e ↦ e ∙ sym (f e)
  | inr e ↦ elim (Bool-cases y) [ inl k ↦ g k ∙ sym k | inr k ↦ e ∙ sym k ]
]

and_not : {x y : Bool} → x ≡ true → (y ≡ true → ⊥) → (x && not y) ≡ true
and_not {x} {y} e f = elim (Bool-cases y) [ inl k ↦ absurd (f k) | inr k ↦ ground arith ]

not_and : {x y : Bool} → (x && not y) ≡ true → (x ≡ true) × (y ≡ true → ⊥)
not_and e = (ground arith, λ k. ground arith)

contains-difference :
    (xs ys : List String) (a : String)
    → contains (difference xs ys) a ≡ (contains xs a && not (contains ys a))
unfolding contains difference
contains-difference [] ys a = refl
contains-difference (x ∷ xs) ys a = ground (arith, contains-difference xs ys a, eq_iff x a)

is_empty_iff : (l : List String) → (is_empty l ≡ true) ↔ ((a : String) → contains l a ≡ false)
unfolding contains
is_empty_iff [] = (λ h a. refl, λ h. refl)
is_empty_iff (x ∷ l) = (λ h. cc, λ h. ground (arith, h x, eq_iff x x))

symmetric_difference_iff :
    (xs ys : List String)
    → (is_empty (symmetric_difference xs ys) ≡ true)
      ↔ ((a : String) → contains xs a ≡ contains ys a)
unfolding symmetric_difference
symmetric_difference_iff xs ys =
    let (to, from) = is_empty_iff (symmetric_difference xs ys) in
    (
      λ h a. ground (
        arith,
        to h a,
        contains-append (difference xs ys) (difference ys xs) a,
        contains-difference xs ys a,
        contains-difference ys xs a,
      ),
      λ h. from (λ a. ground (
        arith,
        h a,
        contains-append (difference xs ys) (difference ys xs) a,
        contains-difference xs ys a,
        contains-difference ys xs a,
      )),
    )

is_subset_iff :
    (xs ys : List String)
    → (is_subset xs ys ≡ true) ↔ ((a : String) → contains xs a ≡ true → contains ys a ≡ true)
unfolding contains is_subset
is_subset_iff [] ys = (λ h a e. cc, λ h. refl)
is_subset_iff (x ∷ xs) ys =
    let (to, from) = is_subset_iff xs ys in
    (
      λ h a e. elim (Bool-cases (x == a)) [
        | inl same ↦ ground (arith, eq_iff x a)
        | inr other ↦ to (ground arith) a (ground arith)
      ],
      λ h. ground (arith, h x, eq_iff x x, from (λ a e. h a (ground arith))),
    )

same_set_iff :
    (xs ys : List String) → (same_set xs ys ≡ true) ↔ ((a : String) → contains xs a ≡ contains ys a)
unfolding same_set
same_set_iff xs ys =
    let (to, from) = is_subset_iff xs ys in
    let (to', from') = is_subset_iff ys xs in
    (
      λ h a. iff-eq (to (ground arith) a) (to' (ground arith) a),
      λ h. ground (arith, from (λ a e. sym (h a) ∙ e), from' (λ a e. h a ∙ e)),
    )

-- check_nodes_online answers True exactly when the names in the list are those of the nodes online.
check_nodes_online_iff :
    (nodes : List ClusterNode) (nodelist : List String)
    → (check_nodes_online nodes nodelist ≡ true)
      ↔ ((a : String) → (contains nodelist a ≡ true) ↔ Has (λ n. n.name) (λ n. n.online) a nodes)
unfolding check_nodes_online
check_nodes_online_iff nodes nodelist =
    let found =
      λ (a : String). contains-names_where (λ (n : ClusterNode). n.name) (λ n. n.online) a nodes in
    let (to, from) = same_set_iff (names_where (λ n. n.name) (λ n. n.online) nodes) nodelist in
    (
      λ h a. (λ e. (found a).0 (to h a ∙ e), λ e. sym (to h a) ∙ (found a).1 e),
      λ h. from (λ a. iff-eq (λ e. (h a).1 ((found a).0 e)) (λ e. (found a).1 ((h a).0 e))),
    )

empty_or_not :
    (state : ClusterNode → Bool) (nodes : List ClusterNode) (nodelist : Option (List String))
    → (check_nodes_in state nodes nodelist ≡ true) ↔ (
        (a : String)
        → contains (names_where (λ n. n.name) state nodes) a ≡ contains (members nodelist) a)
unfolding check_nodes_in contains
empty_or_not state nodes none = is_empty_iff (names_where (λ n. n.name) state nodes)
empty_or_not state nodes (some nodelist) =
    symmetric_difference_iff (names_where (λ n. n.name) state nodes) nodelist

-- The check of a state, standby, maintenance or unclean, answers True exactly when the names in the
-- list, or no name where there is no list, are those of the nodes in the state.
check_nodes_in_iff :
    (state : ClusterNode → Bool) (nodes : List ClusterNode) (nodelist : Option (List String))
    → (check_nodes_in state nodes nodelist ≡ true)
      ↔ ((a : String) → (contains (members nodelist) a ≡ true) ↔ Has (λ n. n.name) state a nodes)
check_nodes_in_iff state nodes nodelist =
    let found = λ (a : String). contains-names_where (λ (n : ClusterNode). n.name) state a nodes in
    let (to, from) = empty_or_not state nodes nodelist in
    (
      λ h a. (λ e. (found a).0 (to h a ∙ e), λ e. sym (to h a) ∙ (found a).1 e),
      λ h. from (λ a. iff-eq (λ e. (h a).1 ((found a).0 e)) (λ e. (found a).1 ((h a).0 e))),
    )

-- The comparison by an attribute answers True exactly when the exceptions are the names of resources
-- of which no resource of the same name has the expected value.
pub compare_by_attribute_iff {ℓ} :
    {A : Type ℓ} (name : A → String) (as_expected : A → Bool) (l : List A)
    (exceptions : Option (List String))
    → (compare_by_attribute name as_expected l exceptions ≡ true) ↔ (
        (a : String)
        → (contains (members exceptions) a ≡ true)
          ↔ (Has name (λ x. true) a l × (Has name as_expected a l → ⊥)))
unfolding compare_by_attribute
compare_by_attribute_iff name as_expected l exceptions =
    let all = names_where name (λ x. true) l in
    let good = names_where name as_expected l in
    let found = λ (a : String). contains-names_where name (λ x. true) a l in
    let fit = λ (a : String). contains-names_where name as_expected a l in
    let (to, from) = symmetric_difference_iff (members exceptions) (difference all good) in
    let rest = λ (a : String). contains-difference all good a in
    (
      λ h a. (
        λ e. (
          (found a).0 (not_and (sym (to h a ∙ rest a) ∙ e)).0,
          λ g. (not_and (sym (to h a ∙ rest a) ∙ e)).1 ((fit a).1 g),
        ),
        λ (f, g). to h a ∙ rest a ∙ and_not ((found a).1 f) (λ e. g ((fit a).0 e)),
      ),
      λ h. from (λ a.
          iff-eq
            (λ e. let (f, g) = (h a).0 e in rest a ∙ and_not ((found a).1 f) (λ k. g ((fit a).0 k)))
            (λ e.
              let (f, g) = not_and (sym (rest a) ∙ e) in
              (h a).1 ((found a).0 f, λ k. g ((fit a).1 k)))),
    )
