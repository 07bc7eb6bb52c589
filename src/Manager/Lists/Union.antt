-- ===== src/Manager/Lists/Union.antt =====
-- The stored states of a component are a union without repetitions.
use cortx_ha.Prelude.{
  String, ◌≡◌, refl, eq_iff, arith, not, ◌&&◌, ◌||◌, List, [], ◌∷◌, ◌++◌, contains, contains-append,
  contains_last, Distinct,
}
use cortx_ha.Store.Key.{state_name}
use cortx_ha.Manager.Lists.{merge, state_names, first_of_each, without_duplicates}

contains-first_of_each :
    (seen xs : List String) (x : String)
    → contains (first_of_each seen xs) x ≡ (contains xs x && not (contains seen x))
unfolding contains first_of_each
contains-first_of_each seen [] x = refl
contains-first_of_each seen (y ∷ ys) x = ground (
  arith,
  eq_iff y x,
  contains-first_of_each seen ys x,
  contains-first_of_each (seen ++ y ∷ []) ys x,
  contains-append seen (y ∷ []) x,
)

Distinct-first_of_each : (seen xs : List String) → Distinct (first_of_each seen xs)
unfolding first_of_each
Distinct-first_of_each seen [] = tt
Distinct-first_of_each seen (y ∷ ys) = ground (
  arith,
  Distinct-first_of_each seen ys,
  Distinct-first_of_each (seen ++ y ∷ []) ys,
  contains-first_of_each (seen ++ y ∷ []) ys y,
  contains_last seen y,
)

contains-merge :
    (resource : String) (l val : List String) (x : String)
    → contains (merge resource l val) x ≡ (contains l x || contains (state_names resource val) x)
unfolding contains merge state_names
contains-merge resource l [] x = ground arith
contains-merge resource l (v ∷ val) x =
    let new = state_name resource v in
    ground (
      arith,
      eq_iff new x,
      contains-merge resource l val x,
      contains-merge resource (l ++ new ∷ []) val x,
      contains-append l (new ∷ []) x,
    )

-- The list that is written back holds what was stored and the new states, each once.
pub without_duplicates-merge :
    (resource : String) (l val : List String)
    → let new = without_duplicates (merge resource l val) in
      ((x : String) → contains new x ≡ (contains l x || contains (state_names resource val) x))
      × Distinct new
unfolding contains
without_duplicates-merge resource l val =
    let new = merge resource l val in
    (
      λ x. ground (arith, contains-first_of_each [] new x, contains-merge resource l val x),
      Distinct-first_of_each [] new,
    )
