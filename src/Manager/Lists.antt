-- ===== src/Manager/Lists.antt =====
-- The lists and texts that ha/core/event_manager/event_manager.py computes with.
pub mod Union
use Prim.Native.String.{len, slice}
use cortx_ha.Prelude.{
  ◌-◌, String, ◌==◌, Bool, ◌&&◌, List, [], ◌∷◌, ◌++◌, contains, leb, Option, none, some,
  if◌then◌else◌,
}
use cortx_ha.Prelude.{Result, raise, attribute_error}
use cortx_ha.Prelude.Dict.{Dict}
use cortx_ha.Store.Key.{state_name}
use cortx_ha.Store.Services.{Stored}
use cortx_ha.Actions.Rules.{get_k_v}

-- SUBSCRIPTION_LIST of ha/core/event_manager/resources.py
abbrev pub subscription_list : List String
subscription_list = "sspl" ∷ "csm" ∷ "s3" ∷ "motr" ∷ "hare" ∷ "ha" ∷ "test" ∷ []

-- `SubscribeEvent`
pub record SubscribeEvent : Type 0 where
  pub resource_type : String
  pub states : List String

-- `s.endswith(t)`
unfoldable pub ends_with : String → String → Bool
ends_with s t = leb (len t) (len s) && (slice s (len s - len t) (len s) == t)

-- the loop of `_store_component_key` over the states, from the stored list
unfoldable pub merge : String → List String → List String → List String
merge resource_type event_list [] = event_list
merge resource_type event_list (event ∷ val) =
    let new_val = state_name resource_type event in
    let next = if contains event_list new_val then event_list else event_list ++ new_val ∷ [] in
    merge resource_type next val

-- the list that `_store_component_key` starts a component with
unfoldable pub state_names : String → List String → List String
state_names resource_type [] = []
state_names resource_type (event ∷ val) =
    state_name resource_type event ∷ state_names resource_type val

-- the keys of a dictionary, in the order in which they first come; `seen` are those before
unfoldable pub first_of_each : List String → List String → List String
first_of_each seen [] = []
first_of_each seen (x ∷ xs) =
    if contains seen x then first_of_each seen xs else x ∷ first_of_each (seen ++ x ∷ []) xs

-- `list(OrderedDict.fromkeys(l))`
abbrev pub without_duplicates : List String → List String
without_duplicates l = first_of_each [] l

-- `_, v = kv.popitem()` and `json.loads(v)`
unfoldable pub stored_list : Option (Dict Stored) → Result (List String)
stored_list none = raise attribute_error
stored_list (some kv) = get_k_v kv

-- the value of the first key that ends with `key`
unfoldable pub first_ending : String → Dict Stored → Option Stored
first_ending key [] = none
first_ending key ((k, v) ∷ kv) = if ends_with k key then some v else first_ending key kv
