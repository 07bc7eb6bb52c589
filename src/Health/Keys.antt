-- ===== src/Health/Keys.antt =====
-- ha/core/system_health/system_health_metadata.py, and `prepare_key` of
-- ha/core/system_health/health_evaluators/element_health_evaluator.py: the components that the health
-- is kept for, their keys and their hierarchies. No value that is put into a key contains `$` or a
-- backslash.
pub mod Suffixes
use Prim.Native.Nat.{suc}
use Prim.Native.String.{◌++◌, slice, len}
use text.Mathlib.Text.{starts_with, find?}
use cortx_ha.Prelude.{
  String, ◌==◌, Bool, true, false, List, [], ◌∷◌, map, contains, Option, none, some, is_some,
  if◌then◌else◌,
}
use cortx_ha.Prelude.{
  Exn, Result, ok, raise, reraise, type_error, ha_components, ha_hierarchy, ◌>>=◌,
}
use cortx_ha.Prelude.Dict
use cortx_ha.Prelude.Dict.{Dict}
use cortx_ha.Store.Key.{split}
use cortx_ha.Json.{Json, str}

-- RESOURCE_LIST and KEY of a component
pub record Component : Type 0 where
  pub name : String
  pub resource_list : List String
  pub key : String

abbrev rack_part : String
rack_part = ">cortx>ha>system>cluster>$cluster_id>site>$site_id>rack>$rack_id"

abbrev node_part : String
node_part = ">cortx>ha>system>cluster>$cluster_id>site>$site_id>rack>$rack_id>node>$node_id"

-- `SystemHealthComponents._components`, in its order
unfoldable pub components : List Component
components =
    record {
      name = "server_hardware";
      resource_list = "node:fru" ∷ "node:sensor" ∷ "node:os" ∷ "node:interface" ∷ [];
      key = node_part ++ ">server>$server_id>hw>$comp_type>$comp_id>health";
    }
    ∷ record {
      name = "server_service";
      resource_list = "node:sw" ∷ [];
      key = node_part ++ ">server>$server_id>service>$comp_type>$comp_id>health";
    }
    ∷ record {
      name = "server";
      resource_list = "server" ∷ [];
      key = node_part ++ ">server>$server_id>health";
    }
    ∷ record {
      name = "storageset";
      resource_list = "storageset" ∷ [];
      key = ">cortx>ha>system>cluster>$cluster_id>storageset>$storageset_id>health";
    }
    ∷ record {
      name = "storage_component";
      resource_list = "enclosure" ∷ [];
      key = node_part ++ ">storage>$storage_id>hw>$comp_type>$comp_id>health";
    }
    ∷ record {
      name = "storage";
      resource_list = "storage" ∷ [];
      key = node_part ++ ">storage>$storage_id>health";
    }
    ∷ record { name = "node"; resource_list = "node" ∷ []; key = node_part ++ ">health" }
    ∷ record { name = "rack"; resource_list = "rack" ∷ []; key = rack_part ++ ">health" }
    ∷ record {
      name = "site";
      resource_list = "site" ∷ [];
      key = ">cortx>ha>system>cluster>$cluster_id>site>$site_id>health";
    }
    ∷ record {
      name = "cluster";
      resource_list = "cluster" ∷ [];
      key = ">cortx>ha>system>cluster>$cluster_id>health";
    }
    ∷ record {
      name = "agg_service";
      resource_list = [];
      key = ">cortx>ha>system>cluster>$cluster_id>service>$comp_type>$comp_id>aggregate";
    }
    ∷ record {
      name = "node_map";
      resource_list = [];
      key = ">cortx>ha>system>cluster>node_map>$node_id";
    }
    ∷ record { name = "cvg"; resource_list = "cvg" ∷ []; key = node_part ++ ">cvg>$cvg_id>health" }
    ∷ record {
      name = "disk";
      resource_list = "disk" ∷ [];
      key = node_part ++ ">cvg>$cvg_id>disk>$disk_id>health";
    }
    ∷ []

-- `item in resource_type`, for some item of the list
unfoldable pub any_in : List String → String → Bool
any_in [] resource_type = false
any_in (item ∷ l) resource_type =
    if is_some (find? resource_type item) then true else any_in l resource_type

unfoldable pub component_of : List Component → String → Result String
component_of [] resource_type = raise ha_components
component_of (c ∷ cs) resource_type =
    if any_in c.resource_list resource_type then ok c.name else component_of cs resource_type

-- `SystemHealthComponents.get_component`; what is no text has no parts
unfoldable pub get_component : Json → Result String
get_component (str resource_type) = component_of components resource_type
get_component _ = raise ha_components

unfoldable pub key_of : List Component → String → Result String
key_of [] component = raise ha_components
key_of (c ∷ cs) component = if c.name == component then ok c.key else key_of cs component

-- `SystemHealthComponents.get_key`
abbrev pub get_key : String → Result String
get_key component = key_of components component

-- `_server_hw`, `_server_service`, `_storage`, `_cvg` and `_disk`
abbrev pub hierarchies : List (List String)
hierarchies =
    ("server_hardware" ∷ "server" ∷ "node" ∷ "rack" ∷ "site" ∷ "cluster" ∷ [])
    ∷ ("server_service" ∷ "agg_service" ∷ "server" ∷ "node" ∷ "rack" ∷ "site" ∷ "cluster" ∷ [])
    ∷ ("storage_component" ∷ "storage" ∷ "node" ∷ "rack" ∷ "site" ∷ "cluster" ∷ [])
    ∷ ("cvg" ∷ [])
    ∷ ("disk" ∷ [])
    ∷ []

-- `l[l.index(component):]`
unfoldable pub from_component : List String → String → List String
from_component [] component = []
from_component (c ∷ cs) component = if c == component then c ∷ cs else from_component cs component

unfoldable pub hierarchy_in : List (List String) → String → Result (List String)
hierarchy_in [] component = raise ha_hierarchy
hierarchy_in (l ∷ ls) component =
    if contains l component then ok (from_component l component) else hierarchy_in ls component

-- `SystemHealthHierarchy.get_hierarchy`
abbrev pub get_hierarchy : String → Result (List String)
get_hierarchy component = hierarchy_in hierarchies component

-- a replacement in a text
abbrev pub text_value : Json → Result String
text_value (str s) = ok s
text_value _ = raise type_error

abbrev replaced : String → String → String → String
replaced name value segment = if segment == name then value else segment

-- `if "comp_id" in kwargs: key.replace(...)`, on the parts of the key
unfoldable pub put_comp_id : String → Option Json → List String → Result (List String)
put_comp_id component none segments = ok segments
put_comp_id component (some comp_id) segments = do
  value ← text_value comp_id
  ok (map (replaced (("$" ++ component) ++ "_id") value) segments)

-- the separator before what follows
abbrev before_rest : List String → String
before_rest [] = ""
before_rest (s ∷ l) = ">"

abbrev filled : String → List String → Result String → Result String
filled value rest more = do tail ← more; ok ((value ++ before_rest rest) ++ tail)

-- The substitutions, from left to right; a missing argument cuts the key off before it.
unfoldable pub fill : Dict Json → List String → Result String
fill kwargs [] = ok ""
fill kwargs (segment ∷ rest) =
    let more = fill kwargs rest in
    if starts_with segment "$"
    then elim (Dict.get kwargs (slice segment 1 (len segment))) [
      | none ↦ ok ""
      | some v ↦ text_value v >>= λ value. filled value rest more
    ]
    else filled segment rest more

-- `ElementHealthEvaluator.prepare_key`
unfoldable pub prepare_key : String → Dict Json → Result String
prepare_key component kwargs = do
  key ← get_key component
  segments ← put_comp_id component (Dict.get kwargs "comp_id") (split key)
  fill kwargs segments
