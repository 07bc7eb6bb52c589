-- ===== src/Store/Key.antt =====
-- The keys of the store: `HA_DELIM` of ha/const.py, `_prepare_key` of ha/util/consul_kv_store.py, the
-- keys of ha/core/event_manager/const.py and of `MonitorRulesManager._prepare_key`. The names that
-- replace `<component_id>`, `<resource>` and `<state>` contain none of these words.
use Prim.Native.Char.{Char, code}
use Prim.Native.String.{◌++◌}
use mathlib.Core.List.{◌++◌ as ◌+++◌}
use cortx_ha.Prelude.{ℕ, String, ◌==◌, List, [], ◌∷◌, eqb, if◌then◌else◌}

abbrev add_char : Char → List String → List String
add_char c [] = String.◌∷◌ c String.[] ∷ []
add_char c (part ∷ parts) = String.◌∷◌ c part ∷ parts

-- `s.split(sep)`, for a separator of one character
unfoldable pub split_on : ℕ → String → List String
split_on sep String.[] = "" ∷ []
split_on sep (String.◌∷◌ c s) =
    let parts = split_on sep s in if eqb (code c) sep then "" ∷ parts else add_char c parts

-- `s.split(HA_DELIM)`
abbrev pub split : String → List String
split s = split_on b'>' s

-- `[x for x in parts if x != ""]`
unfoldable pub non_empty : List String → List String
non_empty [] = []
non_empty (x ∷ xs) = if x == "" then non_empty xs else x ∷ non_empty xs

-- `HA_DELIM.join(parts)`
unfoldable pub join : List String → String
join [] = ""
join (x ∷ []) = x
join (x ∷ y ∷ ys) = (x ++ ">") ++ join (y ∷ ys)

-- `ConsulKvStore._prepare_key`
unfoldable pub prepare_key : String → String → String
unfolding split_on non_empty join
prepare_key prefix key = join (non_empty (split prefix +++ split key))

-- `MonitorRulesManager._prepare_key`
unfoldable pub rule_key : String → String → String
rule_key resource_type event_type = ("action>" ++ resource_type) ++ (">" ++ event_type)

-- `EVENT_MANAGER_KEYS.EVENT_KEY`
unfoldable pub event_key : String → String → String
event_key resource state = ("events>" ++ resource) ++ (">" ++ state)

-- `EVENT_MANAGER_KEYS.SUBSCRIPTION_KEY`
unfoldable pub subscription_key : String → String
subscription_key component = "events>subscribe>" ++ component

-- `EVENT_MANAGER_KEYS.MESSAGE_TYPE_KEY`
unfoldable pub message_type_key : String → String
message_type_key component = "message_type>" ++ component

-- `EVENT_MANAGER_KEYS.MESSAGE_TYPE_VALUE`
unfoldable pub message_type_value : String → String
message_type_value component = "ha_event_" ++ component

-- `EVENT_MGR_PRODUCER_ID`
unfoldable pub producer_id : String → String
producer_id component = "ha_event_manager_" ++ component

-- `resource_type + HA_DELIM + event`
unfoldable pub state_name : String → String → String
state_name resource_type event = (resource_type ++ ">") ++ event
