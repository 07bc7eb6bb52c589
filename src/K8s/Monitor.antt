-- ===== src/K8s/Monitor.antt =====
-- ha/monitor/k8s/object_monitor.py: one monitor thread. Its members that change are the record
-- `Monitor`; what it publishes is a list of payloads. The stop key of the configuration store, which
-- another process writes, is read anew at each event, and so is the SIGTERM flag.
pub mod Outcome
pub mod Published
pub mod Stopping
use Prim.Native.String.{◌++◌ as str_append}
use cortx_ha.Prelude.{
  String, Bool, true, false, not, ◌&&◌, List, [], ◌∷◌, ◌++◌, Option, none, some, ◌==◌,
  if◌then◌else◌,
}
use cortx_ha.Prelude.{Result, ok, raise, key_error, ◌>>=◌}
use cortx_ha.Prelude.Dict
use cortx_ha.Prelude.Dict.{Dict}
use cortx_ha.K8s.Alert.{Payload, EventApi}
use cortx_ha.K8s.Parser.{WatchEvent, Cache, Parsed, parse}

pub record Monitor : Type 0 where
  pub publish_enabled : Bool
  pub starting_up : Bool
  pub object_state : Cache
  pub stop_event_processing : Bool
  pub published_alerts : Dict Payload

-- `__init__`
abbrev pub init : Monitor
init = record {
  publish_enabled = true;
  starting_up = true;
  object_state = [];
  stop_event_processing = false;
  published_alerts = [];
}

infixr 65 ◌+++◌
abbrev ◌+++◌ : String → String → String
◌+++◌ = str_append

abbrev three_parts : String → String → String → String
three_parts a b c = a +++ "_" +++ b +++ "_" +++ c

-- `payload["specific_info"].get("generation_id")`, if it is true
abbrev generation_id : Payload → Option String
generation_id p = elim (Dict.get p.specific_info "generation_id") [
  | none ↦ none
  | some id ↦ if id == "" then none else some id
]

unfoldable pub alert_key : Payload → String
alert_key p = elim (generation_id p) [
  | none ↦ three_parts p.node_id p.resource_type p.resource_id
  | some id ↦ three_parts p.node_id p.resource_type id
]

unfoldable pub same_info : Dict String → Dict String → Bool
same_info [] [] = true
same_info ((j, v) ∷ d) ((k, w) ∷ e) = j == k && (v == w && same_info d e)
same_info _ _ = false

-- Equality of the payloads' texts. Every payload has the same keys, and its specific info at most
-- one, so sorting the keys changes nothing.
unfoldable pub same_payload : Payload → Payload → Bool
unfolding same_info
same_payload p q =
    p.source == q.source
    && (p.cluster_id == q.cluster_id
        && (p.site_id == q.site_id
            && (p.rack_id == q.rack_id
                && (p.storageset_id == q.storageset_id
                    && (p.node_id == q.node_id
                        && (p.resource_type == q.resource_type
                            && (p.resource_id == q.resource_id
                                && (p.resource_status == q.resource_status
                                    && same_info p.specific_info q.specific_info))))))))

abbrev pub is_same : Payload → Option Payload → Bool
is_same p none = false
is_same p (some q) = same_payload p q

-- `_is_published_alert`: the answer, and the table after it
unfoldable pub is_published_alert : Payload → Dict Payload → Bool × Dict Payload
unfolding alert_key
is_published_alert alert table =
    if is_same alert (Dict.get table (alert_key alert))
    then (true, table)
    else (false, Dict.put table (alert_key alert) alert)

-- `is_publish_enable`: a stop key that holds "1" switches publishing off for good.
unfoldable pub is_publish_enable : Option String → Bool → Bool
is_publish_enable stop_key publish_enabled =
    publish_enabled && not (elim stop_key [ none ↦ false | some v ↦ v == "1" ])

-- `publish_alert`: the state after it, and what is sent
unfoldable pub publish_alert : Option String → Payload → Monitor → Monitor × List Payload
unfolding is_publish_enable
publish_alert stop_key alert m =
    let enabled = is_publish_enable stop_key m.publish_enabled in
    (record m { publish_enabled = enabled }, if enabled then alert ∷ [] else [])

-- the tail of the loop body: `_is_published_alert`, `continue` or `publish_alert`
unfoldable pub offer : Option String → Payload → Monitor → Monitor × List Payload
unfolding is_published_alert publish_alert
offer stop_key alert m =
    let (seen, table) = is_published_alert alert m.published_alerts in
    if seen then (m, []) else publish_alert stop_key alert (record m { published_alerts = table })

-- What the environment shows the loop at one event.
pub record Tick : Type 0 where
  pub event : WatchEvent
  pub stop_key : Option String
  pub sigterm : Bool

module _ (api : EventApi) where
  open api use {Event, set_specific_info, payload}

  -- the branch on `self._starting_up`
  unfoldable pub at_start : WatchEvent → Event → Monitor → Result (Payload × Monitor)
  at_start e event m =
      if m.starting_up
      then elim e.type [
        | none ↦ raise key_error
        | some type ↦
            if type == "ADDED"
            then ok (payload (set_specific_info (("is_status", "True") ∷ []) event), m)
            else ok (payload event, record m { starting_up = false })
      ]
      else ok (payload event, m)

  abbrev after_parse : Tick → Monitor → Parsed api → Result (Monitor × List Payload)
  after_parse t m (none, cache) = ok (record m { object_state = cache }, [])
  after_parse t m (some event, cache) = do
    (alert, m') ← at_start t.event event (record m { object_state = cache })
    ok (offer t.stop_key alert m')

  -- The loop body, for the object "node" or "pod". A SIGTERM stops the watch, flushes the events that
  -- were fetched, and leaves the loop before this event is parsed.
  unfoldable pub on_event : String → Tick → Monitor → Result (Monitor × List Payload)
  unfolding at_start offer
  on_event k_object t m =
      if t.sigterm
      then ok (record m { stop_event_processing = true }, [])
      else do parsed ← parse api k_object t.event m.object_state; after_parse t m parsed

  -- `run`, over the events that arrive: what is published, and the last state. A stop leaves the
  -- loop; an exception ends the thread.
  unfoldable pub run : String → List Tick → Monitor → Result (Monitor × List Payload)
  run k_object [] m = ok (m, [])
  run k_object (t ∷ ts) m = if m.stop_event_processing then ok (m, []) else do
    (m', sent) ← on_event k_object t m
    (m'', later) ← run k_object ts m'
    ok (m'', sent ++ later)
