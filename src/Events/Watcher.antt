-- ===== src/Events/Watcher.antt =====
-- ha/core/event_analyzer/watcher/watcher.py, the class EventAnalyzer of
-- ha/core/event_analyzer/event_analyzerd.py and HealthStatusMonitor of
-- ha/fault_tolerance/fault_monitor.py: what is done with a message of the bus, and what status it is
-- answered with. The subscriber is a parameter: a function on its own state.
pub mod Outcomes
use cortx_ha.Prelude.{Bool, true, false}
use cortx_ha.Prelude.{Exn, filter_error, parser_error, subscriber_error, Result, ok, raise, reraise}
use cortx_ha.Bus.Consumer.{Status, success, failed}
use cortx_ha.Events.Filter.{Message}

module _ {ℓ κ} {S : Type ℓ} {E : Type κ} (filter_event : Message → Result Bool)
    (parse_event : Message → Result E) (process_event : S → E → S × Result (Unit {0})) where
  -- `try: process_event(event)` / `except Exception: raise SubscriberException`
  abbrev pub notify : S × Result (Unit {0}) → S × Result (Unit {0})
  notify (s, r) = (s, reraise subscriber_error r)

  abbrev pub parsed_then : S → Result E → S × Result (Unit {0})
  parsed_then s (ok event) = notify (process_event s event)
  parsed_then s (raise e) = (s, raise e)

  abbrev pub filtered_then : S → Message → Result Bool → S × Result (Unit {0})
  filtered_then s msg (ok true) = parsed_then s (parse_event msg)
  filtered_then s msg (ok false) = (s, ok _)
  filtered_then s msg (raise e) = (s, raise e)

  -- `EventAnalyzer.__init__`, and the same steps of `Watcher.process_message`
  unfoldable pub analyze : S → Message → S × Result (Unit {0})
  analyze s msg = filtered_then s msg (filter_event msg)

  -- the `except` clauses of `Watcher.process_message`
  abbrev pub status_of : Result (Unit {0}) → Status
  status_of (ok _) = success
  status_of (raise filter_error) = success
  status_of (raise parser_error) = success
  status_of (raise _) = failed

  abbrev pub answer : S × Result (Unit {0}) → S × Status
  answer (s, r) = (s, status_of r)

  -- `Watcher.process_message`; a message that is no document is acknowledged at once
  unfoldable pub process_message : S → Message → S × Status
  process_message s (raise _) = (s, success)
  process_message s (ok document) = answer (analyze s (ok document))

  -- `HealthStatusMonitor.process_message`: every `except` clause returns SUCCESS
  unfoldable pub monitor_message : S → Message → S × Status
  monitor_message s msg = let (s', r) = analyze s msg in (s', success)
