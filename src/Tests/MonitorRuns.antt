-- ===== src/Tests/MonitorRuns.antt =====
-- Runs of the Kubernetes monitor and of the consumer of the message bus.
use cortx_ha.Prelude.{
  String, ◌≡◌, refl, List, [], ◌∷◌, none, some, Bool, true, false, lower, Option,
}
use cortx_ha.Prelude.{ok}
use cortx_ha.Prelude.Dict
use cortx_ha.K8s.Alert.{Payload, plain_events}
use cortx_ha.K8s.Parser.{Cache, parse}
use cortx_ha.K8s.Parser.Edges.{edges, observe, observe-edges}
use cortx_ha.K8s.Monitor.{Monitor, init, Tick, on_event, same_payload, run}
use cortx_ha.K8s.Monitor.Published.{NoRepeat, run-NoRepeat}
use cortx_ha.Bus.Consumer.{
  Round, FlushRound, Answer, returned, raised, success_stop, failed, flushed,
}
use cortx_ha.Bus.Consumer as Consumer
use cortx_ha.Bus.Consumer.Order.{Runs, run-Orderly}

abbrev seen_online : Cache
seen_online = ("n1", some "true") ∷ []

in_cache : Dict.get seen_online "n1" ≡ some (some "true")
unfolding Dict.get
in_cache = refl

-- online, then no longer ready; and behind an event that shows nothing a failure is lost
abbrev shown : List (Option String)
shown = some "True" ∷ some "False" ∷ some "True" ∷ none ∷ some "False" ∷ []

observe-edges_example : observe "n1" shown seen_online ≡ edges true shown
observe-edges_example = observe-edges "n1" shown (some "true") seen_online in_cache

abbrev ready_as : String → String → Bool → Tick
ready_as type status sigterm = record {
  event = record {
    type = some type;
    name = some "n1";
    labels = none;
    conditions = some (record { type = some "Ready"; status = some status } ∷ []);
  };
  stop_key = none;
  sigterm = sigterm;
}

abbrev added : Tick
added = ready_as "ADDED" "True" false

abbrev lost : Tick
lost = ready_as "MODIFIED" "False" false

abbrev again : Tick
again = ready_as "MODIFIED" "True" true

abbrev host : String → Dict.Dict String → Payload
host status info = record {
  source = "monitor";
  cluster_id = "";
  site_id = "NOT_DEFINED";
  rack_id = "NOT_DEFINED";
  storageset_id = "NOT_DEFINED";
  node_id = "n1";
  resource_type = "host";
  resource_id = "n1";
  resource_status = status;
  specific_info = info;
}

abbrev after_loss : Monitor
after_loss = record {
  publish_enabled = true;
  starting_up = false;
  object_state = ("n1", some "false") ∷ [];
  stop_event_processing = false;
  published_alerts = ("n1_host_n1", host "failed" []) ∷ [];
}

abbrev two_alerts : List Payload
two_alerts = host "online" (("is_status", "True") ∷ []) ∷ host "failed" [] ∷ []

loss : run plain_events "node" (added ∷ lost ∷ []) init ≡ ok (after_loss, two_alerts)
unfolding run on_event parse lower Dict.get Dict.put same_payload
loss = refl

run-NoRepeat_example : NoRepeat [] two_alerts
run-NoRepeat_example =
    run-NoRepeat plain_events "node" (added ∷ lost ∷ []) init after_loss two_alerts loss

abbrev silenced : Monitor
silenced = record init { publish_enabled = false }

abbrev silent : Monitor
silent = record after_loss { publish_enabled = false }

no_alerts : run plain_events "node" (added ∷ lost ∷ []) silenced ≡ ok (silent, [])
unfolding run on_event parse lower Dict.get Dict.put same_payload
no_alerts = refl

abbrev answering : Answer → Round String
answering a = record { stop = false; receive = ok (some "m"); answer = λ _. a; ack = ok _ }

abbrev three_rounds : List (Round String)
three_rounds =
    answering (returned failed) ∷ answering raised ∷ answering (returned success_stop) ∷ []

abbrev one_left : List (FlushRound String)
one_left =
    record { receive = ok (some "old"); ack = ok _ } ∷ record { receive = ok none; ack = ok _ } ∷ []

flushed_at_end : (Consumer.run true three_rounds one_left).1 ≡ flushed
unfolding Consumer.run Consumer.consume Consumer.round Consumer.handle Consumer.flush
flushed_at_end = refl

run-Orderly_example : Runs true (Consumer.run true three_rounds one_left).0
run-Orderly_example = run-Orderly true three_rounds one_left
