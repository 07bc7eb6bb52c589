-- ===== src/Actions/Service/Answers.antt =====
-- The answers of the service to a health event, by the rule for its kind.
use cortx_ha.Prelude.{String, ◌≡◌, refl, List, [], ◌∷◌, contains}
use cortx_ha.Prelude.{Result, ok, raise}
use cortx_ha.Prelude.Acting.{Act, continue}
use cortx_ha.Json.{Json}
use cortx_ha.Health.Event.{HealthEvent}
use cortx_ha.Bus.Consumer.{Status, success, failed}
use cortx_ha.Events.Filter.{Message}
use cortx_ha.Store.Services.{Consul, IsConsul}
use cortx_ha.Actions.Rules.{publish_act}
use cortx_ha.Actions.Rules.Evaluation.{HasRule, evaluate-HasRule}
use cortx_ha.Actions.Handlers.{Handler, act, get_action_handler, if_publish}
use cortx_ha.Actions.Handlers.Publishing.{act-get_action_handler}
use cortx_ha.Actions.Service.{read_event, process_event, answered, act_on, handle_event}

module _ {S : Type 0} (consul : Consul S) (prefix : String) (laws : IsConsul consul)
    (format : Json → String) (publish_event : HealthEvent → Act S (Unit {0})) where
  -- the rule for the event's kind has the actions `l`
  abbrev pub HasActions : S → HealthEvent → List String → Type 0
  HasActions s event l =
      HasRule consul prefix laws s (format event.resource_type) (format event.event_type) l

  -- what is done with an event once the factory has answered
  abbrev pub publish_if : {H : Type 0} → Result H → HealthEvent → List String → S → S × Status
  publish_if (raise e) event actions s = (s, failed)
  publish_if (ok handler) event actions s =
      answered consul prefix format publish_event
        (if_publish publish_event event (contains actions publish_act) s)

  -- The answer to an event whose rule has the actions `l`.
  abbrev pub expected : HealthEvent → List String → S → S × Status
  expected event [] s = (s, success)
  expected event (a ∷ l) s = publish_if (get_action_handler event (a ∷ l)) event (a ∷ l) s

  acted :
      (s : S) (event : HealthEvent) (l : List String)
      → answered consul prefix format publish_event
          (act_on consul prefix format publish_event event l s)
        ≡ expected event l s
  acted s event [] = refl
  acted s event (a ∷ l) = by_handler (get_action_handler event (a ∷ l)) refl
    where
      by_handler :
          (r : Result Handler)
          → get_action_handler event (a ∷ l) ≡ r
          → answered consul prefix format publish_event
              (continue (s, r) (λ h. act publish_event h event (a ∷ l)))
            ≡ publish_if r event (a ∷ l) s
      by_handler (raise e) h = refl
      by_handler (ok handler) h = rw (act-get_action_handler publish_event event (a ∷ l) handler h)

  -- A message that holds an event is answered by the rule for its kind, where no other key starts with
  -- the key of that rule:
  -- without actions it is acknowledged and nothing is done; where the factory finds no handler it is
  -- FAILED and nothing is done; else the event is published exactly when "publish" is among the
  -- actions, and the message is FAILED exactly when the publishing raises.
  pub process_event-HasActions :
      (s : S) (message : Message) (event : HealthEvent) (l : List String)
      → read_event message ≡ ok event
      → HasActions s event l
      → process_event consul prefix format publish_event message s ≡ expected event l s
  unfolding process_event handle_event
  process_event-HasActions s message event l parsed h =
      rw
        (
          parsed,
          evaluate-HasRule consul prefix laws s (format event.resource_type)
              (format event.event_type) l h,
        )
        (acted s event l)
