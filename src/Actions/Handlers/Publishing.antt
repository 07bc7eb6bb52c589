-- ===== src/Actions/Handlers/Publishing.antt =====
-- What the chosen handler does.
use cortx_ha.Prelude.{String, ◌≡◌, refl, arith, true, List, [], ◌∷◌, contains, inl, inr, Bool-cases}
use cortx_ha.Prelude.{Result, ok, raise, reraise, action_handler_error}
use cortx_ha.Prelude.Acting.{Act}
use cortx_ha.Json.{Json, null, bool, num, str, arr, obj, is_text}
use cortx_ha.Health.Event.{HealthEvent}
use cortx_ha.Actions.Rules.{publish_act}
use cortx_ha.Actions.Handlers.{
  Handler, default_act, default_handler, node_handler, cvg_handler, disk_handler, handler_of,
  only_publish, get_action_handler, act, if_publish,
}

-- the default handler is chosen for the lists that it accepts
default_publishes :
    {S : Type 0} (publish_event : HealthEvent → Act S (Unit {0})) (event : HealthEvent)
    (actions : List String)
    → only_publish actions ≡ true
    → act publish_event default_handler event actions
      ≡ if_publish publish_event event (contains actions publish_act)
unfolding act default_act only_publish contains
default_publishes publish_event event [] h = refl
default_publishes publish_event event (a ∷ []) h = rw h
default_publishes publish_event event (a ∷ b ∷ l) h = cc

-- the table has no default handler
not_default : (j : Json) → handler_of j ≡ ok default_handler → ⊥
unfolding handler_of is_text
not_default null h = cc
not_default (bool b) h = cc
not_default (num n) h = cc
not_default (arr l) h = cc
not_default (obj fs) h = cc
not_default (str s) h = ground arith

from_table :
    {S : Type 0} (publish_event : HealthEvent → Act S (Unit {0})) (event : HealthEvent)
    (actions : List String) (handler : Handler)
    → handler_of event.resource_type ≡ ok handler
    → act publish_event handler event actions
      ≡ if_publish publish_event event (contains actions publish_act)
unfolding act
from_table publish_event event actions default_handler h =
    absurd (not_default event.resource_type h)
from_table publish_event event actions node_handler h = refl
from_table publish_event event actions cvg_handler h = refl
from_table publish_event event actions disk_handler h = refl

-- The handler that the factory chooses publishes the event exactly when "publish" is among the
-- actions, and else does nothing: it never raises an exception of its own.
pub act-get_action_handler :
    {S : Type 0} (publish_event : HealthEvent → Act S (Unit {0})) (event : HealthEvent)
    (actions : List String) (handler : Handler)
    → get_action_handler event actions ≡ ok handler
    → act publish_event handler event actions
      ≡ if_publish publish_event event (contains actions publish_act)
unfolding get_action_handler
act-get_action_handler publish_event event actions handler h =
    elim (Bool-cases (only_publish actions)) [
      | inl only ↦ rw (chosen only) (default_publishes publish_event event actions only)
      | inr more ↦
          from_table publish_event event actions handler
            (of_reraise (handler_of event.resource_type) (rw more at h))
    ]
  where
    chosen : only_publish actions ≡ true → handler ≡ default_handler
    chosen only = let h' = rw only at h in cc

    of_reraise : (r : Result Handler) → reraise action_handler_error r ≡ ok handler → r ≡ ok handler
    of_reraise (ok x) e = e
    of_reraise (raise x) e = cc
