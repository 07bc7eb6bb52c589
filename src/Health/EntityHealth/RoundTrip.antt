-- ===== src/Health/EntityHealth/RoundTrip.antt =====
-- A health value read back from what was written.
use cortx_ha.Prelude.{
  ℕ, zero, suc, ◌≡◌, refl, ap, ◌∙◌, Bool, true, false, ◌&&◌, Option, none, some, List, [], ◌∷◌,
  take, length-take_le, if◌then◌else◌, is_some,
}
use cortx_ha.Prelude.{ok, raise, ha_entity_health, reraise}
use cortx_ha.Json.{Fields, end, field, obj}
use cortx_ha.Health.EntityHealth.{
  EntityEvent, EntityAction, EntityHealth, empty, event_dict, action_dict, event_items, write,
  read_event, read_events, read_keys, read,
}
use cortx_ha.Health.EntityHealth.Bounds.{add_event-eq-take}

read_event-event_dict : (e : EntityEvent) → read_event (event_dict e) ≡ ok e
unfolding read_event event_dict
read_event-event_dict e = refl

abbrev pub with_events : EntityHealth → List EntityEvent → EntityHealth
with_events h es = record h { events = es }

take-take {ℓ} :
    {A : Type ℓ} (n : ℕ) (x : A) (xs : List A) → take n (x ∷ take n xs) ≡ take n (x ∷ xs)
take-take zero x xs = refl
take-take (suc zero) x xs = refl
take-take (suc (suc n)) x [] = refl
take-take (suc (suc n)) x (y ∷ ys) = ap (λ l. x ∷ l) (take-take (suc n) y ys)

read_events-event_items :
    (n : ℕ) (es : List EntityEvent)
    → read_events n (event_items es) empty ≡ ok (with_events empty (take n es))
unfolding read_events event_items
read_events-event_items zero [] = refl
read_events-event_items (suc n) [] = refl
read_events-event_items n (e ∷ es) =
    rw (read_events-event_items n es, read_event-event_dict e)
      (ap ok (
        add_event-eq-take n e (with_events empty (take n es)) (length-take_le n es)
        ∙ ap (with_events empty) (take-take n e es)))

abbrev is_empty : Fields → Bool
is_empty end = true
is_empty (field k v fs) = false

read_keys-action_attributes :
    (n : ℕ) (es : List EntityEvent) (a : Option EntityAction) (fs : Fields)
    → reraise ha_entity_health (
        read_keys n
          (field "action" (action_dict a) (field "attributes" (obj fs) end))
          (with_events empty es))
      ≡ (if is_some a && is_empty fs
          then ok (record { events = es; action = a; attributes = fs })
          else raise ha_entity_health)
unfolding read_keys action_dict
read_keys-action_attributes n es none fs = refl
read_keys-action_attributes n es (some a) end = refl
read_keys-action_attributes n es (some a) (field k v fs) = refl

-- A document that `write` makes is read back, with the history cut to the configured length, if
-- the action has been set and there are no attributes. Otherwise the read fails: an action that was
-- never set is written as `{}`, and any attribute raises.
pub read-write :
    (n : ℕ) (h : EntityHealth)
    → read n (write h) ≡ (
        if is_some h.action && is_empty h.attributes
        then ok (with_events h (take n h.events))
        else raise ha_entity_health)
unfolding write read
read-write n h =
    rw (read_events-event_items n h.events)
      (read_keys-action_attributes n (take n h.events) h.action h.attributes)
