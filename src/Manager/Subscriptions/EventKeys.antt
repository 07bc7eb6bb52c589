-- ===== src/Manager/Subscriptions/EventKeys.antt =====
-- The components of an event, as a list that is kept under the key of the event.
use Prim.Native.String.{◌++◌ as ◌+++◌}
use text.Mathlib.TextPositions.{len-append}
use cortx_ha.Prelude.{
  arith, String, ◌≡◌, refl, ◌==◌, false, List, [], ◌∷◌, remove, Option, none, some,
}
use cortx_ha.Store.Key.{event_key}
use cortx_ha.Store.Services.{Stored, names, Consul, IsConsul}
use cortx_ha.Store.KvStore.Contract.{
  Holds, Writes, get-Holds, key_exists-Holds, update-Writes, delete-Writes,
}
use cortx_ha.Actions.Rules.Evaluation.{rule, named_by_length}
use cortx_ha.Manager.Lists.{stored_list}
use cortx_ha.Manager.Subscriptions.{MessageBus, delete_event_state, write_components}

event_key_named : (resource state : String) → (event_key resource state == "") ≡ false
unfolding event_key
event_key_named resource state = named_by_length _ (
    omega
      (arith, len-append ("events>" +++ resource) (">" +++ state), len-append "events>" resource))

module _ {S E : Type 0} (consul : Consul S) (bus : MessageBus S E) (prefix : String)
    (laws : IsConsul consul) where
  -- The components of the event are `l`, and no other key starts with its key.
  abbrev pub HasComponents : S → String → String → List String → Type 0
  HasComponents s resource state l = Holds consul prefix laws s (event_key resource state) (rule l)

  write_components-Writes :
      (s : S) (resource state : String) (o : Option Stored) (l : List String)
      → Holds consul prefix laws s (event_key resource state) o
      → Writes consul prefix laws s
          (event_key resource state)
          (rule l)
          (write_components consul bus prefix (event_key resource state) l)
          _
  write_components-Writes s resource state o [] h =
      let w = delete-Writes consul prefix laws s (event_key resource state) o h in
      record { after = w.after; result = rw w.result; here = w.here; elsewhere = w.elsewhere }
  write_components-Writes s resource state o (x ∷ l) h =
      let w =
        update-Writes consul prefix laws s (event_key resource state) o (names (x ∷ l))
          (event_key_named resource state) h in
      record { after = w.after; result = rw w.result; here = w.here; elsewhere = w.elsewhere }

  -- Where no other key starts with the key of an event, the first occurrence of a component is taken
  -- out of the stored components of the event, whose key is deleted with the last one; an event without
  -- a key is left as it is; and so is what stands under keys that the event's key does not start.
  pub delete_event_state-Writes :
      (s : S) (comp resource state : String) (l : List String)
      → HasComponents s resource state l
      → Writes consul prefix laws s
          (event_key resource state)
          (rule (remove l comp))
          (delete_event_state consul bus prefix comp resource state)
          _
  unfolding delete_event_state stored_list remove
  delete_event_state-Writes s comp resource state [] h = record {
    after = s;
    result = rw (key_exists-Holds consul prefix laws s (event_key resource state) none h);
    here = h;
    elsewhere = λ p apart. refl;
  }
  delete_event_state-Writes s comp resource state (x ∷ l) h =
      let key = event_key resource state in
      let w =
        write_components-Writes s resource state (some (names (x ∷ l))) (remove (x ∷ l) comp) h in
      record {
        after = w.after;
        result = rw (
          key_exists-Holds consul prefix laws s key (some (names (x ∷ l))) h,
          get-Holds consul prefix laws s key (some (names (x ∷ l))) h,
          w.result,
        );
        here = w.here;
        elsewhere = w.elsewhere;
      }
