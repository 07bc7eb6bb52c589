-- ===== src/Manager/Service/Delivery.antt =====
-- To whom an event is sent.
use mathlib.Core.List.{append-nil, append_assoc}
use cortx_ha.Prelude.{
  String, ◌≡◌, refl, sym, ◌∙◌, List, [], ◌∷◌, ◌++◌, some, if◌then◌else◌, Bool-cases, inl, inr, All,
}
use cortx_ha.Prelude.{ok}
use cortx_ha.Prelude.Acting.{Act, for_each}
use cortx_ha.Prelude.Dict.{Dict}
use cortx_ha.Json.{Json, str, is_text}
use cortx_ha.Store.Key.{event_key, message_type_key, producer_id, prepare_key}
use cortx_ha.Store.Services.{Stored, names, plain, Consul, IsConsul, under}
use cortx_ha.Store.Services.Entries.{cell}
use cortx_ha.Store.KvStore.{get}
use cortx_ha.Store.KvStore.Contract.{Holds, get-Holds}
use cortx_ha.Manager.Lists.{stored_list}
use cortx_ha.Manager.Subscriptions.{MessageBus}
use cortx_ha.Manager.Service.{Outgoing, publish, send_to, send_unless_source, last_type}

-- A bus that takes every message: `sent` are the messages so far, by producer and message type. It
-- shares no state with Consul.
pub record IsBus {S E : Type 0} {consul : Consul S} (laws : IsConsul consul) (bus : MessageBus S E)
    : Type 0 where
  pub sent : S → List (String × String × E)
  pub send_law :
      (id message_type : String) (json : E) (s : S)
      → (s' : S) × (bus.send id message_type json s ≡ (s', ok _))
        × (sent s' ≡ sent s ++ (id, message_type, json) ∷ [])
        × (laws.entries s' ≡ laws.entries s)

module _ {S E : Type 0} (consul : Consul S) (bus : MessageBus S E) (prefix : String)
    (laws : IsConsul consul) (posted : IsBus laws bus) where
  -- the messages that an event leads to, for components with these message types
  abbrev pub messages : Outgoing E → (String → String) → List String → List (String × String × E)
  messages event type_of [] = []
  messages event type_of (c ∷ l) =
      if is_text event.source c
      then messages event type_of l
      else (producer_id c, type_of c, event.json) ∷ messages event type_of l

  -- every component has its message type, whose key no other key starts with
  abbrev pub HasTypes : Dict Stored → (String → String) → List String → Type 0
  HasTypes d type_of l =
      All
        (λ c.
          under (prepare_key prefix (message_type_key c)) d
          ≡ cell (prepare_key prefix (message_type_key c)) (some (plain (type_of c))))
        l

  -- `s'` is `s` after the messages `more`
  pub record Sends (s : S) (more : List (String × String × E)) (m : Act S (Unit {0})) : Type 0 where
    pub after : S
    pub result : m s ≡ (after, ok _)
    pub added : posted.sent after ≡ posted.sent s ++ more
    pub kept : laws.entries after ≡ laws.entries s

  send_to-Sends :
      (s : S) (event : Outgoing E) (type_of : String → String) (c : String)
      → Holds consul prefix laws s (message_type_key c) (some (plain (type_of c)))
      → Sends s
          ((producer_id c, type_of c, event.json) ∷ [])
          (send_to consul bus prefix event.json c)
  unfolding send_to last_type
  send_to-Sends s event type_of c h =
      let (s', done, added, kept) = posted.send_law (producer_id c) (type_of c) event.json s in
      record {
        after = s';
        result = rw (
          get-Holds consul prefix laws s (message_type_key c) (some (plain (type_of c))) h,
          done,
        );
        added = added;
        kept = kept;
      }

  Sends-for_each :
      (s : S) (event : Outgoing E) (type_of : String → String) (l : List String)
      → HasTypes (laws.entries s) type_of l
      → Sends s (messages event type_of l) (for_each l (send_unless_source consul bus prefix event))
  unfolding for_each send_unless_source
  Sends-for_each s event type_of [] h = record {
    after = s;
    result = refl;
    added = sym (append-nil _);
    kept = refl;
  }
  Sends-for_each s event type_of (c ∷ l) h = elim (Bool-cases (is_text event.source c)) [
    | inl own ↦
        let r = Sends-for_each s event type_of l h.1 in
        record {
          after = r.after;
          result = rw (own, r.result);
          added = rw (own, r.added);
          kept = r.kept;
        }
    | inr other ↦
        let m = send_to-Sends s event type_of c h.0 in
        let r = Sends-for_each m.after event type_of l (rw (m.kept) h.1) in
        record {
          after = r.after;
          result = rw (other, m.result, r.result);
          added =
              rw (other, r.added, m.added)
                (append_assoc (posted.sent s) ((producer_id c, type_of c, event.json) ∷ [])
                  (messages event type_of l));
          kept = r.kept ∙ m.kept;
        }
  ]

  -- an event with texts for its type and its status, which are all that can be a key
  abbrev pub event_of : String → String → Json → E → Outgoing E
  event_of resource status source json = record {
    resource_type = str resource;
    status = str status;
    source = source;
    json = json;
  }

  -- An event whose components are stored under its key, with no other key that starts with it, and of
  -- whose components each has its message type under a key that no other key starts with, is sent once
  -- to each of them but its source, in the stored order, and nothing else is sent; the store is left as
  -- it is.
  pub publish-Sends :
      (s : S) (resource status : String) (source : Json) (json : E) (components : List String)
      (type_of : String → String)
      → Holds consul prefix laws s (event_key resource status) (some (names components))
      → HasTypes (laws.entries s) type_of components
      → Sends s
          (messages (event_of resource status source json) type_of components)
          (publish consul bus prefix (event_of resource status source json))
  unfolding publish stored_list
  publish-Sends s resource status source json components type_of h types =
      let r = Sends-for_each s (event_of resource status source json) type_of components types in
      record {
        after = r.after;
        result = rw (
          get-Holds consul prefix laws s (event_key resource status) (some (names components)) h,
          r.result,
        );
        added = r.added;
        kept = r.kept;
      }

  -- Where a second key starts with the key of a component's message type, the component's messages go
  -- to the message type of the second key: the last entry of Consul's answer is the one that is used.
  -- This is so for "ha" once "hare" is registered.
  send_to-clash :
      (s : S) (component type other : String) (other_key : String) (json : E)
      → under (prepare_key prefix (message_type_key component)) (laws.entries s)
        ≡ (prepare_key prefix (message_type_key component), plain type)
          ∷ (other_key, plain other)
          ∷ []
      → Sends s
          ((producer_id component, other, json) ∷ [])
          (send_to consul bus prefix json component)
  unfolding send_to last_type get
  send_to-clash s component type other other_key json h =
      let (s', done, added, kept) = posted.send_law (producer_id component) other json s in
      record {
        after = s';
        result = rw (laws.get_law (prepare_key prefix (message_type_key component)) s, h, done);
        added = added;
        kept = kept;
      }
