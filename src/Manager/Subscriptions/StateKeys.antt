-- ===== src/Manager/Subscriptions/StateKeys.antt =====
-- The states that a component has subscribed to, under the key of its subscription.
use cortx_ha.Prelude.{contains-nil}
use cortx_ha.Prelude.{String, ◌≡◌, ◌==◌, false, ◌||◌, List, [], ◌∷◌, contains, Distinct, none, some}
use cortx_ha.Prelude.Acting.{Act}
use cortx_ha.Store.Services.{names, Consul, IsConsul}
use cortx_ha.Store.KvStore.Contract.{
  Holds, Writes, get-Holds, key_exists-Holds, update-Writes, set-Writes,
}
use cortx_ha.Actions.Rules.Evaluation.{rule}
use cortx_ha.Manager.Lists.{stored_list, merge, state_names, without_duplicates}
use cortx_ha.Manager.Lists.Union.{without_duplicates-merge}
use cortx_ha.Manager.Subscriptions.{MessageBus, store_component_key}

module _ {S E : Type 0} (consul : Consul S) (bus : MessageBus S E) (prefix : String)
    (laws : IsConsul consul) where
  -- The step writes at `key` a list with what is in `l` and the states `val` of the resource; no text
  -- stands twice in it.
  pub record WritesUnion (s : S) (key resource : String) (l val : List String)
      (m : Act S (Unit {0})) : Type 0 where
    pub new : List String
    pub written : Writes consul prefix laws s key (some (names new)) m _
    pub union :
        (x : String) → contains new x ≡ (contains l x || contains (state_names resource val) x)
    pub distinct : Distinct new

  -- Subscribing to distinct states of a resource leaves, under the component's key, the states that it
  -- had subscribed to and the new ones, and nothing else, without repetitions, where no other key starts
  -- with that key; what stands under keys that it does not start is as it was.
  pub store_component_key-WritesUnion :
      (s : S) (key resource : String) (l val : List String)
      → (key == "") ≡ false
      → Distinct (state_names resource val)
      → Holds consul prefix laws s key (rule l)
      → WritesUnion s key resource l val (store_component_key consul bus prefix key resource val)
  unfolding store_component_key stored_list
  store_component_key-WritesUnion s key resource [] val named once h =
      let w = set-Writes consul prefix laws s key (names (state_names resource val)) named h in
      record {
        new = state_names resource val;
        written = record {
          after = w.after;
          result = rw (key_exists-Holds consul prefix laws s key none h, w.result);
          here = w.here;
          elsewhere = w.elsewhere;
        };
        union = λ x. rw (contains-nil x);
        distinct = once;
      }
  store_component_key-WritesUnion s key resource (y ∷ l) val named once h =
      let new = without_duplicates (merge resource (y ∷ l) val) in
      let (union, distinct) = without_duplicates-merge resource (y ∷ l) val in
      let w = update-Writes consul prefix laws s key (some (names (y ∷ l))) (names new) named h in
      record {
        new = new;
        written = record {
          after = w.after;
          result = rw (
            key_exists-Holds consul prefix laws s key (some (names (y ∷ l))) h,
            get-Holds consul prefix laws s key (some (names (y ∷ l))) h,
            w.result,
          );
          here = w.here;
          elsewhere = w.elsewhere;
        };
        union = union;
        distinct = distinct;
      }
