-- ===== src/Manager/Subscriptions/Emptied.antt =====
-- Unsubscribing from several states where the component's list is emptied before the last of them.
use text.Mathlib.Text.{starts_with}
use cortx_ha.Prelude.{String, ◌≡◌, ◌∙◌, eq_refl, false, List, [], ◌∷◌, remove, Option, none, some}
use cortx_ha.Prelude.{ok, raise, invalid_component}
use cortx_ha.Prelude.Acting.{for_each}
use cortx_ha.Store.Key.{
  prepare_key, subscription_key, message_type_key, state_name, message_type_value,
}
use cortx_ha.Store.Services.{Stored, names, Consul, IsConsul, under}
use cortx_ha.Store.KvStore.Contract.{Holds, get-Holds, key_exists-Holds, delete-Writes}
use cortx_ha.Manager.Lists.{stored_list}
use cortx_ha.Manager.Subscriptions.{
  MessageBus, delete_message_type, delete_component_state, delete_component_key,
}

module _ {S E : Type 0} (consul : Consul S) (bus : MessageBus S E) (prefix : String)
    (laws : IsConsul consul) where
  -- A bus that answers, and shares no state with Consul.
  pub record IsRegistry : Type 0 where
    pub deregister_law :
        (message_type : String) (s : S)
        → (s' : S) × (bus.deregister message_type s ≡ (s', ok _))
          × (laws.entries s' ≡ laws.entries s)

  -- neither key starts with the other
  pub record Apart (k j : String) : Type 0 where
    pub first : starts_with (prepare_key prefix k) (prepare_key prefix j) ≡ false
    pub second : starts_with (prepare_key prefix j) (prepare_key prefix k) ≡ false

  unregistered :
      (s : S) (component : String) (o : Option Stored)
      → IsRegistry
      → Holds consul prefix laws s (message_type_key component) o
      → (s' : S) × (delete_message_type consul bus prefix component s ≡ (s', ok _))
        × ((p : String)
            → starts_with (prepare_key prefix (message_type_key component)) p ≡ false
            → under p (laws.entries s') ≡ under p (laws.entries s))
  unfolding delete_message_type
  unregistered s component none registry h =
      let (s₁, done, kept) = registry.deregister_law (message_type_value component) s in
      (
        s₁,
        rw (
          done,
          key_exists-Holds consul prefix laws s₁ (message_type_key component) none (rw (kept) h),
        ),
        λ p apart. rw kept,
      )
  unregistered s component (some v) registry h =
      let (s₁, done, kept) = registry.deregister_law (message_type_value component) s in
      let h₁ : Holds consul prefix laws s₁ (message_type_key component) (some v) = rw kept h in
      let w = delete-Writes consul prefix laws s₁ (message_type_key component) (some v) h₁ in
      (
        w.after,
        rw (
          done,
          key_exists-Holds consul prefix laws s₁ (message_type_key component) (some v) h₁,
          w.result,
        ),
        λ p apart. w.elsewhere p apart ∙ rw kept,
      )

  -- A component that has subscribed to one state of a resource and unsubscribes from it and from others
  -- with it: its key is deleted with the first state, and the next one then raises `InvalidComponent`, so
  -- that `unsubscribe` does not go on to the keys of the events.
  pub delete_component_key-emptied :
      (s : S) (component resource state next : String) (more : List String) (o : Option Stored)
      → IsRegistry
      → Apart (subscription_key component) (message_type_key component)
      → Holds consul prefix laws s
          (subscription_key component)
          (some (names (state_name resource state ∷ [])))
      → Holds consul prefix laws s (message_type_key component) o
      → (s' : S) × (delete_component_key consul bus prefix component resource
            (state ∷ next ∷ more)
            s
          ≡ (s', raise invalid_component))
        × Holds consul prefix laws s' (subscription_key component) none
  unfolding delete_component_key delete_component_state for_each stored_list remove
  delete_component_key-emptied s component resource state next more o registry apart h t =
      let key = subscription_key component in
      let stored = some (names (state_name resource state ∷ [])) in
      let w = delete-Writes consul prefix laws s key stored h in
      let (s₂, done, kept) =
        unregistered w.after component o registry
          (w.elsewhere (prepare_key prefix (message_type_key component)) apart.first ∙ t) in
      let gone : Holds consul prefix laws s₂ key none =
        kept (prepare_key prefix key) apart.second ∙ w.here in
      (
        s₂,
        rw (
          key_exists-Holds consul prefix laws s key stored h,
          get-Holds consul prefix laws s key stored h,
          eq_refl (state_name resource state),
          w.result,
          done,
          key_exists-Holds consul prefix laws s₂ key none gone,
        ),
        gone,
      )
