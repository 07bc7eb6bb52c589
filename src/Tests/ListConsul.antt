-- ===== src/Tests/ListConsul.antt =====
-- A Consul and a bus that are a list of entries and a list of messages. No call of the program deletes
-- recursively, so `delete` does not.
use cortx_ha.Prelude.{
  String, refl, subst, List, [], ◌∷◌, ◌++◌, Bool, true, false, Bool-cases, inl, inr,
}
use mathlib.Core.List.{append-nil}
use cortx_ha.Prelude.{ok}
use cortx_ha.Prelude.Dict
use cortx_ha.Prelude.Dict.{Dict}
use cortx_ha.Store.Services.{
  Stored, Consul, IsConsul, IsPut, replaced, inserted, under, without, found,
}
use cortx_ha.Manager.Subscriptions.{MessageBus}
use cortx_ha.Manager.Service.Delivery.{IsBus}

-- the entries, and the messages sent
abbrev pub Cluster : Type 0
Cluster = Dict Stored × List (String × String × String)

abbrev pub put_entry : String → Stored → Bool → Dict Stored → Dict Stored
put_entry k v true d = Dict.put d k v
put_entry k v false d = d ++ (k, v) ∷ []

abbrev pub list_consul : Consul Cluster
list_consul = record {
  get = λ k (d, sent). ((d, sent), ok (found (under k d)));
  put = λ k v (d, sent). ((put_entry k v (Dict.has_key d k) d, sent), ok _);
  delete = λ k recurse (d, sent). ((without k d, sent), ok _);
}

pub put_entry-IsPut :
    (k : String) (v : Stored) (d : Dict Stored) → IsPut k v d (put_entry k v (Dict.has_key d k) d)
put_entry-IsPut k v d = elim (Bool-cases (Dict.has_key d k)) [
  | inl here ↦ rw here (replaced d here)
  | inr absent ↦ rw absent (
      subst (λ l. IsPut k v l (d ++ (k, v) ∷ [])) (append-nil d)
        (inserted d [] (rw (append-nil d) absent)))
]

abbrev pub list_laws : IsConsul list_consul
list_laws = record {
  entries = λ s. s.0;
  get_law = λ k s. refl;
  put_law =
      λ k v s. ((put_entry k v (Dict.has_key (s.0) k) (s.0), s.1), refl, put_entry-IsPut k v (s.0));
  delete_law = λ k s. ((without k (s.0), s.1), refl, refl);
}

abbrev pub prefix : String
prefix = "cortx>ha>v1>"

abbrev pub list_bus : MessageBus Cluster String
list_bus = record {
  register = λ message_type s. (s, ok _);
  deregister = λ message_type s. (s, ok _);
  send = λ id message_type json (d, sent). ((d, sent ++ (id, message_type, json) ∷ []), ok _);
}

abbrev pub list_posts : IsBus list_laws list_bus
list_posts = record {
  sent = λ s. s.1;
  send_law =
      λ id message_type json s. ((s.0, s.1 ++ (id, message_type, json) ∷ []), refl, refl, refl);
}
