-- ===== src/Tests/HealthStore.antt =====
-- A store that is a list of entries, with a producer that keeps the events it is given.
use cortx_ha.Prelude.{refl, List, [], ◌∷◌, ◌++◌}
use cortx_ha.Prelude.{ok}
use cortx_ha.Prelude.Dict
use cortx_ha.Prelude.Dict.{Dict}
use cortx_ha.Prelude.Acting.{Act}
use cortx_ha.Health.Event.{HealthEvent}
use cortx_ha.Health.System.Processing.{IsProducer}
use cortx_ha.Store.Services.{Stored, Consul, IsConsul, under, without, found}
use cortx_ha.Tests.ListConsul.{put_entry, put_entry-IsPut}

-- the entries, and the events announced
abbrev pub Ha : Type 0
Ha = Dict Stored × List HealthEvent

abbrev pub consul : Consul Ha
consul = record {
  get = λ k (d, sent). ((d, sent), ok (found (under k d)));
  put = λ k v (d, sent). ((put_entry k v (Dict.has_key d k) d, sent), ok _);
  delete = λ k recurse (d, sent). ((without k d, sent), ok _);
}

abbrev pub laws : IsConsul consul
laws = record {
  entries = λ s. s.0;
  get_law = λ k s. refl;
  put_law =
      λ k v s. ((put_entry k v (Dict.has_key (s.0) k) (s.0), s.1), refl, put_entry-IsPut k v (s.0));
  delete_law = λ k s. ((without k (s.0), s.1), refl, refl);
}

abbrev pub announce : HealthEvent → Act Ha (Unit {0})
announce e (d, sent) = ((d, sent ++ e ∷ []), ok _)

abbrev pub producer : IsProducer laws announce
producer = record {
  sent = λ s. s.1;
  send_law = λ e s. ((s.0, s.1 ++ e ∷ []), refl, refl, refl);
  put_law = λ k v s. refl;
}
