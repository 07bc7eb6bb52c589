-- ===== src/Health/System/Processing.antt =====
-- What a health event leads to, in the store and on the bus.
use mathlib.Core.List.{append-nil, append_assoc}
use cortx_ha.Prelude.{
  String, ◌≡◌, refl, sym, ap, subst, ◌∙◌, ◌==◌, Bool, true, false, List, [], ◌∷◌, ◌++◌, Option,
  none, some,
}
use cortx_ha.Prelude.{Result, ok, ◌>>=◌, >>=-eq-ok}
use cortx_ha.Prelude.Acting.{Act, for_each}
use cortx_ha.Json.{Json}
use cortx_ha.Store.Key.{prepare_key}
use cortx_ha.Store.Services.Entries.{under-IsPut-cell}
use cortx_ha.Store.Services.{Stored, document, Consul, IsConsul}
use cortx_ha.Store.KvStore.{update, set}
use cortx_ha.Store.KvStore.Contract.{Holds, key_exists-Holds}
use cortx_ha.Health.Event.{HealthEvent}
use cortx_ha.Health.Updates.{Update, is_update_required}
use cortx_ha.Health.System.{set_key, update_value, check_and_update}

-- A bus that takes every event: `sent` are those so far. It shares no state with Consul.
pub record IsProducer {S : Type 0} {consul : Consul S} (laws : IsConsul consul)
    (send : HealthEvent → Act S (Unit {0})) : Type 0 where
  pub sent : S → List HealthEvent
  pub send_law :
      (event : HealthEvent) (s : S)
      → (s' : S) × (send event s ≡ (s', ok _))
        × (sent s' ≡ sent s ++ event ∷ [])
        × (laws.entries s' ≡ laws.entries s)
  pub put_law : (k : String) (v : Stored) (s : S) → sent ((consul.put k v s).0) ≡ sent s

-- One update of a stored document: what is stored after it, and what is announced.
abbrev pub taken : Json → Update → Bool → Json × List HealthEvent
taken d u true = (u.value, u.event ∷ [])
taken d u false = (d, [])

abbrev pub then_more : List HealthEvent → Json × List HealthEvent → Json × List HealthEvent
then_more now (d, later) = (d, now ++ later)

-- A list of updates, each taken if it is required: the last document and the events announced.
unfoldable pub outcome : Json → List Update → Result (Json × List HealthEvent)
outcome d [] = ok (d, [])
outcome d (u ∷ us) = is_update_required u.event u.before u.value >>= λ required.
    outcome (taken d u required).0 us >>= λ rest. ok (then_more (taken d u required).1 rest)

module _ {S : Type 0} (consul : Consul S) (prefix : String) (send : HealthEvent → Act S (Unit {0}))
    (laws : IsConsul consul) (producer : IsProducer laws send) where
  -- The step leads to a state in which `key` holds `d`, after the events `more` have been sent.
  pub record Reaches (s : S) (key : String) (d : Json) (more : List HealthEvent)
      (m : Act S (Unit {0})) : Type 0 where
    pub after : S
    pub result : m s ≡ (after, ok _)
    pub here : Holds consul prefix laws after key (some (document d))
    pub announced : producer.sent after ≡ producer.sent s ++ more

  sent_after :
      (k : String) (v : Stored) (s s' : S)
      → consul.put k v s ≡ (s', ok _)
      → producer.sent s' ≡ producer.sent s ++ []
  sent_after k v s s' done =
      let e = producer.put_law k v s in (rw done at e) ∙ sym (append-nil (producer.sent s))

  set_key-Reaches :
      (s : S) (key : String) (o : Option Stored) (d : Json)
      → (key == "") ≡ false
      → Holds consul prefix laws s key o
      → Reaches s key d [] (set_key consul prefix send key d)
  unfolding set_key update set
  set_key-Reaches s key none d named h =
      let (s', done, put) = laws.put_law (prepare_key prefix key) (document d) s in
      record {
        after = s';
        result = rw (
          key_exists-Holds consul prefix laws s key none h,
          named,
          key_exists-Holds consul prefix laws s key none h,
          done,
        );
        here = under-IsPut-cell (prepare_key prefix key) (document d) none h put;
        announced = sent_after (prepare_key prefix key) (document d) s s' done;
      }
  set_key-Reaches s key (some w) d named h =
      let (s', done, put) = laws.put_law (prepare_key prefix key) (document d) s in
      record {
        after = s';
        result = rw (key_exists-Holds consul prefix laws s key (some w) h, named, done);
        here = under-IsPut-cell (prepare_key prefix key) (document d) (some w) h put;
        announced = sent_after (prepare_key prefix key) (document d) s s' done;
      }

  -- The first value of a component is stored, and nothing is announced.
  pub update_value-new :
      (s : S) (key : String) (event : HealthEvent) (d : Json)
      → (key == "") ≡ false
      → Holds consul prefix laws s key none
      → Reaches s key d [] (update_value consul prefix send key event d)
  unfolding update_value
  update_value-new s key event d named h =
      let r = set_key-Reaches s key none d named h in
      record {
        after = r.after;
        result = rw (key_exists-Holds consul prefix laws s key none h, r.result);
        here = r.here;
        announced = r.announced;
      }

  -- A later value is stored, and its event announced.
  update_value-known :
      (s : S) (key : String) (event : HealthEvent) (old d : Json)
      → (key == "") ≡ false
      → Holds consul prefix laws s key (some (document old))
      → Reaches s key d (event ∷ []) (update_value consul prefix send key event d)
  unfolding update_value
  update_value-known s key event old d named h =
      let r = set_key-Reaches s key (some (document old)) d named h in
      let (s', done, added, kept) = producer.send_law event r.after in
      record {
        after = s';
        result =
            rw (key_exists-Holds consul prefix laws s key (some (document old)) h, r.result, done);
        here = rw (kept, r.here);
        announced = added ∙ ap (λ l. l ++ event ∷ []) (r.announced ∙ append-nil (producer.sent s));
      }

  take_update :
      (s : S) (key : String) (u : Update) (old : Json) (required : Bool)
      → (key == "") ≡ false
      → Holds consul prefix laws s key (some (document old))
      → is_update_required u.event u.before u.value ≡ ok required
      → Reaches s key
          (taken old u required).0
          (taken old u required).1
          (check_and_update consul prefix send key u)
  unfolding check_and_update
  take_update s key u old true named h is =
      let r = update_value-known s key u.event old u.value named h in
      record { after = r.after; result = rw (is, r.result); here = r.here; announced = r.announced }
  take_update s key u old false named h is = record {
    after = s;
    result = rw is;
    here = h;
    announced = sym (append-nil (producer.sent s));
  }

  same_end :
      {s : S} {key : String} {m : Act S (Unit {0})} (d d' : Json) (more more' : List HealthEvent)
      → ◌≡◌ {A = Result (Json × List HealthEvent)} (ok (d', more')) (ok (d, more))
      → Reaches s key d' more' m
      → Reaches s key d more m
  same_end {s = s} {key = key} {m = m} d d' more more' e r =
      let p : ◌≡◌ {A = Json × List HealthEvent} (d', more') (d, more) = cc in
      subst (λ (q : Json × List HealthEvent). Reaches s key q.0 q.1 m) p r

  -- The updates of a plan, carried out one after the other on a stored document, lead to the document
  -- and announce the events that `outcome` gives.
  pub updates-Reaches :
      (us : List Update) (s : S) (key : String) (old d : Json) (events : List HealthEvent)
      → (key == "") ≡ false
      → Holds consul prefix laws s key (some (document old))
      → outcome old us ≡ ok (d, events)
      → Reaches s key d events (for_each us (check_and_update consul prefix send key))
  unfolding for_each outcome
  updates-Reaches [] s key old d events named h e = same_end d old events [] e (record {
    after = s;
    result = refl;
    here = h;
    announced = sym (append-nil (producer.sent s));
  })
  updates-Reaches (u ∷ us) s key old d events named h e =
      let (required, is, more) =
        >>=-eq-ok (is_update_required u.event u.before u.value)
          (λ (required : Bool). outcome (taken old u required).0 us >>= λ rest.
            ok (then_more (taken old u required).1 rest))
          e in
      let ((d', later), rest, same) =
        >>=-eq-ok (outcome (taken old u required).0 us)
          (λ (rest : Json × List HealthEvent). ok (then_more (taken old u required).1 rest)) more in
      let now = take_update s key u old required named h is in
      let after =
        updates-Reaches us now.after key (taken old u required).0 d' later named now.here rest in
      same_end d d' events ((taken old u required).1 ++ later) same (record {
        after = after.after;
        result = rw (now.result, after.result);
        here = after.here;
        announced =
            after.announced
            ∙ ap (λ l. l ++ later) now.announced
            ∙ append_assoc (producer.sent s) (taken old u required).1 later;
      })
