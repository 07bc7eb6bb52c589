-- ===== src/Store/KvStore/Contract.antt =====
-- What `ConsulKvStore` promises of a key that is no beginning of another key.
use text.Mathlib.Text.{starts_with}
use cortx_ha.Prelude.{String, ◌≡◌, ◌==◌, false, Option, none, some, is_some}
use cortx_ha.Prelude.{ok, raise, generic}
use cortx_ha.Prelude.Acting.{Act}
use cortx_ha.Store.Key.{prepare_key}
use cortx_ha.Store.Services.{Stored, Consul, IsConsul, under, found}
use cortx_ha.Store.Services.Entries.{
  cell, under-IsPut-cell, under-IsPut_other, under-without-cell, under-without_other,
}
use cortx_ha.Store.KvStore.{key_exists, set, update, get, delete}

module _ {S : Type 0} (consul : Consul S) (prefix : String) (laws : IsConsul consul) where
  -- `key` has the value, and no other key starts with it.
  abbrev pub Holds : S → String → Option Stored → Type 0
  Holds s key o = under (prepare_key prefix key) (laws.entries s) ≡ cell (prepare_key prefix key) o

  -- The step leads to `s'`, returns `a`, and leaves at `key` the value `o`; what stands under a key
  -- that `key` does not start with is as it was.
  pub record Writes {A : Type 0} (s : S) (key : String) (o : Option Stored) (m : Act S A) (a : A)
      : Type 0 where
    pub after : S
    pub result : m s ≡ (after, ok a)
    pub here : Holds after key o
    pub elsewhere :
        (p : String)
        → starts_with (prepare_key prefix key) p ≡ false
        → under p (laws.entries after) ≡ under p (laws.entries s)

  pub get-Holds :
      (s : S) (key : String) (o : Option Stored)
      → Holds s key o
      → get consul prefix key s ≡ (s, ok (found (cell (prepare_key prefix key) o)))
  unfolding get
  get-Holds s key o h = rw (laws.get_law (prepare_key prefix key) s, h)

  pub key_exists-Holds :
      (s : S) (key : String) (o : Option Stored)
      → Holds s key o
      → key_exists consul prefix key s ≡ (s, ok (is_some o))
  unfolding key_exists
  key_exists-Holds s key none h = rw (laws.get_law (prepare_key prefix key) s, h)
  key_exists-Holds s key (some v) h = rw (laws.get_law (prepare_key prefix key) s, h)

  -- On a key that no other key starts with, `update` leaves the value there, and every set of entries
  -- under a key that does not start it as it was.
  pub update-Writes :
      (s : S) (key : String) (o : Option Stored) (v : Stored)
      → (key == "") ≡ false
      → Holds s key o
      → Writes s key (some v) (update consul prefix key v) v
  unfolding update
  update-Writes s key o v named h =
      let (s', done, put) = laws.put_law (prepare_key prefix key) v s in
      record {
        after = s';
        result = rw (named, done);
        here = under-IsPut-cell (prepare_key prefix key) v o h put;
        elsewhere = λ p apart. under-IsPut_other p (prepare_key prefix key) v put apart;
      }

  -- A key that is not there, and that no other key starts with, is set to the value, and every set of
  -- entries under a key that does not start it is as it was.
  pub set-Writes :
      (s : S) (key : String) (v : Stored)
      → (key == "") ≡ false
      → Holds s key none
      → Writes s key (some v) (set consul prefix key v) v
  unfolding set
  set-Writes s key v named h =
      let (s', done, put) = laws.put_law (prepare_key prefix key) v s in
      record {
        after = s';
        result = rw (named, key_exists-Holds s key none h, done);
        here = under-IsPut-cell (prepare_key prefix key) v none h put;
        elsewhere = λ p apart. under-IsPut_other p (prepare_key prefix key) v put apart;
      }

  -- a key that is there is not written again
  pub set_again :
      (s : S) (key : String) (v w : Stored)
      → (key == "") ≡ false
      → Holds s key (some w)
      → set consul prefix key v s ≡ (s, raise generic)
  unfolding set
  set_again s key v w named h = rw (named, key_exists-Holds s key (some w) h)

  -- On a key that no other key starts with, `delete` returns what stood there, leaves nothing there,
  -- and every set of entries under a key that does not start it as it was.
  pub delete-Writes :
      (s : S) (key : String) (o : Option Stored)
      → Holds s key o
      → Writes s key none (delete consul prefix key false) (found (cell (prepare_key prefix key) o))
  unfolding delete
  delete-Writes s key o h =
      let (s', done, gone) = laws.delete_law (prepare_key prefix key) s in
      record {
        after = s';
        result = rw (get-Holds s key o h, done);
        here = rw (gone, under-without-cell (prepare_key prefix key) (laws.entries s) o h);
        elsewhere = λ p apart.
            rw (gone, under-without_other p (prepare_key prefix key) (laws.entries s) apart);
      }
