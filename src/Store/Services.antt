-- ===== src/Store/Services.antt =====
-- Consul (the python-consul package), which is not part of the repository: a record of operations on
-- a state that is its own, and what its documentation promises of them.
pub mod Entries
use text.Mathlib.Text.{starts_with}
use cortx_ha.Prelude.{
  String, ◌≡◌, ◌==◌, Bool, true, false, List, [], ◌∷◌, ◌++◌, Option, none, some, if◌then◌else◌,
}
use cortx_ha.Prelude.{Exn, Result, ok, raise, type_error, generic}
use cortx_ha.Json.{Json}
use cortx_ha.Prelude.Dict
use cortx_ha.Prelude.Dict.{Dict}
use cortx_ha.Prelude.Acting.{Act}

-- A value of the store: what `json.dumps` writes of a list of texts or of a health value, any other
-- text, or None.
pub data Stored : Type 0 where
  names : List String → Stored
  document : Json → Stored
  plain : String → Stored
  no_value : Stored

-- `json.loads(v)`, where a list of texts is expected; no such value is under a key of a health value
abbrev pub loads : Stored → Result (List String)
loads (names l) = ok l
loads (document d) = raise type_error
loads (plain t) = raise generic
loads no_value = raise type_error

-- `get k` is `consul.kv.get(k, recurse=True)[1]`; `put` and `delete` are `consul.kv.put` and
-- `consul.kv.delete`.
pub record Consul (S : Type 0) : Type 0 where
  pub get : String → Act S (Option (Dict Stored))
  pub put : String → Stored → Act S (Unit {0})
  pub delete : String → Bool → Act S (Unit {0})

-- the entries whose keys start with `k`
unfoldable pub under : String → Dict Stored → Dict Stored
under k [] = []
under k ((j, v) ∷ d) = if starts_with j k then (j, v) ∷ under k d else under k d

-- the answer of a recursive `get`: None where no key starts with `k`
abbrev pub found : Dict Stored → Option (Dict Stored)
found [] = none
found (e ∷ d) = some (e ∷ d)

-- the entries without that of `k`
unfoldable pub without : String → Dict Stored → Dict Stored
without k [] = []
without k ((j, v) ∷ d) = if j == k then without k d else (j, v) ∷ without k d

-- `d'` is `d` with `v` at `k`; a new key may come anywhere, since Consul keeps its keys in order.
pub data IsPut (k : String) (v : Stored) : Dict Stored → Dict Stored → Type 0 where
  replaced : (d : Dict Stored) → Dict.has_key d k ≡ true → IsPut k v d (Dict.put d k v)
  inserted :
      (l r : Dict Stored) → Dict.has_key (l ++ r) k ≡ false → IsPut k v (l ++ r) (l ++ (k, v) ∷ r)

-- A Consul that answers: `entries` are what it holds.
pub record IsConsul {S : Type 0} (consul : Consul S) : Type 0 where
  pub entries : S → Dict Stored
  pub get_law : (k : String) (s : S) → consul.get k s ≡ (s, ok (found (under k (entries s))))
  pub put_law :
      (k : String) (v : Stored) (s : S)
      → (s' : S) × (consul.put k v s ≡ (s', ok _)) × IsPut k v (entries s) (entries s')
  pub delete_law :
      (k : String) (s : S)
      → (s' : S) × (consul.delete k false s ≡ (s', ok _)) × (entries s' ≡ without k (entries s))
