-- ===== src/Store/KvStore.antt =====
-- ha/util/consul_kv_store.py: `ConsulKvStore` over Consul. The store is given by its prefix.
pub mod Contract
use cortx_ha.Prelude.{String, ◌==◌, Bool, true, false, Option, none, some, is_some, if◌then◌else◌}
use cortx_ha.Prelude.{Exn, Result, ok, raise, generic}
use cortx_ha.Prelude.Dict.{Dict}
use cortx_ha.Prelude.Acting.{Act, pure, fail, ◌>>=◌, ◌>>◌}
use cortx_ha.Store.Key.{prepare_key}
use cortx_ha.Store.Services.{Stored, no_value, Consul}

-- the failed check of `_verify_data`, for a key
abbrev verify_data : {S : Type 0} → String → Act S (Unit {0})
verify_data key = if key == "" then fail generic else pure _

module _ {S : Type 0} (consul : Consul S) (prefix : String) where
  -- `__init__`
  unfoldable pub init : Act S (Unit {0})
  init = if prefix == "" then fail generic else consul.put (prepare_key prefix "") no_value

  unfoldable pub key_exists : String → Act S Bool
  key_exists key = do key_val ← consul.get (prepare_key prefix key); pure (is_some key_val)

  abbrev put_new : String → Stored → Bool → Act S Stored
  put_new key val true = fail generic
  put_new key val false = do consul.put (prepare_key prefix key) val; pure val

  unfoldable pub set : String → Stored → Act S Stored
  set key val = do verify_data key; exists ← key_exists key; put_new key val exists

  unfoldable pub update : String → Stored → Act S Stored
  update key new_val = do verify_data key; consul.put (prepare_key prefix key) new_val; pure new_val

  -- the keys in Consul's answer are distinct, so the dictionary has the same entries
  unfoldable pub get : String → Act S (Option (Dict Stored))
  get key = consul.get (prepare_key prefix key)

  unfoldable pub delete : String → Bool → Act S (Option (Dict Stored))
  delete key recurse = do
    key_val ← get key
    consul.delete (prepare_key prefix key) recurse
    pure key_val
