-- ===== src/Store/ClusterStop.antt =====
-- ha/fault_tolerance/cluster_stop_monitor.py: the message that tells that the cluster is stopped, and the
-- key of the store that the Kubernetes monitor reads. `ast.literal_eval` gives the document of a text.
pub mod Stopping
use cortx_ha.Prelude.{String, ◌==◌, Bool, true, false, eqb, if◌then◌else◌}
use cortx_ha.Prelude.{Exn, Result, ok, raise}
use cortx_ha.Prelude.Acting.{Act, pure, lift, ◌>>=◌, ◌>>◌}
use cortx_ha.Json.{Json, num, bool, subscript}
use cortx_ha.Bus.Consumer.{Status, success}
use cortx_ha.Store.Services.{Stored, plain, Consul}
use cortx_ha.Store.KvStore.{key_exists, set, update}

-- CLUSTER_STOP_KEY and CLUSTER_STOP_VAL_ENABLE of ha/const.py
abbrev pub cluster_stop_key : String
cluster_stop_key = "cluster_stop_key"

abbrev pub cluster_stop_val_enable : String
cluster_stop_val_enable = "1"

-- `d == 1`; a true Boolean equals 1
abbrev pub is_one : Json → Bool
is_one (num n) = eqb n 1
is_one (bool b) = b
is_one _ = false

module _ {S : Type 0} (consul : Consul S) (prefix : String) where
  abbrev enable : Bool → Act S (Unit {0})
  enable true = update consul prefix cluster_stop_key (plain cluster_stop_val_enable) >> pure _
  enable false = set consul prefix cluster_stop_key (plain cluster_stop_val_enable) >> pure _

  unfoldable pub stop_cluster : Act S (Unit {0})
  stop_cluster = do exists ← key_exists consul prefix cluster_stop_key; enable exists

  abbrev stop_if : Json → Act S (Unit {0})
  stop_if flag = if is_one flag then stop_cluster else pure _

  abbrev stop_by : Result Json → Act S (Unit {0})
  stop_by message = do
    cluster_alert ← lift message
    flag ← lift (subscript cluster_alert "start_cluster_shutdown")
    stop_if flag

  -- both ways out return SUCCESS
  abbrev acknowledged : S × Result (Unit {0}) → S × Status
  acknowledged (s, r) = (s, success)

  unfoldable pub process_message : Result Json → S → S × Status
  process_message message s = acknowledged (stop_by message s)
