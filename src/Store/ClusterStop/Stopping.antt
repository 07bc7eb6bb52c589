-- ===== src/Store/ClusterStop/Stopping.antt =====
-- What a message does to the stop key.
use cortx_ha.Prelude.{
  String, ◌≡◌, refl, Bool, false, Option, none, some, if◌then◌else◌, Bool-cases, inl, inr,
}
use cortx_ha.Prelude.{Result, ok, raise}
use cortx_ha.Json.{Json, subscript}
use cortx_ha.Bus.Consumer.{success}
use cortx_ha.Store.Services.{Stored, plain, Consul, IsConsul}
use cortx_ha.Store.KvStore.Contract.{Holds, key_exists-Holds, update-Writes, set-Writes}
use cortx_ha.Store.ClusterStop.{
  cluster_stop_key, cluster_stop_val_enable, is_one, stop_cluster, process_message,
}

-- the flag of a message, if it has one
abbrev pub asks_to_stop : Result Json → Bool
asks_to_stop (raise e) = false
asks_to_stop (ok d) = by_flag (subscript d "start_cluster_shutdown")
  where
    by_flag : Result Json → Bool
    by_flag (raise e) = false
    by_flag (ok flag) = is_one flag

module _ {S : Type 0} (consul : Consul S) (prefix : String) (laws : IsConsul consul) where
  -- The message is acknowledged in the state `after`, in which the stop key has the value.
  pub record Acknowledges (s : S) (o : Option Stored) (message : Result Json) : Type 0 where
    pub after : S
    pub result : process_message consul prefix message s ≡ (after, success)
    pub here : Holds consul prefix laws after cluster_stop_key o

  stopped :
      (s : S) (o : Option Stored)
      → Holds consul prefix laws s cluster_stop_key o
      → (s' : S) × (stop_cluster consul prefix s ≡ (s', ok _))
        × Holds consul prefix laws s' cluster_stop_key (some (plain cluster_stop_val_enable))
  unfolding stop_cluster
  stopped s none h =
      let w =
        set-Writes consul prefix laws s cluster_stop_key (plain cluster_stop_val_enable) refl h in
      (
        w.after,
        rw (key_exists-Holds consul prefix laws s cluster_stop_key none h, w.result),
        w.here,
      )
  stopped s (some v) h =
      let w =
        update-Writes consul prefix laws s cluster_stop_key (some v) (plain cluster_stop_val_enable)
          refl h in
      (
        w.after,
        rw (key_exists-Holds consul prefix laws s cluster_stop_key (some v) h, w.result),
        w.here,
      )

  -- Every message is acknowledged. One that asks to stop the cluster leaves "1" at the stop key, whether
  -- the key was there or not, and any other message, readable or not, leaves the key as it was, where no
  -- other key starts with the stop key.
  pub process_message-Acknowledges :
      (s : S) (o : Option Stored) (message : Result Json)
      → Holds consul prefix laws s cluster_stop_key o
      → Acknowledges s
          (if asks_to_stop message then some (plain cluster_stop_val_enable) else o)
          message
  unfolding process_message
  process_message-Acknowledges s o (raise e) h = record { after = s; result = refl; here = h }
  process_message-Acknowledges s o (ok d) h = by_flag (subscript d "start_cluster_shutdown") refl
    where
      by_flag :
          (r : Result Json)
          → subscript d "start_cluster_shutdown" ≡ r
          → Acknowledges s
              (if asks_to_stop (ok d) then some (plain cluster_stop_val_enable) else o)
              (ok d)
      by_flag (raise e) flag = record { after = s; result = rw flag; here = rw (flag, h) }
      by_flag (ok f) flag = elim (Bool-cases (is_one f)) [
        | inl one ↦
            let (s', done, here) = stopped s o h in
            record { after = s'; result = rw (flag, one, done); here = rw (flag, one, here) }
        | inr other ↦ record { after = s; result = rw (flag, other); here = rw (flag, other, h) }
      ]
