-- ===== src/Controllers/Cluster/Destroy.antt =====
-- `destroy_cluster` of the cluster controller (ha/core/controllers/pcs/cluster_controller.py).
use cortx_ha.Prelude.{ℕ, zero, suc, Bool, true, false, ltb, if◌then◌else◌}
use cortx_ha.Prelude.{Result, ok, raise, runtime_error}
use cortx_ha.Prelude.Acting.{Act, pure, call, ◌>>=◌, ◌>>◌}
use cortx_ha.Json.{Json, null, str}
use cortx_ha.Controllers.Shell.{run_cmd, answer, failed}
use cortx_ha.Controllers.Pcs.{base_wait_time}
use cortx_ha.Controllers.Cluster.{
  NodeController, Site, cluster_retry_count, pcs_cluster_destroy, pcs_cluster_kill,
  is_pcs_cluster_running,
}
use cortx_ha.Controllers.Cluster.Stopping.{stop}

module _ {W : Type 0} (site : Site W) (nodes : NodeController W) where
  unfoldable pub kill_if : Bool → Act W (Unit {0})
  kill_if true = run_cmd site.shell pcs_cluster_kill true >> pure _
  kill_if false = pure _

  -- destroys the cluster if it is down, and says whether it did
  unfoldable pub destroy_if_down : Bool → Bool → Act W Bool
  unfolding kill_if
  destroy_if_down force true = pure false
  destroy_if_down force false = do
    kill_if force
    run_cmd site.shell pcs_cluster_destroy true
    pure true

  -- after the first test: with no retry so far, `stop`, whose answer is never empty, and a second test
  unfoldable pub stop_first : ℕ → Bool → Act W Bool
  unfolding destroy_if_down
  stop_first retry_index true = pure true
  stop_first zero false = do
    call (stop site nodes false)
    running ← is_pcs_cluster_running site nodes
    destroy_if_down false running
  stop_first (suc n) false = pure false

  unfoldable pub destroy_once : ℕ → Bool → Act W Bool
  unfolding stop_first
  destroy_once retry_index force = do
    destroyed ←
        (if ltb retry_index cluster_retry_count
          then (is_pcs_cluster_running site nodes >>= destroy_if_down force)
          else pure false)
    stop_first retry_index destroyed

  unfoldable pub destroyed_or : (W → W × Json) → W × Result Bool → W × Json
  destroyed_or next (w, raise e) =
      (w, answer failed (str "") (site.shell.describe "destroy_cluster" e))
  destroyed_or next (w, ok true) = (w, null)
  destroyed_or next (w, ok false) = next w

  -- what the call of itself answers is not passed on
  abbrev pub null_answer : W × Json → W × Json
  null_answer (w, d) = (w, null)

  unfoldable pub after_sleep : (W → W × Json) → W × Result (Unit {0}) → W × Json
  after_sleep next (w, raise e) =
      (w, answer failed (str "") (site.shell.describe "destroy_cluster" e))
  after_sleep next (w, ok _) = null_answer (next w)

  -- `destroy_cluster`, with the calls of itself that Python's limit on recursion leaves: where none is
  -- left, RecursionError is raised, which the handler of exceptions around each call answers
  unfoldable pub destroy_cluster : ℕ → ℕ → Bool → W → W × Json
  unfolding destroyed_or after_sleep
  destroy_cluster zero retry_index force w =
      (w, answer failed (str "") (site.shell.describe "destroy_cluster" runtime_error))
  destroy_cluster (suc n) retry_index force w =
      destroyed_or
        (λ w1.
          after_sleep (destroy_cluster n (suc retry_index) true)
            (site.shell.sleep base_wait_time w1))
        (destroy_once retry_index force w)
