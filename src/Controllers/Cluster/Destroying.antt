-- ===== src/Controllers/Cluster/Destroying.antt =====
-- What `destroy_cluster` does after its retries.
use cortx_ha.Prelude.{ℕ, zero, suc, ◌≤◌, ◌≡◌, refl, sym, ap, ◌∙◌, Bool, true, false, ltb, arith}
use cortx_ha.Prelude.{ok}
use cortx_ha.Json.{Json, null}
use cortx_ha.Controllers.Pcs.{base_wait_time}
use cortx_ha.Controllers.Cluster.{Site, NodeController, cluster_retry_count}
use cortx_ha.Controllers.Cluster.Destroy.{destroy_once, destroy_cluster, null_answer}

module _ {W : Type 0} (site : Site W) (nodes : NodeController W) where
  destroy_once-late :
      (retry_index : ℕ) (force : Bool) (w : W)
      → cluster_retry_count ≤ retry_index
      → destroy_once site nodes retry_index force w ≡ (w, ok false)
  unfolding destroy_once
  destroy_once-late zero force w late = absurd (omega arith)
  destroy_once-late (suc n) force w late =
      let e : ltb (suc n) cluster_retry_count ≡ false = ground arith in rw e refl

  -- the world after so many pauses
  unfoldable pub paused : ℕ → W → W
  paused zero w = w
  paused (suc n) w = paused n (site.shell.sleep base_wait_time w).0

  late-paused :
      (calls retry_index : ℕ) (force : Bool) (w : W)
      → ((v : W) → (site.shell.sleep base_wait_time v).1 ≡ ok _)
      → cluster_retry_count ≤ retry_index
      → destroy_cluster site nodes (suc calls) retry_index force w
        ≡ null_answer site nodes (
            destroy_cluster site nodes calls
              (suc retry_index)
              true
              (site.shell.sleep base_wait_time w).0)
  unfolding destroy_cluster
  late-paused calls retry_index force w sleeps late =
      let slept : site.shell.sleep base_wait_time w
          ≡ ((site.shell.sleep base_wait_time w).0, ok _) =
        λ i. ((site.shell.sleep base_wait_time w).0, sleeps w i) in
      rw (destroy_once-late retry_index force w late) (rw slept refl)

  last-world :
      (calls retry_index : ℕ) (force : Bool) (w : W)
      → ((v : W) → (site.shell.sleep base_wait_time v).1 ≡ ok _)
      → cluster_retry_count ≤ retry_index
      → (destroy_cluster site nodes calls retry_index force w).0 ≡ paused calls w
  unfolding destroy_cluster paused
  last-world zero retry_index force w sleeps late = refl
  last-world (suc n) retry_index force w sleeps late =
      ap (λ (p : W × Json). p.0) (late-paused n retry_index force w sleeps late)
      ∙ last-world n (suc retry_index) true (site.shell.sleep base_wait_time w).0 sleeps
          (omega arith)

  -- After six retries destroy_cluster answers null, as it does where it has destroyed the cluster, but
  -- it has only paused, once for each call of itself that Python's limit on recursion left it: whether
  -- the cluster is down is not looked up any more and no command is run; for a sleep that raises
  -- nothing and a limit that leaves it one call at least.
  pub destroy_cluster-late :
      (calls retry_index : ℕ) (force : Bool) (w : W)
      → ((v : W) → (site.shell.sleep base_wait_time v).1 ≡ ok _)
      → cluster_retry_count ≤ retry_index
      → destroy_cluster site nodes (suc calls) retry_index force w ≡ (paused (suc calls) w, null)
  destroy_cluster-late calls retry_index force w sleeps late =
      let same = late-paused calls retry_index force w sleeps late in
      let world = last-world (suc calls) retry_index force w sleeps late in
      same ∙ ap (λ v. (v, null)) (sym (ap (λ (p : W × Json). p.0) same) ∙ world)
