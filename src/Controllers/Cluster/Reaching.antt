-- ===== src/Controllers/Cluster/Reaching.antt =====
-- What the cluster controller has seen of the cluster where it says that an operation succeeded.
use cortx_ha.Prelude.{
  ℕ, zero, suc, ◌+◌, ◌/◌, ◌≤◌, String, ◌≡◌, ◌≢◌, refl, sym, ap, ◌∙◌, Bool, true, false, [], ◌∷◌,
  length, subst, arith, eq_iff, inl, inr, Bool-cases,
}
use cortx_ha.Prelude.{Result, ok, raise, cluster_manager}
use cortx_ha.Prelude.Acting.{attempt, continue-eq-ok, lift-eq-ok, pure-eq-ok}
use cortx_ha.Json.{Json, str, field?, subscript, get_of, is_text, is_text_iff}
use cortx_ha.Controllers.NodeStatuses
use cortx_ha.Controllers.Pcs.{get_filtered_nodes}
use cortx_ha.Controllers.Shell.{
  run_cmd, caught, controller_error_handler, answer, succeeded, failed, in_progress,
}
use cortx_ha.Controllers.Node.Success.{Succeeds, not_succeeded, handled-Succeeds}
use cortx_ha.Controllers.Status.{ClusterStatus, get_cluster_health, init, load}
use cortx_ha.Controllers.Status.Health.{IsOnline, get_cluster_health-IsOnline}
use cortx_ha.Controllers.Cluster.{
  Site, NodeController, load_and_answer, or_retry, status, met_or, verify,
  verify_expected_cluster_status, in_time, check_interval, time_left, rounds, finish,
  is_pcs_cluster_running, fail_unless, get_node_group, group_of, other_groups, flat,
}
use cortx_ha.Controllers.Cluster.Starting.{start_cluster_if_down, start_all, check_failed, start}
use cortx_ha.Controllers.Cluster.Stopping.{
  stop_nodes, pcs_stop_cluster, stop_limit, stop_text, stop,
}

-- the answer has the output, and no answer of a failure has it
abbrev Shows : String → Json → Type 0
Shows expected d = subscript d "output" ≡ ok (str expected)

get_cluster_health-online :
    (s : ClusterStatus)
    → Shows "online" (get_cluster_health s)
    → get_cluster_health s ≡ answer succeeded (str "online") ""
unfolding get_cluster_health subscript field?
get_cluster_health-online s h = ground (
  arith,
  eq_iff "offline" "online",
  eq_iff "standby" "online",
  eq_iff "unhealthy" "online",
  eq_iff "degraded" "online",
  eq_iff "" "online",
)

get_cluster_health-offline :
    (s : ClusterStatus)
    → Shows "offline" (get_cluster_health s)
    → length s.nodes_configured / 2 + 1 ≤ length s.offline
unfolding get_cluster_health subscript field?
get_cluster_health-offline s h = ground (
  arith,
  eq_iff "standby" "offline",
  eq_iff "unhealthy" "offline",
  eq_iff "degraded" "offline",
  eq_iff "online" "offline",
  eq_iff "" "offline",
)

shown_text :
    (expected : String) (error : String) {d : Json}
    → answer failed (str "Retry Suggested.") error ≡ d
    → Shows expected d
    → expected ≡ "Retry Suggested."
unfolding subscript field?
shown_text expected error {d} same h =
    let shown : Shows expected (answer failed (str "Retry Suggested.") error) =
      subst (Shows expected) (sym same) h in
    ground (arith, eq_iff "Retry Suggested." expected)

in_progress-fails :
    (output : Json) (error : String) → Succeeds (answer in_progress output error) → ⊥
unfolding get_of field?
in_progress-fails output error h = ground (arith, eq_iff "InProgress" "Succeeded")

module _ {W : Type 0} (site : Site W) (nodes : NodeController W) where
  -- the last thing done was to load the status of the cluster, which is what was expected
  pub record Reached (expected : String) (w' : W) : Type 0 where
    pub before : W
    pub loaded : ClusterStatus
    pub load_eq :
        load site.shell site.execute site.fromstring (init site.nodelist) before ≡ (w', ok loaded)
    pub shows : Shows expected (get_cluster_health loaded)

  or_retry-Reached :
      (expected : String) (p : W × Result Json) {w' : W} {d : Json}
      → expected ≢ "Retry Suggested."
      → or_retry site nodes p ≡ (w', ok d)
      → Shows expected d
      → p ≡ (w', ok d)
  unfolding or_retry subscript field?
  or_retry-Reached expected (w, ok d) no_retry same h = same
  or_retry-Reached expected (w, raise e) {w'} {d} no_retry same h =
      absurd (no_retry (shown_text expected (site.shell.describe "status" e) {d = d} (cc) h))

  caught-or_retry :
      (p : W × Result Json) {w' : W} {d : Json}
      → caught site.shell "status" (or_retry site nodes p) ≡ (w', d)
      → or_retry site nodes p ≡ (w', ok d)
  unfolding caught or_retry
  caught-or_retry (w, ok d) same = cc
  caught-or_retry (w, raise e) same = cc

  status-Reached :
      (expected : String) (w : W) {w' : W} {d : Json}
      → expected ≢ "Retry Suggested."
      → status site nodes w ≡ (w', d)
      → Shows expected d
      → Reached expected w'
  unfolding status controller_error_handler load_and_answer
  status-Reached expected w {w'} {d} no_retry same h =
      let retried = caught-or_retry (load_and_answer site nodes w) same in
      let loaded = or_retry-Reached expected (load_and_answer site nodes w) no_retry retried h in
      let (w1, s, load_eq, s1) =
        continue-eq-ok (load site.shell site.execute site.fromstring (init site.nodelist) w) _
          loaded in
      let (v_eq, health) = pure-eq-ok w1 w' (get_cluster_health s) d s1 in
      record {
        before = w;
        loaded = s;
        load_eq = load_eq ∙ ap (λ u. (u, ok s)) v_eq;
        shows = ap (λ x. subscript x "output") health ∙ h;
      }

  verify-Reached :
      (n : ℕ) (expected : String) (w : W) {w' : W}
      → expected ≢ "Retry Suggested."
      → verify site nodes n expected w ≡ (w', ok true)
      → Reached expected w'
  unfolding verify
  verify-Reached zero expected w no_retry same = cc
  verify-Reached (suc n) expected w {w'} no_retry same =
      let w1 = (status site nodes w).0 in
      let result = (status site nodes w).1 in
      let (output, shown, s1) =
        lift-eq-ok w1 (subscript result "output")
          (λ output. met_or site nodes (verify site nodes n expected) (is_text output expected))
          same in
      elim (Bool-cases (is_text output expected)) [
        | inl met ↦
            let (at_end, _) = pure-eq-ok w1 w' true true (rw met at s1) in
            status-Reached expected w no_retry (ap (λ v. (v, result)) at_end)
              (shown ∙ ap ok ((is_text_iff output expected).0 met))
        | inr not_met ↦
            let (w2, _, slept, s2) =
              continue-eq-ok (site.shell.sleep check_interval w1) _ (rw not_met at s1) in
            verify-Reached n expected w2 no_retry s2
      ]

  in_time-Succeeds :
      (message : String) (reached : Bool)
      → Succeeds (in_time site nodes message reached)
      → reached ≡ true
  in_time-Succeeds message true h = refl
  in_time-Succeeds message false h =
      absurd (not_succeeded (str "Retry suggested.") "Operation timed out." h)

  finish-Reached :
      (sync : Bool) (limit group_count : ℕ) (expected message : String) (otherwise : Json) (w : W)
      {w' : W} {d : Json}
      → expected ≢ "Retry Suggested."
      → ¬ Succeeds otherwise
      → finish site nodes sync limit group_count expected message otherwise w ≡ (w', ok d)
      → Succeeds d
      → Reached expected w'
  unfolding finish verify_expected_cluster_status
  finish-Reached false limit group_count expected message otherwise w {w'} {d} no_retry no_success
        same h =
      let (_, e) = pure-eq-ok w w' otherwise d same in absurd (no_success (rw e h))
  finish-Reached true limit group_count expected message otherwise w {w'} {d} no_retry no_success
        same h =
      let (w1, reached, verified, s1) =
        continue-eq-ok
          (verify_expected_cluster_status site nodes expected (time_left limit group_count) w) _
          same in
      let (v_eq, told) = pure-eq-ok w1 w' (in_time site nodes message reached) d s1 in
      verify-Reached (rounds (time_left limit group_count)) expected w no_retry (
        verified
        ∙ ap (λ b. (w1, ok b)) (in_time-Succeeds message reached (rw told h))
        ∙ ap (λ u. (u, ok true)) v_eq)

  -- Where `start` says Succeeded, the last thing it did was to load the status of the cluster, and by
  -- that at least as many nodes are online as are configured, the cluster has exactly as many nodes,
  -- and no service is unhealthy.
  pub start-Online :
      (sync : Bool) (limit : ℕ) (w : W) {w' : W} {d : Json}
      → start site nodes sync limit w ≡ (w', d)
      → Succeeds d
      → (reached : Reached "online" w') × IsOnline reached.loaded
  unfolding start
  start-Online sync limit w {w'} {d} same h =
      let s = handled-Succeeds site.shell "start" _ w same h in
      let (w1, running, _, s1) = continue-eq-ok (is_pcs_cluster_running site nodes w) _ s in
      let (w2, _, _, s2) = continue-eq-ok (start_cluster_if_down site nodes running w1) _ s1 in
      let (w3, started, _, s3) = continue-eq-ok (start_all site nodes w2) _ s2 in
      let (w4, _, _, s4) = continue-eq-ok (check_failed site nodes started.1 w3) _ s3 in
      let reached =
        finish-Reached sync limit (length started.0) "online" "Cluster is online."
          (answer in_progress (str "Cluster start operation performed") "") w4
          (λ e. ground (arith, eq_iff "online" "Retry Suggested."))
          (in_progress-fails (str "Cluster start operation performed") "") s4 h in
      (
        reached,
        get_cluster_health-IsOnline reached.loaded
            (get_cluster_health-online reached.loaded reached.shows),
      )

  -- Where `stop` says Succeeded, the last thing it did was to load the status of the cluster, and by
  -- that a majority of the configured nodes is offline.
  pub stop-Offline :
      (sync : Bool) (w : W) {w' : W} {d : Json}
      → stop site nodes sync w ≡ (w', d)
      → Succeeds d
      → (reached : Reached "offline" w') × (length reached.loaded.nodes_configured / 2 + 1
          ≤ length reached.loaded.offline)
  unfolding stop
  stop-Offline sync w {w'} {d} same h =
      let s = handled-Succeeds site.shell "stop" _ w same h in
      let (w1, running, _, s1) = continue-eq-ok (is_pcs_cluster_running site nodes w) _ s in
      let (w2, _, _, s2) =
        continue-eq-ok (fail_unless site nodes cluster_manager running w1) _ s1 in
      let (w3, node_group, _, s3) = continue-eq-ok (get_node_group site nodes w2) _ s2 in
      let (self_group, _, s4) = lift-eq-ok w3 (group_of site.local_node node_group) _ s3 in
      let (w4, offline, _, s5) =
        continue-eq-ok (get_filtered_nodes site.shell (NodeStatuses.poweroff ∷ []) w3) _ s4 in
      let rest = other_groups site.local_node node_group in
      let (w5, offline_nodes, _, s6) =
        continue-eq-ok (stop_nodes site nodes (flat rest) offline w4) _ s5 in
      let (w6, _, _, s7) =
        continue-eq-ok
          (attempt cluster_manager
            (run_cmd site.shell (pcs_stop_cluster site nodes self_group) true) w5)
          _ s6 in
      let reached =
        finish-Reached sync (stop_limit site nodes self_group) (length rest) "offline"
          "Cluster is offline." (answer in_progress (str (stop_text site nodes offline_nodes)) "")
          w6 (λ e. ground (arith, eq_iff "offline" "Retry Suggested."))
          (in_progress-fails (str (stop_text site nodes offline_nodes)) "") s7 h in
      (reached, get_cluster_health-offline reached.loaded reached.shows)
