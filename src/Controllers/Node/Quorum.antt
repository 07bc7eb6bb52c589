-- ===== src/Controllers/Node/Quorum.antt =====
-- When a node may be stopped: `check_cluster_feasibility`.
use cortx_ha.Prelude.{
  ℕ, ◌+◌, ◌*◌, ◌<◌, ◌≤◌, String, ◌≡◌, refl, false, List, length, ◌↔◌, arith, eq_iff, inl, inr,
  Bool-cases, sym, ap, ◌∙◌,
}
use cortx_ha.Prelude.{ok}
use cortx_ha.Json.{str}
use cortx_ha.Controllers.Shell.{controller_error_handler, answer, succeeded, failed}
use cortx_ha.Controllers.Pcs.{get_node_list}
use cortx_ha.Controllers.Node.{
  Site, get_node_name, loses_quorum, get_offline_nodes, quorum_answer, check_cluster_feasibility,
}

-- a majority of the nodes stays online without one more
loses_quorum_iff : (n k : ℕ) → (loses_quorum n k ≡ false) ↔ (2 * (k + 1) < n)
unfolding loses_quorum
loses_quorum_iff n k = (λ h. ground arith, λ h. ground arith)

module _ {W : Type 0} (site : Site W) (node_id : String) {node_name : String} (w : W) {w1 w2 : W}
    {node_list offline_nodes : List String}
    (named : get_node_name site.nodeid_dict node_id ≡ ok node_name)
    (listed : get_node_list site.shell w ≡ (w1, ok node_list))
    (off : get_offline_nodes site w1 ≡ (w2, ok offline_nodes)) where
  feasible_by :
      check_cluster_feasibility site node_id w
      ≡ (w2, quorum_answer (loses_quorum (length node_list) (length offline_nodes)))
  unfolding check_cluster_feasibility controller_error_handler
  feasible_by = rw (named, listed, off) refl

  -- Where the nodes and those not online are known, stopping one is feasible exactly when the rest of
  -- the nodes online are a majority of all; if it is not, the answer is the failure for the quorum.
  pub check_cluster_feasibility-Majority :
      ((check_cluster_feasibility site node_id w ≡ (w2, answer succeeded (str "") ""))
        ↔ (2 * (length offline_nodes + 1) < length node_list))
      × (length node_list ≤ 2 * (length offline_nodes + 1)
          → check_cluster_feasibility site node_id w
            ≡ (w2, answer failed (str "") "Stopping the node will cause a loss of the quorum"))
  check_cluster_feasibility-Majority =
      let (to, from) = loses_quorum_iff (length node_list) (length offline_nodes) in
      elim (Bool-cases (loses_quorum (length node_list) (length offline_nodes))) [
        | inl yes' ↦ (
          (
            λ h. let same = sym feasible_by ∙ h in ground (arith, eq_iff "Failed" "Succeeded"),
            λ h. cc (from h),
          ),
          λ h. feasible_by ∙ ap (λ b. (w2, quorum_answer b)) yes',
        )
        | inr no' ↦ (
          (λ h. to no', λ h. feasible_by ∙ ap (λ b. (w2, quorum_answer b)) no'),
          λ h. absurd (omega (arith, to no')),
        )
      ]
