-- ===== src/Controllers/Node/Halting.antt =====
-- When `stop` of a virtual machine's node controller says Succeeded.
use cortx_ha.Prelude.{
  String, ◌≡◌, sym, ap, ◌∙◌, Bool, true, false, arith, eq_iff, inl, inr, Bool-cases, ◌||◌,
}
use cortx_ha.Prelude.{Result, ok, cluster_manager}
use cortx_ha.Prelude.Acting.{continue-eq-ok, lift-eq-ok, pure-eq-ok, recast-eq-ok}
use cortx_ha.Json.{
  Json, str, null, obj, bool, num, arr, or_null, get_of, field?, is_text, is_none, is_text_iff,
  subscript,
}
use cortx_ha.Controllers.Shell.{run_cmd, succeeded, failed}
use cortx_ha.Controllers.Pcs.{heal_resource}
use cortx_ha.Controllers.Node.{
  Site, get_node_name, pcs_node_standby, update_health, stop, stop_vm_by, stop_vm, put_standby,
  check_if, null_unless_failed, wait_if, stop_by, check_cluster_feasibility,
}
use cortx_ha.Controllers.Node.Success.{Succeeds, pure-Succeeds, handled-Succeeds}
use cortx_ha.Controllers.Node.Starting.{ok-injective}

module _ {W : Type 0} (site : Site W) (node_id : String) where
  put_standby-fails :
      (node_name : String) (w : W) {w' : W} {d : Json}
      → put_standby site node_id node_name w ≡ (w', ok d)
      → ⊥
  unfolding put_standby update_health
  put_standby-fails node_name w same =
      let (w1, _, _, s1) =
        continue-eq-ok (run_cmd site.shell (pcs_node_standby node_name) true w) _ same in
      cc s1

  null_unless_failed-fails :
      (res : Json) {d : Json} → null_unless_failed site res ≡ ok d → Succeeds d → ⊥
  unfolding null_unless_failed get_of is_text field?
  null_unless_failed-fails (obj fs) {d} same h =
      elim (Bool-cases (is_text (or_null (field? fs "status")) failed)) [
        | inl e ↦
            let d_eq : obj fs ≡ d = ok-injective (rw e at same) in
            let succ : or_null (field? fs "status") ≡ str succeeded =
              ok-injective (rw (← d_eq) at h) in
            ground (
              arith,
              (is_text_iff (or_null (field? fs "status")) failed).0 e,
              eq_iff "Failed" "Succeeded",
            )
        | inr e ↦ let d_eq : null ≡ d = ok-injective (rw e at same) in cc (rw (← d_eq) at h)
      ]
  null_unless_failed-fails null same h = cc
  null_unless_failed-fails (bool b) same h = cc
  null_unless_failed-fails (num n) same h = cc
  null_unless_failed-fails (str t) same h = cc
  null_unless_failed-fails (arr xs) same h = cc

  check_if-fails :
      (check_cluster : Bool) (w : W) {w' : W} {d : Json}
      → check_if site node_id check_cluster w ≡ (w', ok d)
      → Succeeds d
      → ⊥
  unfolding check_if get_of
  check_if-fails false w {w'} {d} same h =
      let (_, e) = pure-eq-ok w w' null d same in cc (rw (← e) at h)
  check_if-fails true w same h =
      null_unless_failed-fails (check_cluster_feasibility site node_id w).1
        (ap (λ (p : W × Result Json). p.1) same) h

  stop_by-Offline :
      (node_name : String) (check_cluster : Bool) (node_status : Json) (w : W) {w' : W} {d : Json}
      → stop_by site node_id node_name check_cluster node_status w ≡ (w', ok d)
      → Succeeds d
      → (node_status ≡ str "offline") × (w' ≡ w)
  unfolding stop_by
  stop_by-Offline node_name check_cluster node_status w {w'} {d} same h =
      elim (Bool-cases (is_text node_status "offline")) [
        | inl e ↦
            ((is_text_iff node_status "offline").0 e, sym (pure-eq-ok w w' _ d (rw e at same)).0)
        | inr e ↦ elim (Bool-cases (is_text node_status "failed")) [
          | inl k ↦ absurd (pure-Succeeds site (str "") _ (rw (e, k) at same) h)
          | inr k ↦
              let (w1, healed, _, s1) =
                continue-eq-ok (heal_resource site.shell node_name w) _ (rw (e, k) at same) in
              let (w2, _, _, s2) = continue-eq-ok (wait_if site healed w1) _ s1 in
              absurd (check_if-fails check_cluster w2 s2 h)
        ]
      ]

  -- what `stop` saw of a node that it reports as stopped
  pub record AlreadyOffline (w w' : W) : Type 0 where
    pub health : Json
    pub asked : site.get_node_status node_id w ≡ (w', ok health)
    pub is_offline : get_of health "status" ≡ ok (str "offline")

  stop-AlreadyOffline :
      (check_cluster : Bool) (w : W) {w' : W} {d : Json}
      → stop site node_id check_cluster w ≡ (w', d)
      → Succeeds d
      → AlreadyOffline w w'
  unfolding stop
  stop-AlreadyOffline check_cluster w {w'} {d} same h =
      let s0 = handled-Succeeds site.shell "stop" _ w same h in
      let (node_name, _, s1) = lift-eq-ok w (get_node_name site.nodeid_dict node_id) _ s0 in
      let (w1, health, asked, s2) =
        continue-eq-ok (site.get_node_status node_id w) _ (recast-eq-ok cluster_manager _ s1) in
      let (node_status, health_eq, s3) = lift-eq-ok w1 (get_of health "status") _ s2 in
      let (off, last) = stop_by-Offline node_name check_cluster node_status w1 s3 h in
      record {
        health = health;
        asked = asked ∙ ap (λ v. (v, ok health)) (sym last);
        is_offline = health_eq ∙ ap ok off;
      }

  stop_vm_by-passes_on :
      (node_name : String) (stop_status : Json) (w : W) {w' : W} {d : Json}
      → stop_vm_by site node_id node_name stop_status w ≡ (w', ok d)
      → (w ≡ w') × (stop_status ≡ d)
  unfolding stop_vm_by
  stop_vm_by-passes_on node_name stop_status w {w'} {d} same =
      elim (Bool-cases (is_none stop_status)) [
        | inl e ↦ absurd (put_standby-fails node_name w (rw e at same))
        | inr e ↦
            let (status, _, s1) = lift-eq-ok w (subscript stop_status "status") _ (rw e at same) in
            elim (Bool-cases (is_text status succeeded || is_text status failed)) [
              | inl k ↦ pure-eq-ok w w' stop_status d (rw k at s1)
              | inr k ↦ absurd (put_standby-fails node_name w (rw k at s1))
            ]
      ]

  -- Where `stop` of a virtual machine says Succeeded, the node was offline in the system's health
  -- already, and nothing but that look-up was run.
  pub stop_vm-AlreadyOffline :
      (check_cluster : Bool) (w : W) {w' : W} {d : Json}
      → stop_vm site node_id check_cluster w ≡ (w', d)
      → Succeeds d
      → AlreadyOffline w w'
  unfolding stop_vm
  stop_vm-AlreadyOffline check_cluster w {w'} {d} same h =
      let s0 = handled-Succeeds site.shell "stop" _ w same h in
      let (node_name, _, s1) = lift-eq-ok w (get_node_name site.nodeid_dict node_id) _ s0 in
      let (same_w, same_d) =
        stop_vm_by-passes_on node_name (stop site node_id check_cluster w).1
          (stop site node_id check_cluster w).0 (recast-eq-ok cluster_manager _ s1) in
      stop-AlreadyOffline check_cluster w (λ i. (same_w i, same_d i)) h
