-- ===== src/Controllers/Node/Starting.antt =====
-- When `start` of the node controller says Succeeded.
use cortx_ha.Prelude.{
  ◌*◌, String, ◌==◌, ◌≡◌, sym, ap, ◌∙◌, Bool, true, false, [], ◌∷◌, some, arith, eqb, eq_iff, inl,
  inr, Bool-cases, ◌||◌, ◌&&◌,
}
use cortx_ha.Prelude.{Result, ok, cluster_manager}
use cortx_ha.Prelude.Acting.{continue-eq-ok, lift-eq-ok, recast-eq-ok}
use cortx_ha.Prelude.Dict
use cortx_ha.Prelude.Dict.{Dict}
use cortx_ha.Json.{Json, str, get_of, is_text, is_text_iff}
use cortx_ha.Controllers.NodeStatuses
use cortx_ha.Controllers.Shell.{Output, run_cmd}
use cortx_ha.Controllers.Pcs.{base_wait_time, nodes_status, is_node_in_cluster, heal_resource}
use cortx_ha.Controllers.Node.{
  Site, get_node_name, pcs_node_start, pcs_node_unstandby, node_status_or, update_health,
  updated_or_failed, unstandby, unstandby_if, started, start_by, start,
}
use cortx_ha.Controllers.Node.Success.{Succeeds, pure-Succeeds, handled-Succeeds}

pub ok-injective : {A : Type 0} {a b : A} → ok a ≡ ok b → a ≡ b
ok-injective e = cc

module _ {W : Type 0} (site : Site W) (node_id : String) where
  updated_or_failed-fails :
      (o : Output) (w : W) {w' : W} {d : Json}
      → updated_or_failed site node_id o w ≡ (w', ok d)
      → Succeeds d
      → ⊥
  unfolding updated_or_failed update_health
  updated_or_failed-fails o w same h = elim (Bool-cases (eqb o.rc 0)) [
    | inl e ↦ cc (rw e at same)
    | inr e ↦ pure-Succeeds site (str "") _ (rw e at same) h
  ]

  unstandby-fails :
      (node_name : String) (w : W) {w' : W} {d : Json}
      → unstandby site node_id node_name w ≡ (w', ok d)
      → Succeeds d
      → ⊥
  unfolding unstandby
  unstandby-fails node_name w same h =
      let (w1, o, _, s) =
        continue-eq-ok (run_cmd site.shell (pcs_node_unstandby node_name) false w) _ same in
      updated_or_failed-fails o w1 s h

  unstandby_if-fails :
      (node_name : String) (healed : Bool) (w : W) {w' : W} {d : Json}
      → unstandby_if site node_id node_name healed w ≡ (w', ok d)
      → Succeeds d
      → ⊥
  unfolding unstandby_if
  unstandby_if-fails node_name true w same h = unstandby-fails node_name w same h
  unstandby_if-fails node_name false w same h = pure-Succeeds site (str "") _ same h

  started-fails :
      (node_name : String) (o : Output) (w : W) {w' : W} {d : Json}
      → started site node_id node_name o w ≡ (w', ok d)
      → Succeeds d
      → ⊥
  unfolding started update_health
  started-fails node_name o w same h = elim (Bool-cases (eqb o.rc 0)) [
    | inl e ↦
        let (w1, _, _, s1) =
          continue-eq-ok (site.shell.sleep (base_wait_time * 2) w) _ (rw e at same) in
        let (w2, statuses, _, s2) =
          continue-eq-ok (nodes_status site.shell (some (node_name ∷ [])) w1) _ s1 in
        let (w3, status, _, s3) =
          continue-eq-ok (w2, node_status_or site statuses node_name) _ s2 in
        elim (Bool-cases (status == NodeStatuses.standby)) [
          | inl k ↦ unstandby-fails node_name w3 (rw k at s3) h
          | inr k ↦ cc (rw k at s3)
        ]
    | inr e ↦ pure-Succeeds site (str "") _ (rw e at same) h
  ]

  -- `start` does nothing to a node that it reports as started.
  start_by-Online :
      (node_name node_status : String) (health : Json) (w : W) {w' : W} {d : Json}
      → start_by site node_id node_name node_status health w ≡ (w', ok d)
      → Succeeds d
      → (node_status ≡ NodeStatuses.online) × (health ≡ str "online") × (w' ≡ w)
  unfolding start_by
  start_by-Online node_name node_status health w same h =
      elim (Bool-cases (node_status == NodeStatuses.online && is_text health "online")) [
        | inl e ↦ (
          ground (arith, eq_iff node_status NodeStatuses.online),
          (is_text_iff health "online").0 (ground arith),
          ap (λ (p : W × Result Json). p.0) (sym (rw e at same)),
        )
        | inr e ↦ absurd (start_by-other e)
      ]
    where
      start_by-other : (node_status == NodeStatuses.online && is_text health "online") ≡ false → ⊥
      start_by-other e =
          elim (Bool-cases (
            node_status == NodeStatuses.standby
            || node_status == NodeStatuses.standby_with_resources_running)) [
              | inl k ↦
                  let (w1, healed, _, s) =
                    continue-eq-ok (heal_resource site.shell node_name w) _ (rw (e, k) at same) in
                  unstandby_if-fails node_name healed w1 s h
              | inr k ↦ elim (Bool-cases (node_status == NodeStatuses.cluster_offline)) [
                | inl o ↦
                    let (w1, out, _, s) =
                      continue-eq-ok (run_cmd site.shell (pcs_node_start node_name) false w) _
                        (rw (e, k, o) at same) in
                    started-fails node_name out w1 s h
                | inr o ↦ pure-Succeeds site (str "") _ (rw (e, k, o) at same) h
              ]
            ]

  -- what `start` saw of a node that it reports as started
  pub record AlreadyOnline (w' : W) : Type 0 where
    pub node_name : String
    pub statuses : Dict String
    pub before : W
    pub looked : W
    pub named : get_node_name site.nodeid_dict node_id ≡ ok node_name
    pub seen : nodes_status site.shell (some (node_name ∷ [])) before ≡ (looked, ok statuses)
    pub is_online : Dict.subscript statuses node_name ≡ ok NodeStatuses.online
    pub health : Json
    pub asked : site.get_node_status node_id looked ≡ (w', ok health)
    pub is_healthy : get_of health "status" ≡ ok (str "online")

  -- Where `start` says Succeeded, the node was online for pcs and in the system's health already,
  -- and nothing was run after these were looked up.
  pub start-AlreadyOnline :
      (w : W) {w' : W} {d : Json} → start site node_id w ≡ (w', d) → Succeeds d → AlreadyOnline w'
  unfolding start node_status_or
  start-AlreadyOnline w {w'} {d} same h =
      let s0 = recast-eq-ok cluster_manager _ (handled-Succeeds site.shell "start" _ w same h) in
      let (node_name, named, s1) = lift-eq-ok w (get_node_name site.nodeid_dict node_id) _ s0 in
      let (w1, _, _, s2) = continue-eq-ok (is_node_in_cluster site.shell node_name w) _ s1 in
      let (w2, statuses, seen, s3) =
        continue-eq-ok (nodes_status site.shell (some (node_name ∷ [])) w1) _ s2 in
      let (node_status, stat, s4) = lift-eq-ok w2 (Dict.subscript statuses node_name) _ s3 in
      let (w3, health, asked, s5) = continue-eq-ok (site.get_node_status node_id w2) _ s4 in
      let (node_health, health_eq, s6) = lift-eq-ok w3 (get_of health "status") _ s5 in
      let (online, healthy, last) = start_by-Online node_name node_status node_health w3 s6 h in
      record {
        node_name = node_name;
        statuses = statuses;
        before = w1;
        looked = w2;
        named = named;
        seen = seen;
        is_online = stat ∙ ap ok online;
        health = health;
        asked = asked ∙ ap (λ v. (v, ok health)) (sym last);
        is_healthy = health_eq ∙ ap ok healthy;
      }
