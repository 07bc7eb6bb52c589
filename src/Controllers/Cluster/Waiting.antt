-- ===== src/Controllers/Cluster/Waiting.antt =====
-- How the cluster controller waits for a node.
use cortx_ha.Prelude.{
  ℕ, zero, suc, ◌<◌, String, ◌≡◌, ◌≢◌, refl, sym, ap, ◌∙◌, Bool, true, false, [], ◌∷◌, Option, none,
  some, ◌↔◌, ◌⊎◌, ◌==◌, arith, eq_iff, inl, inr, Bool-cases,
}
use cortx_ha.Prelude.{ok}
use cortx_ha.Prelude.Acting.{Act, continue-eq-ok, pure-eq-ok, ◌>>◌}
use cortx_ha.Prelude.Dict
use cortx_ha.Prelude.Dict.{Dict}
use cortx_ha.Controllers.NodeStatuses
use cortx_ha.Controllers.Pcs.{base_wait_time, nodes_status}
use cortx_ha.Controllers.Cluster.{
  Site, NodeController, cluster_retry_count, online_or, wait_online, wait_for_node_online,
}

module _ {W : Type 0} (site : Site W) (nodes : NodeController W) (nodeid : String) where
  -- From one state to another by looks that do not find the node online, each with its pause.
  pub data Looks : ℕ → W → W → Type 0 where
    start : (w : W) → Looks 0 w w
    again :
        {n : ℕ} {w w1 w2 w3 : W} {d : Dict String}
        → nodes_status site.shell (some (nodeid ∷ [])) w ≡ (w1, ok d)
        → Dict.get d nodeid ≢ some NodeStatuses.online
        → site.shell.sleep base_wait_time w1 ≡ (w2, ok _)
        → Looks n w2 w3
        → Looks (suc n) w w3

  -- one of so many looks finds the node online
  pub record Found (limit : ℕ) (w w' : W) : Type 0 where
    pub looks : ℕ
    pub last : W
    pub statuses : Dict String
    pub in_time : looks < limit
    pub before : Looks looks w last
    pub seen : nodes_status site.shell (some (nodeid ∷ [])) last ≡ (w', ok statuses)
    pub is_online : Dict.get statuses nodeid ≡ some NodeStatuses.online

  online_or-cases :
      (next : Act W Bool) (o : Option String) (w : W)
      → ((o ≡ some NodeStatuses.online) × (online_or site nodes next o w ≡ (w, ok true)))
        ⊎ ((o ≢ some NodeStatuses.online)
            × (online_or site nodes next o w ≡ (site.shell.sleep base_wait_time >> next) w))
  online_or-cases next none w = inr (λ e. cc, refl)
  online_or-cases next (some status) w = elim (Bool-cases (status == NodeStatuses.online)) [
    | inl e ↦ inl (ap some ((eq_iff status NodeStatuses.online).0 e), rw e refl)
    | inr e ↦ inr (λ same. ground (arith, eq_iff status NodeStatuses.online), rw e refl)
  ]

  Found-again :
      {n : ℕ} {w w1 w2 w' : W} {d : Dict String}
      → nodes_status site.shell (some (nodeid ∷ [])) w ≡ (w1, ok d)
      → Dict.get d nodeid ≢ some NodeStatuses.online
      → site.shell.sleep base_wait_time w1 ≡ (w2, ok _)
      → Found n w2 w'
      → Found (suc n) w w'
  Found-again seen off slept f = record {
    looks = suc f.looks;
    last = f.last;
    statuses = f.statuses;
    in_time = omega (arith, f.in_time);
    before = again seen off slept f.before;
    seen = f.seen;
    is_online = f.is_online;
  }

  wait_online-Found :
      (n : ℕ) (w : W) {w' : W} → wait_online site nodes n nodeid w ≡ (w', ok true) → Found n w w'
  unfolding wait_online
  wait_online-Found zero w {w'} same = let (_, e) = pure-eq-ok w w' false true same in cc e
  wait_online-Found (suc n) w {w'} same =
      let (w1, d, seen, s1) =
        continue-eq-ok (nodes_status site.shell (some (nodeid ∷ [])) w) _ same in
      elim (online_or-cases (wait_online site nodes n nodeid) (Dict.get d nodeid) w1) [
        | inl (on, e) ↦
            let (w_eq, _) = pure-eq-ok w1 w' true true (sym e ∙ s1) in
            record {
              looks = 0;
              last = w;
              statuses = d;
              in_time = omega arith;
              before = start w;
              seen = seen ∙ ap (λ v. (v, ok d)) w_eq;
              is_online = on;
            }
        | inr (off, e) ↦
            let (w2, _, slept, s2) =
              continue-eq-ok (site.shell.sleep base_wait_time w1)
                (λ _. wait_online site nodes n nodeid) (sym e ∙ s1) in
            Found-again seen off slept (wait_online-Found n w2 s2)
      ]

  Looks-wait_online :
      (n : ℕ) {k : ℕ} {w last w' : W} {d : Dict String}
      → k < n
      → Looks k w last
      → nodes_status site.shell (some (nodeid ∷ [])) last ≡ (w', ok d)
      → Dict.get d nodeid ≡ some NodeStatuses.online
      → wait_online site nodes n nodeid w ≡ (w', ok true)
  unfolding wait_online
  Looks-wait_online zero lt looks seen on = absurd (omega arith)
  Looks-wait_online (suc n) lt (start w) seen on = rw (seen, on) refl
  Looks-wait_online (suc n) {w' = w'} {d = d} lt (again {w1 = w1} {d = d0} first off slept more)
        seen on =
      elim (online_or-cases (wait_online site nodes n nodeid) (Dict.get d0 nodeid) w1) [
        | inl (on0, e) ↦ absurd (off on0)
        | inr (_, e) ↦ rw first (e ∙ (rw slept (Looks-wait_online n (omega arith) more seen on)))
      ]

  -- wait_for_node_online answers True exactly when one of the first six looks, with a pause after each
  -- before it, finds the node online, and then in the state of that look.
  pub wait_for_node_online-Found :
      (w w' : W)
      → (wait_for_node_online site nodes nodeid w ≡ (w', ok true)) ↔ Found cluster_retry_count w w'
  unfolding wait_for_node_online
  wait_for_node_online-Found w w' = (
    λ h. wait_online-Found cluster_retry_count w h,
    λ f. Looks-wait_online cluster_retry_count f.in_time f.before f.seen f.is_online,
  )
