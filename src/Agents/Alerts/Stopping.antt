-- ===== src/Agents/Alerts/Stopping.antt =====
-- When the agent for events stops.
use cortx_ha.Prelude.{
  String, ◌==◌, ◌≡◌, refl, sym, ap, ◌∙◌, ◌⊎◌, Bool, false, not, ◌&&◌, Bool-cases, inl, inr, arith,
}
use cortx_ha.Prelude.{Exn, Result, ok, raise}
use cortx_ha.Prelude.Acting.{Act, continue}
use cortx_ha.Prelude.Dict.{Dict}
use cortx_ha.Agents.Alerts.{
  Action, State, stopping, stop, Code, success, err_generic, Host, Agent, DecisionMonitor, key_of,
  is_resolved, acknowledge_event, monitor_action, delete, get_status, is_absent, ack_other,
  decide_iem, act_iem, monitor_iem, stop_iem, get_params, iem, answered, main,
}
use cortx_ha.Agents.Alerts.Files.{
  answered-exists, main-eq, get_status-exists, delete-exists, acknowledge_event-Acks,
  monitor_action-Acks,
}

module _ {S : Type 0} where
  -- steps that raise nothing and leave the files as they are
  abbrev Quiet : {A : Type 0} → Host S → Host S × Result A → Type 0
  Quiet {A} h p = (v : Host S) × (x : A) × (p ≡ (v, ok x)) × (v.exists ≡ h.exists)

  continue-Quiet :
      {A B : Type 0} (h : Host S) (p : Host S × Result A) (f : A → Act (Host S) B)
      → Quiet h p
      → ((x : A) (v : Host S) → Quiet v (f x v))
      → Quiet h (continue p f)
  continue-Quiet h p f (v, x, e, same) quiet =
      let (v', y, e', same') = quiet x v in (v', y, ap (λ q. continue q f) e ∙ e', same' ∙ same)

  answered-ok : (p : Host S × Result Code) {code : Code} → p.1 ≡ ok code → (answered p).1 ≡ code
  unfolding answered
  answered-ok (h, ok c) e = cc
  answered-ok (h, raise x) e = cc

module _ {S : Type 0} (dm : DecisionMonitor S) (a : Agent) where
  monitor-present : (h : Host S) → monitor_iem dm a stopping h ≡ act_iem dm a stopping h
  unfolding monitor_iem is_absent
  monitor-present h = ground arith

  ack_other-Quiet :
      (self_node : String) (status : Action) (h : Host S)
      → Quiet h (ack_other dm a self_node status h)
  unfolding ack_other
  ack_other-Quiet self_node status h =
      let key = key_of a.path a.node in
      let after = (acknowledge_event dm.acknowledge_resource key h).0 in
      elim (Bool-cases (not (a.node == "-") && not (a.node == self_node) && is_resolved status)) [
        | inl acked ↦
            (after, _, ground arith, (acknowledge_event-Acks dm.acknowledge_resource key h).0)
        | inr quiet ↦ (h, _, ground arith, refl)
      ]

  decide_iem-Quiet :
      (state : State) (st : String × Action × Action) (h : Host S)
      → Quiet h (decide_iem dm a state st h)
  unfolding decide_iem
  decide_iem-Quiet state (self_node, s1, s2) h =
      continue-Quiet h (ack_other dm a self_node s2 h) _ (ack_other-Quiet self_node s2 h) λ _ v.
        let key = key_of a.path self_node in
        let ack = acknowledge_event dm.acknowledge_resource key in
        let keeps =
          monitor_action-Acks ack state s1 s2 (acknowledge_event-Acks dm.acknowledge_resource key)
            v in
        ((monitor_action ack state s1 s2 v).0, (monitor_action ack state s1 s2 v).1, refl, keeps.0)

  -- what is left of a stop, by how the statuses are read
  stop-read :
      (h v : Host S) (st : String × Action × Action)
      → get_status dm.get_resource_status a h ≡ (v, ok st)
      → ((stop_iem dm a h).1 ≡ ok success) × ((stop_iem dm a h).0.exists a.filename ≡ false)
  unfolding stop_iem act_iem
  stop-read h v st e =
      let (w, code, decided, same) = decide_iem-Quiet stopping st v in
      let monitored =
        monitor-present h ∙ ap (λ q. continue q (decide_iem dm a stopping)) e ∙ decided in
      let stopped = ap (λ q. continue q (λ _ u. (delete a.filename u, ok success))) monitored in
      (
        ap (λ (q : Host S × Result Code). q.1) stopped,
        ap (λ (q : Host S × Result Code). q.0.exists a.filename) stopped
            ∙ delete-exists a.filename w,
      )

  stop-unread :
      (h v : Host S) (x : Exn)
      → get_status dm.get_resource_status a h ≡ (v, raise x)
      → stop_iem dm a h ≡ (v, raise x)
  unfolding stop_iem act_iem
  stop-unread h v x e =
      let monitored = monitor-present h ∙ ap (λ q. continue q (decide_iem dm a stopping)) e in
      ap (λ q. continue q (λ _ u. (delete a.filename u, ok success))) monitored

  answered-stop :
      (h : Host S) (p : Host S × Result (String × Action × Action))
      → get_status dm.get_resource_status a h ≡ p
      → let r = answered (stop_iem dm a h) in
        ((r.1 ≡ success)
          × (r.0.exists a.filename ≡ false)
          × ((st : String × Action × Action) × (p.1 ≡ ok st)))
        ⊎ ((r.1 ≡ err_generic) × (r.0.exists ≡ h.exists) × ((x : Exn) × (p.1 ≡ raise x)))
  unfolding answered
  answered-stop h (v, ok st) e =
      let (code, gone) = stop-read h v st e in
      inl (
        answered-ok (stop_iem dm a h) code,
        ap (λ (t : String → Bool). t a.filename) (answered-exists (stop_iem dm a h)) ∙ gone,
        (st, refl),
      )
  answered-stop h (v, raise x) e =
      let stopped = ap answered (stop-unread h v x e) in
      inr (
        ap (λ (q : Host S × Code). q.1) stopped,
        ap (λ (q : Host S × Code). q.0.exists) stopped
            ∙ sym (ap (λ (q : Host S × Result (String × Action × Action)). q.0.exists) e)
            ∙ get_status-exists dm.get_resource_status a h,
        (x, refl),
      )

module _ {S : Type 0} where
  -- Where the parameters of an agent for events are there, a stop of it either has read the statuses of
  -- the two nodes, and then it answers success and the file of the agent is gone, whatever the statuses
  -- are and whether or not they could be acknowledged; or reading them raised, and then it answers with
  -- a generic error and no file has changed, so that the agent is still there.
  pub stop-Outcome :
      (dm : DecisionMonitor S) (nodes env : Dict String) (a : Agent) (h : Host S)
      → get_params nodes env ≡ ok a
      → let r = main (iem dm) nodes env stop h in
        let reading = (get_status dm.get_resource_status a h).1 in
        ((r.1 ≡ success)
          × (r.0.exists a.filename ≡ false)
          × ((st : String × Action × Action) × (reading ≡ ok st)))
        ⊎ ((r.1 ≡ err_generic) × (r.0.exists ≡ h.exists) × ((x : Exn) × (reading ≡ raise x)))
  unfolding iem
  stop-Outcome dm nodes env a h e =
      let same = main-eq (iem dm) nodes env a stop h e in
      elim (answered-stop dm a h (get_status dm.get_resource_status a h) refl) [
        | inl (code, gone, st) ↦ inl (
          ap (λ (q : Host S × Code). q.1) same ∙ code,
          ap (λ (q : Host S × Code). q.0.exists a.filename) same ∙ gone,
          st,
        )
        | inr (code, kept, x) ↦ inr (
          ap (λ (q : Host S × Code). q.1) same ∙ code,
          ap (λ (q : Host S × Code). q.0.exists) same ∙ kept,
          x,
        )
      ]
