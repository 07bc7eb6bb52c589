-- ===== src/Agents/Alerts/Files.antt =====
-- What the steps of the agents leave of the files.
use cortx_ha.Prelude.{
  String, ◌≡◌, refl, ap, ◌∙◌, true, false, ◌&&◌, Bool-cases, inl, inr, arith, eq_iff,
}
use cortx_ha.Prelude.{Result, ok, raise}
use cortx_ha.Prelude.Acting.{Act, lift, call, continue}
use cortx_ha.Prelude.Dict
use cortx_ha.Prelude.Dict.{Dict}
use cortx_ha.Agents.Alerts.{
  Action, failed, healthy, resolved, restart, other, State, starting, running, stopping, Operation,
  Code, not_running, Host, Agent, is_failed, key_of, put, ask, other_of, caught, acknowledge_event,
  action_by, monitor_action, create, delete, get_status, get_params, answered, main,
}

module _ {S : Type 0} where
  -- steps that leave the files as they are and never answer that the resource is not running
  abbrev pub Answers : Host S → Host S × Result Code → Type 0
  Answers h p = (p.0.exists ≡ h.exists) × ¬ (p.1 ≡ ok not_running)

  pub continue-exists :
      {A B : Type 0} (h : Host S) (p : Host S × Result A) (f : A → Act (Host S) B)
      → p.0.exists ≡ h.exists
      → ((a : A) (v : Host S) → (f a v).0.exists ≡ v.exists)
      → (continue p f).0.exists ≡ h.exists
  continue-exists h (v, ok a) f same keeps = keeps a v ∙ same
  continue-exists h (v, raise e) f same keeps = same

  pub continue-Answers :
      {A : Type 0} (h : Host S) (p : Host S × Result A) (f : A → Act (Host S) Code)
      → p.0.exists ≡ h.exists
      → ((a : A) (v : Host S) → Answers v (f a v))
      → Answers h (continue p f)
  continue-Answers h (v, ok a) f same answers =
      let (keeps, runs) = answers a v in (keeps ∙ same, runs)
  continue-Answers h (v, raise e) f same answers = (same, λ q. cc)

  pub ask-exists : {A : Type 0} (m : Act S A) (h : Host S) → (ask m h).0.exists ≡ h.exists
  unfolding ask
  ask-exists m h = refl

  pub get_status-exists :
      (callback_status : String → Act S Action) (a : Agent) (h : Host S)
      → (get_status callback_status a h).0.exists ≡ h.exists
  unfolding get_status
  get_status-exists callback_status a h =
      continue-exists h (h, Dict.subscript a.nodes "local") _ refl
        λ self_node v.
          continue-exists v (v, other_of a.nodes self_node) _ refl
            λ other_node v1.
              let of_self = callback_status (key_of a.path self_node) in
              let of_other = callback_status (key_of a.path other_node) in
              continue-exists v1 (ask of_self v1) _ (ask-exists of_self v1) λ s1 v2.
                continue-exists v2 (ask of_other v2) _ (ask-exists of_other v2) λ s2 v3. refl

  pub caught-Answers :
      (p : Host S × Result (Unit {0}))
      → ((caught p).0.exists ≡ p.0.exists) × ¬ ((caught p).1 ≡ not_running)
  unfolding caught
  caught-Answers (h, ok _) = (refl, λ q. cc)
  caught-Answers (h, raise e) = (refl, λ q. cc)

  -- an acknowledgement keeps the files
  abbrev pub Acks : (Host S → Host S × Code) → Type 0
  Acks ack = (h : Host S) → ((ack h).0.exists ≡ h.exists) × ¬ ((ack h).1 ≡ not_running)

  pub called-Answers : (m : Host S → Host S × Code) → Acks m → (h : Host S) → Answers h (call m h)
  called-Answers m acks h = let (keeps, runs) = acks h in (keeps, λ q. runs (cc))

  pub acknowledge_event-Acks :
      (ack : String → Act S (Unit {0})) (key : String) → Acks (acknowledge_event ack key)
  unfolding acknowledge_event
  acknowledge_event-Acks ack key h =
      let (keeps, runs) = caught-Answers (ask (ack key) h) in (keeps ∙ ask-exists (ack key) h, runs)

  pub action_by-Acks :
      (ack : Host S → Host S × Code) (state : State) (status : Action)
      → Acks ack
      → Acks (action_by ack state status)
  unfolding action_by
  action_by-Acks ack state failed acks h = (refl, λ q. cc)
  action_by-Acks ack state healthy acks h = (refl, λ q. cc)
  action_by-Acks ack state resolved acks h = acks h
  action_by-Acks ack starting restart acks h = (refl, λ q. cc)
  action_by-Acks ack running restart acks h = (refl, λ q. cc)
  action_by-Acks ack stopping restart acks h = ((acks h).0, λ q. cc)
  action_by-Acks ack state other acks h = (refl, λ q. cc)

  pub monitor_action-Acks :
      (ack : Host S → Host S × Code) (state : State) (s1 s2 : Action)
      → Acks ack
      → Acks (monitor_action ack state s1 s2)
  unfolding monitor_action
  monitor_action-Acks ack state s1 s2 acks h = elim (Bool-cases (is_failed s1 && is_failed s2)) [
    | inl both ↦ (ground arith, ground arith)
    | inr not_both ↦
        let (keeps, runs) = action_by-Acks ack state s1 acks h in (ground arith, ground arith)
  ]

  pub create-exists : (filename : String) (h : Host S) → (create filename h).exists filename ≡ true
  unfolding create put
  create-exists filename h = ground (arith, eq_iff filename filename)

  pub delete-exists : (filename : String) (h : Host S) → (delete filename h).exists filename ≡ false
  unfolding delete put
  delete-exists filename h = ground (arith, eq_iff filename filename)

  pub answered-exists : (p : Host S × Result Code) → (answered p).0.exists ≡ p.0.exists
  unfolding answered
  answered-exists (h, ok code) = refl
  answered-exists (h, raise e) = refl

  pub answered-runs :
      (p : Host S × Result Code) → ¬ (p.1 ≡ ok not_running) → ¬ ((answered p).1 ≡ not_running)
  unfolding answered
  answered-runs (h, ok code) runs e = runs (cc)
  answered-runs (h, raise e) runs q = cc

  pub main-eq :
      (resource : Agent → Operation → Act (Host S) Code) (nodes env : Dict String) (a : Agent)
      (action : Operation) (h : Host S)
      → get_params nodes env ≡ ok a
      → main resource nodes env action h ≡ answered (resource a action h)
  unfolding main
  main-eq resource nodes env a action h e =
      ap (λ r. answered (continue (lift r h) (λ agent. resource agent action))) e
