-- ===== src/K8s/Monitor/Outcome.antt =====
-- The outcomes of one turn of the monitor's loop, as to the table of published alerts.
use cortx_ha.Prelude.{
  String, ◌≡◌, refl, sym, ap, ◌∙◌, subst, true, false, List, [], ◌∷◌, Option, none, some, eq_iff,
  eq_refl, arith, inl, inr, Bool-cases, ◌↔◌,
}
use cortx_ha.Prelude.{ok, >>=-eq-ok}
use cortx_ha.Prelude.Dict
use cortx_ha.Prelude.Dict.{Dict, get-put}
use cortx_ha.K8s.Alert.{Payload, EventApi}
use cortx_ha.K8s.Parser.{WatchEvent, Parsed, parse}
use cortx_ha.K8s.Monitor.{
  Monitor, Tick, alert_key, same_info, same_payload, is_same, is_publish_enable, offer, at_start,
  after_parse, on_event,
}

same_info_iff : (d e : Dict String) → (same_info d e ≡ true) ↔ (d ≡ e)
unfolding same_info
same_info_iff [] [] = (λ h. refl, λ h. refl)
same_info_iff [] (x ∷ e) = (λ h. cc, λ h. cc)
same_info_iff (x ∷ d) [] = (λ h. cc, λ h. cc)
same_info_iff ((j, v) ∷ d) ((k, w) ∷ e) =
    let (there, back) = same_info_iff d e in
    (
      λ h. ground (arith, eq_iff j k, eq_iff v w, there),
      λ h. ground (arith, eq_iff j k, eq_iff v w, back),
    )

-- the comparison of the payloads' texts decides equality
pub same_payload_iff : (p q : Payload) → (same_payload p q ≡ true) ↔ (p ≡ q)
unfolding same_payload
same_payload_iff p q = (
  λ h. ground (
    arith,
    eq_iff p.source q.source,
    eq_iff p.cluster_id q.cluster_id,
    eq_iff p.site_id q.site_id,
    eq_iff p.rack_id q.rack_id,
    eq_iff p.storageset_id q.storageset_id,
    eq_iff p.node_id q.node_id,
    eq_iff p.resource_type q.resource_type,
    eq_iff p.resource_id q.resource_id,
    eq_iff p.resource_status q.resource_status,
    same_info_iff p.specific_info q.specific_info,
  ),
  λ h. rw h (simp (eq_refl, (same_info_iff q.specific_info q.specific_info).1 refl)),
)

-- What one step may do to the table of published alerts.
pub data Outcome (m m' : Monitor) (sent : List Payload) : Type 0 where
  quiet :
      sent ≡ []
      → m'.published_alerts ≡ m.published_alerts
      → m'.publish_enabled ≡ m.publish_enabled
      → Outcome m m' sent
  sends :
      (p : Payload)
      → sent ≡ p ∷ []
      → is_same p (Dict.get m.published_alerts (alert_key p)) ≡ false
      → m'.published_alerts ≡ Dict.put m.published_alerts (alert_key p) p
      → m.publish_enabled ≡ true
      → Outcome m m' sent
  disabled : sent ≡ [] → m'.publish_enabled ≡ false → Outcome m m' sent

Outcome-offer :
    (stop_key : Option String) (p : Payload) (m : Monitor)
    → Outcome m (offer stop_key p m).0 (offer stop_key p m).1
unfolding offer
Outcome-offer stop_key p m =
    elim (Bool-cases (is_same p (Dict.get m.published_alerts (alert_key p)))) [
      | inl seen ↦ quiet (ground (arith, seen)) (ground (arith, seen)) (ground (arith, seen))
      | inr new ↦ elim (Bool-cases (is_publish_enable stop_key m.publish_enabled)) [
        | inl enabled ↦ sends p (ground arith) new (ground arith) (ground arith)
        | inr off ↦ disabled (ground arith) (ground arith)
      ]
    ]

-- An outcome depends on the first state's table and flag alone.
Outcome-from :
    {m n m' : Monitor} {sent : List Payload}
    → n.published_alerts ≡ m.published_alerts
    → n.publish_enabled ≡ m.publish_enabled
    → Outcome n m' sent
    → Outcome m m' sent
Outcome-from e f (quiet none_sent same flag) = quiet none_sent (same ∙ e) (flag ∙ f)
Outcome-from e f (sends p one new table on) =
    sends p one (rw (← e) new) (table ∙ ap (λ t. Dict.put t (alert_key p) p) e) (sym f ∙ on)
Outcome-from e f (disabled none_sent off) = disabled none_sent off

module _ (api : EventApi) where
  table-at_start :
      (e : WatchEvent) (event : api.Event) (m m' : Monitor) (p : Payload)
      → at_start api e event m ≡ ok (p, m')
      → (m'.published_alerts ≡ m.published_alerts) × (m'.publish_enabled ≡ m.publish_enabled)
  unfolding at_start
  table-at_start e event m m' p h = ground arith

  Outcome-after_parse :
      (t : Tick) (m m' : Monitor) (parsed : Parsed api) (sent : List Payload)
      → after_parse api t m parsed ≡ ok (m', sent)
      → Outcome m m' sent
  Outcome-after_parse t m m' (none, cache) sent h =
      quiet (ground arith) (ground arith) (ground arith)
  Outcome-after_parse t m m' (some event, cache) sent h =
      let began = record m { object_state = cache } in
      let ((p, started), begin, offered) =
        >>=-eq-ok (at_start api t.event event began)
          (λ (pm : Payload × Monitor). ok (offer t.stop_key (pm.0) (pm.1))) h in
      let result : offer t.stop_key p started ≡ (m', sent) = ground arith in
      let (table, flag) = table-at_start t.event event began started p begin in
      Outcome-from table flag
        (subst (λ r. Outcome started r.0 r.1) result (Outcome-offer t.stop_key p started))

  pub Outcome-on_event :
      (k_object : String) (t : Tick) (m m' : Monitor) (sent : List Payload)
      → on_event api k_object t m ≡ ok (m', sent)
      → Outcome m m' sent
  unfolding on_event
  Outcome-on_event k_object t m m' sent h = elim (Bool-cases t.sigterm) [
    | inl stop ↦ quiet (ground arith) (ground arith) (ground arith)
    | inr go ↦
        let (parsed, _, rest) =
          >>=-eq-ok (parse api k_object t.event m.object_state) (after_parse api t m)
            (rw go at h) in
        Outcome-after_parse t m m' parsed sent rest
  ]
