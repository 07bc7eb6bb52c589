-- ===== src/K8s/Monitor/Published.antt =====
-- What a monitor publishes: nothing twice in a row about one key, and nothing once it is disabled.
use cortx_ha.Prelude.{
  String, ◌≡◌, ◌≢◌, ◌⊎◌, sym, ◌∙◌, subst, false, List, [], ◌∷◌, ◌++◌, Option, none, some, arith,
  inl, inr, Bool-cases, of_if_false,
}
use mathlib.Core.Bool.{false≢true}
use cortx_ha.Prelude.{ok, ◌>>=◌, >>=-eq-ok}
use cortx_ha.Prelude.Dict
use cortx_ha.Prelude.Dict.{Dict, get-put}
use cortx_ha.K8s.Alert.{Payload, EventApi}
use cortx_ha.K8s.Monitor.Outcome.{same_payload_iff, quiet, sends, disabled, Outcome-on_event}
use cortx_ha.K8s.Monitor.{Monitor, Tick, alert_key, is_same, on_event, run}

-- Among the alerts with one key, none equals the one before it; `table` holds the last of each key.
abbrev pub NoRepeat : Dict Payload → List Payload → Type 0
NoRepeat table [] = Unit
NoRepeat table (p ∷ ps) =
    (Dict.get table (alert_key p) ≢ some p) × NoRepeat (Dict.put table (alert_key p) p) ps

ne_of_is_same : (p : Payload) (last : Option Payload) → is_same p last ≡ false → last ≢ some p
ne_of_is_same p none h e = cc
ne_of_is_same p (some q) h e = ground (arith, (same_payload_iff p q).1)

module _ (api : EventApi) (k_object : String) where
  step_then_run :
      (t : Tick) (ts : List Tick) (m m' : Monitor) (sent : List Payload)
      → run api k_object (t ∷ ts) m ≡ ok (m', sent)
      → ((sent ≡ []) × (m' ≡ m))
        ⊎ ((n : Monitor) × (now : List Payload) × (later : List Payload) × (on_event api k_object t
                m
              ≡ ok (n, now))
            × (run api k_object ts n ≡ ok (m', later))
            × (sent ≡ now ++ later))
  unfolding run
  step_then_run t ts m m' sent h = elim (Bool-cases m.stop_event_processing) [
    | inl stopped ↦ inl (ground arith)
    | inr on ↦
        let ((n, now), e, more) =
          >>=-eq-ok (on_event api k_object t m)
            (λ (x : Monitor × List Payload).
              run api k_object ts (x.0) >>= λ (y : Monitor × List Payload). ok (y.0, x.1 ++ y.1))
            (of_if_false _ _ m.stop_event_processing on h) in
        let ((n', later), e', last) =
          >>=-eq-ok (run api k_object ts n) (λ (y : Monitor × List Payload). ok (y.0, now ++ y.1))
            more in
        inr (n, now, later, e, ground arith, ground arith)
  ]

  disabled_step :
      (t : Tick) (m m' : Monitor) (sent : List Payload)
      → on_event api k_object t m ≡ ok (m', sent)
      → m.publish_enabled ≡ false
      → (sent ≡ []) × (m'.publish_enabled ≡ false)
  disabled_step t m m' sent h off = elim (Outcome-on_event api k_object t m m' sent h) [
    | quiet none_sent _ flag ↦ (none_sent, flag ∙ off)
    | sends p one new table on ↦ absurd (false≢true (sym off ∙ on))
    | disabled none_sent flag ↦ (none_sent, flag)
  ]

  -- Once publishing is disabled by the stop of the cluster, the monitor publishes nothing more and
  -- stays disabled, whatever events follow and whatever the stop key holds then.
  run_disabled :
      (ts : List Tick) (m m' : Monitor) (sent : List Payload)
      → run api k_object ts m ≡ ok (m', sent)
      → m.publish_enabled ≡ false
      → (sent ≡ []) × (m'.publish_enabled ≡ false)
  unfolding run
  run_disabled [] m m' sent h off = ground arith
  run_disabled (t ∷ ts) m m' sent h off = elim (step_then_run t ts m m' sent h) [
    | inl (e, same) ↦ (e, ground arith)
    | inr (n, now, later, step, rest, e) ↦
        let (now_none, off') = disabled_step t m n now step off in
        let (later_none, off'') = run_disabled ts n m' later rest off' in (ground arith, off'')
  ]

  -- Whatever the events, no published alert equals the alert published before it under the same key,
  -- nor the one that the table of published alerts held under that key when the run began.
  pub run-NoRepeat :
      (ts : List Tick) (m m' : Monitor) (sent : List Payload)
      → run api k_object ts m ≡ ok (m', sent)
      → NoRepeat m.published_alerts sent
  unfolding run
  run-NoRepeat [] m m' sent h = subst (NoRepeat m.published_alerts) {x = []} (ground arith) tt
  run-NoRepeat (t ∷ ts) m m' sent h = elim (step_then_run t ts m m' sent h) [
    | inl (e, _) ↦ subst (NoRepeat m.published_alerts) (sym e) tt
    | inr (n, now, later, step, rest, e) ↦
        let after = run-NoRepeat ts n m' later rest in
        elim (Outcome-on_event api k_object t m n now step) [
          | quiet none_sent same _ ↦
              subst (NoRepeat m.published_alerts) {x = later} (ground arith)
                (subst (λ d. NoRepeat d later) same after)
          | sends p one new table _ ↦
              subst (NoRepeat m.published_alerts) {x = p ∷ later} (ground arith) (
                ne_of_is_same p (Dict.get m.published_alerts (alert_key p)) new,
                subst (λ d. NoRepeat d later) table after,
              )
          | disabled none_sent off ↦
              let (later_none, _) = run_disabled ts n m' later rest off in
              subst (NoRepeat m.published_alerts) {x = []} (ground arith) tt
        ]
  ]
