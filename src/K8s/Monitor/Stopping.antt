-- ===== src/K8s/Monitor/Stopping.antt =====
-- SIGTERM ends the monitor's loop.
use cortx_ha.Prelude.{
  String, ◌≡◌, refl, ap, ◌∙◌, true, List, [], ◌∷◌, ◌++◌, arith, inl, inr, Bool-cases, if◌then◌else◌,
}
use cortx_ha.Prelude.{Result, ok, raise, ◌>>=◌}
use cortx_ha.K8s.Alert.{Payload, EventApi}
use cortx_ha.K8s.Monitor.{Monitor, Tick, on_event, run}

-- The result with the stop flag set.
abbrev pub stopped : Monitor × List Payload → Result (Monitor × List Payload)
stopped (m, sent) = ok (record m { stop_event_processing = true }, sent)

abbrev behind : List Payload → Monitor × List Payload → Result (Monitor × List Payload)
behind now (m, later) = ok (m, now ++ later)

swap_stopped :
    (now : List Payload) (r : Result (Monitor × List Payload))
    → ((r >>= stopped) >>= behind now) ≡ ((r >>= behind now) >>= stopped)
swap_stopped now (ok (m, later)) = refl
swap_stopped now (raise e) = refl

module _ (api : EventApi) (k_object : String) where
  abbrev then_run : List Tick → Monitor × List Payload → Result (Monitor × List Payload)
  then_run ts (m, now) = run api k_object ts m >>= behind now

  run-cons :
      (t : Tick) (ts : List Tick) (m : Monitor)
      → run api k_object (t ∷ ts) m ≡ (
          if m.stop_event_processing then ok (m, []) else on_event api k_object t m >>= then_run ts)
  unfolding run
  run-cons t ts m = refl

  stopped_already :
      (m : Monitor) → m.stop_event_processing ≡ true → record m { stop_event_processing = true } ≡ m
  stopped_already m h = ground arith

  run-stopped :
      (ts : List Tick) (m : Monitor)
      → m.stop_event_processing ≡ true
      → run api k_object ts m ≡ ok (m, [])
  unfolding run
  run-stopped [] m h = refl
  run-stopped (t ∷ ts) m h = ground arith

  at_sigterm :
      (t : Tick) (us : List Tick) (m : Monitor)
      → t.sigterm ≡ true
      → run api k_object (t ∷ us) m ≡ ok (record m { stop_event_processing = true }, [])
  unfolding on_event
  at_sigterm t us m h =
      let after = record m { stop_event_processing = true } in
      run-cons t us m ∙ ground (arith, run-stopped us after refl)

  turn :
      (ts rest : List Tick) (r : Result (Monitor × List Payload))
      → ((m : Monitor) → run api k_object rest m ≡ (run api k_object ts m >>= stopped))
      → (r >>= then_run rest) ≡ ((r >>= then_run ts) >>= stopped)
  turn ts rest (raise e) ih = refl
  turn ts rest (ok (m, now)) ih =
      ap (λ q. q >>= behind now) (ih m) ∙ swap_stopped now (run api k_object ts m)

  -- A SIGTERM seen at some event ends the run there: what is published and what state is reached are
  -- those of the events before it, with the stop flag set, and the events after it are not looked at.
  run-sigterm :
      (ts us : List Tick) (t : Tick) (m : Monitor)
      → t.sigterm ≡ true
      → run api k_object (ts ++ t ∷ us) m ≡ (run api k_object ts m >>= stopped)
  unfolding run
  run-sigterm [] us t m h = at_sigterm t us m h
  run-sigterm (x ∷ ts) us t m h =
      let rest =
        turn ts (ts ++ t ∷ us) (on_event api k_object x m) (λ n. run-sigterm ts us t n h) in
      elim (Bool-cases m.stop_event_processing) [
        | inl e ↦ ground (arith, e, stopped_already m e)
        | inr e ↦ ground (arith, e, rest)
      ]
