-- ===== src/Pcs/Waiter/Timing.antt =====
-- The ends of the waiter's loop and the time that it sleeps.
use cortx_ha.Prelude.{
  ℕ, zero, suc, ◌-◌, ◌+◌, ◌<◌, ◌≤◌, leb, ◌≡◌, refl, Bool, true, false, Option, some, arith, inl,
  inr, Bool-cases,
}
use cortx_ha.Prelude.{Result, ok, raise, timeout, Exn}
use cortx_ha.Pcs.Waiter.{Waiter, check, after_check, wait_from, wait}

module _ {W D : Type 0} (sleep : ℕ → W → W) (x : Waiter W D) where
  -- From one state to another by checks that fail, each with its pause; the seconds slept are counted.
  pub data Polls : ℕ → W → W → Type 0 where
    start : (w : W) → Polls 0 w w
    again :
        {s : ℕ} {w w1 w2 : W}
        → check x w ≡ (w1, ok false)
        → Polls s (sleep x.pause_seconds w1) w2
        → Polls (x.pause_seconds + s) w w2

  -- What the loop ends with, when `limit` seconds are left: after less than that, at the first
  -- check that does not fail, or with the timeout when the next pause would reach the limit.
  pub data Outcome (limit : ℕ) (w : W) : W × Result (Unit {0}) → Type 0 where
    met :
        {s : ℕ} {w1 w2 : W}
        → Polls s w w1
        → s < limit
        → check x w1 ≡ (w2, ok true)
        → Outcome limit w (w2, ok _)
    failed :
        {s : ℕ} {w1 w2 : W} {e : Exn}
        → Polls s w w1
        → s < limit
        → check x w1 ≡ (w2, raise e)
        → Outcome limit w (w2, raise e)
    timed_out :
        {s : ℕ} {w1 w2 : W}
        → Polls s w w1
        → s < limit
        → limit ≤ s + x.pause_seconds
        → check x w1 ≡ (w2, ok false)
        → Outcome limit w (w2, raise timeout)

  Outcome-again :
      {t : ℕ} {w w1 : W} {r : W × Result (Unit {0})}
      → check x w ≡ (w1, ok false)
      → Outcome (t - x.pause_seconds) (sleep x.pause_seconds w1) r
      → Outcome t w r
  Outcome-again h (met p l c) = met (again h p) (omega arith) c
  Outcome-again h (failed p l c) = failed (again h p) (omega arith) c
  Outcome-again h (timed_out p l m c) = timed_out (again h p) (omega arith) (omega arith) c

  abbrev Ends : ℕ → W → Option (W × Result (Unit {0})) → Type 0
  Ends t w o = (r : W × Result (Unit {0})) × (o ≡ some r) × Outcome t w r

  after_check-Ends :
      (next : ℕ → W → Option (W × Result (Unit {0}))) (t : ℕ) (w : W) (c : W × Result Bool)
      → 0 < t
      → check x w ≡ c
      → ((w1 : W)
          → 0 < t - x.pause_seconds
          → Ends (t - x.pause_seconds) w1 (next (t - x.pause_seconds) w1))
      → Ends t w (after_check sleep x next t c)
  unfolding after_check
  after_check-Ends next t w (w1, raise e) pos h more = ((w1, raise e), refl, failed (start w) pos h)
  after_check-Ends next t w (w1, ok true) pos h more = ((w1, ok _), refl, met (start w) pos h)
  after_check-Ends next t w (w1, ok false) pos h more =
      elim (Bool-cases (leb (t - x.pause_seconds) 0)) [
        | inl e ↦ ((w1, raise timeout), ground arith, timed_out (start w) pos (ground arith) h)
        | inr e ↦
            let (r, same, ends) = more (sleep x.pause_seconds w1) (ground arith) in
            (r, ground arith, Outcome-again h ends)
      ]

  wait_from-Ends :
      (n t : ℕ) (w : W) → 0 < x.pause_seconds → 0 < t → t ≤ n → Ends t w (wait_from sleep x n t w)
  unfolding wait_from
  wait_from-Ends zero t w pause pos le = absurd (omega arith)
  wait_from-Ends (suc n) t w pause pos le =
      after_check-Ends (wait_from sleep x n) t w (check x w) pos refl
        (λ w1 left. wait_from-Ends n (t - x.pause_seconds) w1 pause left (omega arith))

  -- Where the pause and the timeout are not 0, wait ends; it returns at the first check that holds
  -- and passes on the exception of a check, both after pauses of less than the timeout in total, and
  -- raises TimeoutException after a failed check when the next pause would reach the timeout.
  pub wait-Ends :
      (w : W)
      → 0 < x.pause_seconds
      → 0 < x.timeout_seconds
      → (r : W × Result (Unit {0})) × (wait sleep x w ≡ some r) × Outcome x.timeout_seconds w r
  unfolding wait
  wait-Ends w pause pos =
      wait_from-Ends (suc x.timeout_seconds) x.timeout_seconds w pause pos (omega arith)
