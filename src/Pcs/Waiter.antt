-- ===== src/Pcs/Waiter.antt =====
-- The waiter for a condition (ha/pcswrap/pcswrap/internal/waiter.py). `W` is what the provider
-- reads and the pauses change; `sleep` of Python is an argument on it. The two numbers of seconds
-- are not negative, so that `time_left <= 0` holds where the subtraction gives 0. The log lines are
-- left out.
use cortx_ha.Prelude.{ℕ, zero, suc, ◌-◌, leb, Bool, true, false, Option, none, some, if◌then◌else◌}
use cortx_ha.Prelude.{Result, ok, raise, timeout}
use cortx_ha.Prelude.Acting.{Act, lift, ◌>>=◌}
pub mod Timing

pub record Waiter (W D : Type 0) : Type 0 where
  pub provider_fn : Act W D
  pub predicate : D → Result Bool
  pub pause_seconds : ℕ
  pub timeout_seconds : ℕ

module _ {W D : Type 0} (x : Waiter W D) where
  -- `self.predicate(self.provider_fn())`
  abbrev pub check : Act W Bool
  check = x.provider_fn >>= λ found. lift (x.predicate found)

module _ {W D : Type 0} (sleep : ℕ → W → W) (x : Waiter W D) where
  -- what follows the check: `next` is the next round of the loop
  unfoldable pub after_check :
      (ℕ → W → Option (W × Result (Unit {0})))
      → ℕ
      → W × Result Bool
      → Option (W × Result (Unit {0}))
  after_check next time_left (w, raise e) = some (w, raise e)
  after_check next time_left (w, ok true) = some (w, ok _)
  after_check next time_left (w, ok false) =
      let left = time_left - x.pause_seconds in
      if leb left 0 then some (w, raise timeout) else next left (sleep x.pause_seconds w)

  -- the loop, with a bound on its rounds; `none` where the bound is met
  unfoldable pub wait_from : ℕ → ℕ → W → Option (W × Result (Unit {0}))
  wait_from zero time_left w = none
  wait_from (suc n) time_left w = after_check (wait_from n) time_left (check x w)

  unfoldable pub wait : W → Option (W × Result (Unit {0}))
  wait = wait_from (suc x.timeout_seconds) x.timeout_seconds
