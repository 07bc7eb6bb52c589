-- ===== src/Tests/WaiterRuns.antt =====
-- Runs of the waiter for a condition (ha/pcswrap/pcswrap/internal/waiter.py).
use cortx_ha.Prelude.{ℕ, ◌+◌, leb, ◌≡◌, refl, some, arith}
use cortx_ha.Prelude.{Result, ok, raise, timeout}
use cortx_ha.Pcs.Waiter.{Waiter, after_check, wait_from, wait}
use cortx_ha.Pcs.Waiter.Timing.{Outcome, wait-Ends}

-- a clock that the pauses move, and the condition that it shows a given time
abbrev clock : ℕ → ℕ → Waiter ℕ ℕ
clock time limit = record {
  provider_fn = λ now. (now, ok now);
  predicate = λ now. ok (leb time now);
  pause_seconds = 2;
  timeout_seconds = limit;
}

abbrev tick : ℕ → ℕ → ℕ
tick pause now = now + pause

wait_at_5 : wait tick (clock 5 120) 0 ≡ some (6, ok _)
unfolding wait wait_from after_check
wait_at_5 = refl

wait_too_long : wait tick (clock 5 4) 0 ≡ some (2, raise timeout)
unfolding wait wait_from after_check
wait_too_long = refl

wait-Ends_example :
    (r : ℕ × Result (Unit {0})) × (wait tick (clock 5 120) 0 ≡ some r)
    × Outcome tick (clock 5 120) 120 0 r
wait-Ends_example = wait-Ends tick (clock 5 120) 0 (omega arith) (omega arith)
