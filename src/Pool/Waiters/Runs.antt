-- ===== src/Pool/Waiters/Runs.antt =====
-- Runs of a pool with one thread, among calls of `WaitForTasks`.
use ss_logger_cpp.Prelude.{ℕ, zero, suc, ◌<◌, ◌≡◌, arith, Bool, true, not, ◌&&◌, [], ◌∷◌}
use ss_logger_cpp.Pool.System.{call}
use ss_logger_cpp.Pool.Progress.Stuck.{Reach-size}
use ss_logger_cpp.Pool.Waiters.{
  Hall, work_on, wait_on, works, calls_on, waits_on, Reach, next, opened,
}
use ss_logger_cpp.Pool.Waiters.Woken.{Reach-system}

-- Steps of the call.
unfoldable pub call_times : ℕ → Hall → Hall
call_times zero h = h
call_times (suc k) h = let g = call_times k h in record g { system = call 0 g.system }

-- Steps of the thread, and whether it stands in front of a notification at one of them.
unfoldable pub work_times : ℕ → Hall → Hall
work_times zero h = h
work_times (suc k) h = work_times k (work_on 0 h)

unfoldable pub quiet : ℕ → Hall → Bool
quiet zero h = true
quiet (suc k) h = not (h.notifying 0) && quiet k (work_on 0 h)

-- One thread, one call of `EnqueueTask` and some of `WaitForTasks`.
module _ (tasks : ℕ → ℕ) (waits : ℕ) where
  abbrev pub first : Hall
  first = opened 1 (0 ∷ []) tasks

  abbrev pub Run : Hall → Type 0
  Run h = Reach 1 waits first h

  pub call_times-Run : (k : ℕ) (h : Hall) → Run h → Run (call_times k h)
  unfolding call_times
  call_times-Run zero h r = r
  call_times-Run (suc k) h r = next (call_times-Run k h r) (calls_on 0 (omega arith))

  pub wait_twice-Run : (w : ℕ) (h : Hall) → w < waits → Run h → Run (wait_on w (wait_on w h))
  wait_twice-Run w h lt r = next (next r (waits_on w lt)) (waits_on w lt)

  pub work_times-Run : (k : ℕ) (h : Hall) → quiet k h ≡ true → Run h → Run (work_times k h)
  unfolding work_times quiet
  work_times-Run zero h e r = r
  work_times-Run (suc k) h e r =
      let size = Reach-size 1 1 (0 ∷ []) tasks h.system (Reach-system 1 1 (0 ∷ []) tasks h r) in
      work_times-Run k (work_on 0 h) (ground (arith, e))
        (next r (works 0 (omega (arith, size)) (ground (arith, e))))
