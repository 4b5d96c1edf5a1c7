-- ===== src/Tests/Waiters.antt =====
-- Calls of `WaitForTasks` at concrete runs of one thread.
use ss_logger_cpp.Prelude.{ℕ, zero, suc, ◌<◌, ◌≡◌, ◌≢◌, refl, arith, true, false, [], ◌∷◌, ap}
use ss_logger_cpp.Queue.Contents.{pop_front, push_back}
use ss_logger_cpp.Pool.State.{Worker, acquiring, exited, worker_in, caller_in}
use ss_logger_cpp.Pool.System.{work, call}
use ss_logger_cpp.Pool.Identifiers.{is_dropped}
use ss_logger_cpp.Pool.Waiters.{
  blocked, returned, wait_in, Hall, work_on, wait_on, notify_one, works, waits_on, notifies, Reach,
  here, next, opened,
}
use ss_logger_cpp.Pool.Waiters.Runs.{
  first, Run, call_times, call_times-Run, wait_twice-Run, work_times, quiet, work_times-Run,
}
use ss_logger_cpp.Pool.Waiters.Woken.{Reach-returned}
use ss_logger_cpp.Pool.Waiters.Missed.{asleep, Reach-blocked}

abbrev tasks : ℕ → ℕ
tasks c = c

Reach-blocked_example :
    Reach 1 2 (opened 1 (0 ∷ []) tasks) (asleep tasks)
    × ((asleep tasks).waiters 1 ≡ blocked)
    × ((asleep tasks).system.pool.complete ≡ true)
    × ((asleep tasks).system.pool.in_flight ≡ 0)
    × ((asleep tasks).system.pool.executed ≡ 0 ∷ [])
Reach-blocked_example = Reach-blocked tasks (asleep tasks) here

-- The call of `WaitForTasks` blocks, the thread executes the task, sets the flag and notifies.
abbrev waiting : Hall
waiting = wait_on 0 (wait_on 0 (call_times 7 (first tasks 1)))

abbrev woken : Hall
woken = wait_on 0 (work_on 0 (notify_one 0 0 (work_times 10 waiting)))

woken-Run : Run tasks 1 woken
unfolding quiet work_times call_times caller_in worker_in wait_in pop_front push_back
woken-Run =
    let called = call_times-Run tasks 1 7 (first tasks 1) here in
    let blocks = wait_twice-Run tasks 1 0 _ (omega arith) called in
    let worked = work_times-Run tasks 1 10 waiting refl blocks in
    next
      (next (next worked (notifies 0 (omega arith) refl 0 (omega arith) refl))
        (works 0 (omega arith) refl))
      (waits_on 0 (omega arith))

abbrev waits : Worker → ℕ
waits acquiring = 1
waits _ = 0

none_exited : (i : ℕ) → i < 1 → woken.system.workers i ≢ exited
unfolding work_times call_times caller_in worker_in wait_in pop_front push_back
none_exited zero h e = absurd (omega (arith, ap waits e))
none_exited (suc i) h e = absurd (omega arith)

none_lost : (c : ℕ) → c < 1 → is_dropped (woken.system.callers c) ≡ 0
unfolding work_times call_times caller_in worker_in wait_in pop_front push_back
none_lost zero h = refl
none_lost (suc c) h = absurd (omega arith)

none_notifying : (i : ℕ) → i < 1 → woken.notifying i ≡ false
unfolding work_times call_times caller_in worker_in wait_in pop_front push_back
none_notifying zero h = refl
none_notifying (suc i) h = absurd (omega arith)

thread_stuck : (i : ℕ) → i < 1 → (work i woken.system).workers i ≡ woken.system.workers i
unfolding work_times call_times caller_in worker_in wait_in pop_front push_back
thread_stuck zero h = refl
thread_stuck (suc i) h = absurd (omega arith)

calls_stuck : (c : ℕ) → c < 1 → (call c woken.system).callers c ≡ woken.system.callers c
unfolding work_times call_times caller_in worker_in wait_in pop_front push_back
calls_stuck zero h = refl
calls_stuck (suc c) h = absurd (omega arith)

Reach-returned_example : woken.waiters 0 ≡ returned
unfolding work_times call_times caller_in worker_in wait_in pop_front push_back
Reach-returned_example =
    Reach-returned 1 1 (0 ∷ []) tasks woken woken-Run (omega arith, tt) none_lost none_exited
      none_notifying thread_stuck calls_stuck refl (omega arith)
