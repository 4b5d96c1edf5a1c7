-- ===== src/Pool/Waiters/Missed.antt =====
-- Two calls of `WaitForTasks` at once.
use ss_logger_cpp.Prelude.{ℕ, zero, suc, ◌≡◌, refl, sym, ◌∙◌, arith, true, false, [], ◌∷◌}
use ss_logger_cpp.Queue.Contents.{pop_front, push_back}
use ss_logger_cpp.Pool.State.{acquiring, finished, worker_in, caller_in}
use ss_logger_cpp.Pool.Waiters.{
  blocked, wait_in, Hall, work_on, wait_on, notify_one, Move, works, calls_on, waits_on, notifies,
  notifies_none, Reach, here, next, opened,
}
use ss_logger_cpp.Pool.Waiters.Runs.{
  first, Run, call_times, call_times-Run, wait_twice-Run, work_times, quiet, work_times-Run,
}

-- One thread, one call of `EnqueueTask` and two of `WaitForTasks`.
module _ (tasks : ℕ → ℕ) where
  -- Both calls of `WaitForTasks` block while the task is in flight, and the thread executes the task
  -- and sets the flag.
  waiting : Hall
  waiting = let h = call_times 7 (first tasks 2) in wait_on 1 (wait_on 1 (wait_on 0 (wait_on 0 h)))

  -- The notification wakes the first of them.
  pub asleep : Hall
  asleep = wait_on 0 (work_on 0 (notify_one 0 0 (work_times 10 waiting)))

  waiting-Run : Run tasks 2 waiting
  unfolding waiting
  waiting-Run =
      let called = call_times-Run tasks 2 7 (first tasks 2) here in
      wait_twice-Run tasks 2 1 _ (omega arith) (wait_twice-Run tasks 2 0 _ (omega arith) called)

  worked-Run : Run tasks 2 (work_times 10 waiting)
  unfolding quiet waiting call_times caller_in worker_in wait_in pop_front push_back
  worked-Run = work_times-Run tasks 2 10 waiting refl waiting-Run

  asleep-Run : Run tasks 2 asleep
  unfolding asleep work_times waiting call_times caller_in worker_in wait_in pop_front push_back
  asleep-Run =
      next
        (next (next worked-Run (notifies 0 (omega arith) refl 0 (omega arith) refl))
          (works 0 (omega arith) refl))
        (waits_on 0 (omega arith))

  record Sleeps (h : Hall) : Type 0 where
    blocked_still : h.waiters 1 ≡ blocked
    thread_waits : h.system.workers 0 ≡ acquiring
    no_signal : h.system.pool.signals 0 ≡ 0
    call_over : h.system.callers 0 ≡ finished
    not_notifying : h.notifying 0 ≡ false
    one_thread : h.system.pool.size ≡ 1
    set : h.system.pool.complete ≡ true
    none_in_flight : h.system.pool.in_flight ≡ 0
    done : h.system.pool.executed ≡ tasks 0 ∷ []

  asleep-Sleeps : Sleeps asleep
  unfolding asleep work_times waiting call_times caller_in worker_in wait_in pop_front push_back
  asleep-Sleeps = record {
    blocked_still = refl;
    thread_waits = refl;
    no_signal = refl;
    call_over = refl;
    not_notifying = refl;
    one_thread = refl;
    set = refl;
    none_in_flight = refl;
    done = refl;
  }

  Move-Sleeps : {h g : Hall} → Move 1 2 h g → Sleeps h → Sleeps g
  unfolding worker_in caller_in wait_in
  Move-Sleeps {h} (works zero lt e) s = record {
    blocked_still = s.blocked_still;
    thread_waits = rw (s.thread_waits, s.no_signal);
    no_signal = rw (s.thread_waits, s.no_signal) s.no_signal;
    call_over = s.call_over;
    not_notifying = rw s.thread_waits;
    one_thread = rw (s.thread_waits, s.no_signal) s.one_thread;
    set = rw (s.thread_waits, s.no_signal) s.set;
    none_in_flight = rw (s.thread_waits, s.no_signal) s.none_in_flight;
    done = rw (s.thread_waits, s.no_signal) s.done;
  }
  Move-Sleeps {h} (works (suc i) lt e) s = absurd (omega (arith, s.one_thread))
  Move-Sleeps {h} (calls_on zero lt) s = record {
    blocked_still = s.blocked_still;
    thread_waits = s.thread_waits;
    no_signal = rw s.call_over s.no_signal;
    call_over = rw s.call_over;
    not_notifying = s.not_notifying;
    one_thread = rw s.call_over s.one_thread;
    set = rw s.call_over s.set;
    none_in_flight = rw s.call_over s.none_in_flight;
    done = rw s.call_over s.done;
  }
  Move-Sleeps (calls_on (suc c) lt) s = absurd (omega arith)
  Move-Sleeps {h} (waits_on zero lt) s = record {
    blocked_still = s.blocked_still;
    thread_waits = s.thread_waits;
    no_signal = s.no_signal;
    call_over = s.call_over;
    not_notifying = s.not_notifying;
    one_thread = s.one_thread;
    set = s.set;
    none_in_flight = s.none_in_flight;
    done = s.done;
  }
  Move-Sleeps {h} (waits_on (suc zero) lt) s = record {
    blocked_still = rw s.blocked_still;
    thread_waits = s.thread_waits;
    no_signal = s.no_signal;
    call_over = s.call_over;
    not_notifying = s.not_notifying;
    one_thread = s.one_thread;
    set = s.set;
    none_in_flight = s.none_in_flight;
    done = s.done;
  }
  Move-Sleeps (waits_on (suc (suc w)) lt) s = absurd (omega arith)
  Move-Sleeps {h} (notifies zero lt e w wlt b) s = absurd (cc (sym e ∙ s.not_notifying))
  Move-Sleeps {h} (notifies (suc i) lt e w wlt b) s = absurd (omega (arith, s.one_thread))
  Move-Sleeps {h} (notifies_none zero lt e b) s = absurd (cc (sym e ∙ s.not_notifying))
  Move-Sleeps {h} (notifies_none (suc i) lt e b) s = absurd (omega (arith, s.one_thread))

  Reach-Sleeps : {u : Hall} → Reach 1 2 asleep u → Sleeps u
  Reach-Sleeps here = asleep-Sleeps
  Reach-Sleeps (next r m) = Move-Sleeps m (Reach-Sleeps r)

  Reach-Run : {u : Hall} → Reach 1 2 asleep u → Run tasks 2 u
  Reach-Run here = asleep-Run
  Reach-Run (next r m) = next (Reach-Run r) m

  -- A pool with one thread, one call of `EnqueueTask` and two calls of `WaitForTasks` reaches a
  -- state from which every further state has the second of these calls blocked, although the flag
  -- is true, no task is in flight and the task was executed.
  pub Reach-blocked :
      (u : Hall)
      → Reach 1 2 asleep u
      → Reach 1 2 (opened 1 (0 ∷ []) tasks) u
        × (u.waiters 1 ≡ blocked)
        × (u.system.pool.complete ≡ true)
        × (u.system.pool.in_flight ≡ 0)
        × (u.system.pool.executed ≡ tasks 0 ∷ [])
  Reach-blocked u r =
      let s = Reach-Sleeps r in (Reach-Run r, s.blocked_still, s.set, s.none_in_flight, s.done)
