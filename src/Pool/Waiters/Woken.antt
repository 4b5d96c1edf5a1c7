-- ===== src/Pool/Waiters/Woken.antt =====
-- Whether a notification can miss a blocked call.
use ss_logger_cpp.Prelude.{
  ℕ, zero, suc, ◌+◌, ◌%◌, ◌<◌, ◌≤◌, ◌≡◌, ◌≢◌, refl, arith, Bool, true, false, Bool-cases, inl, inr,
  List, Option, none, some, ltb, ap, sym, ◌∙◌,
}
use ss_logger_cpp.Queue.Contents.{pop_front, pop_back}
use ss_logger_cpp.Pool.Family.{total, total-update, total_zero, total-zero}
use ss_logger_cpp.Pool.State.{
  Pool, Worker, acquiring, draining, testing, signalling, storing, looping, exited, stealing, taken,
  invoking, invoked, acquire, drain, steal, Caller, rotating, dropped, putting_back, counting,
  flying, clearing, pushing, releasing, finished, rotate_front, worker_in, caller_in,
}
use ss_logger_cpp.Pool.System
use ss_logger_cpp.Pool.System.{System, work, call, start}
use ss_logger_cpp.Pool.Counters.Caller.{Within}
use ss_logger_cpp.Pool.Identifiers.{is_dropped}
use ss_logger_cpp.Pool.Progress.Signalled.{flag, flag_le}
use ss_logger_cpp.Pool.Progress.Stuck.{Reach-size, Reach-stuck}
use ss_logger_cpp.Pool.Waiters.{
  Waiter, reading, checking, blocked, returned, wait_in, Hall, stores, wait_on, is_blocked, works,
  calls_on, waits_on, notifies, notifies_none, Reach, here, next, opened,
}

-- Only the store of `SignalCompletion` sets the flag.
module _ (i : ℕ) (stop : Bool) (p : Pool) where
  abbrev Keeps : Worker → Pool → Type 0
  Keeps ph q = flag q.complete ≤ flag p.complete + flag (stores ph)

  acquire-Keeps : (k : ℕ) → Keeps acquiring (acquire i k p).1
  acquire-Keeps zero = omega arith
  acquire-Keeps (suc k) = omega arith

  drain-Keeps : (r : Option (ℕ × List ℕ)) → Keeps draining (drain i r p).1
  drain-Keeps none = omega arith
  drain-Keeps (some (t, rest)) = omega arith

  steal-Keeps : (j index : ℕ) (r : Option (ℕ × List ℕ)) → Keeps (stealing j) (steal j index r p).1
  steal-Keeps j index none = omega arith
  steal-Keeps j index (some (t, rest)) = omega arith

  worker_in-Keeps : (ph : Worker) → Keeps ph (worker_in i stop ph p).1
  unfolding worker_in
  worker_in-Keeps acquiring = acquire-Keeps (p.signals i)
  worker_in-Keeps draining = drain-Keeps (pop_front (p.queues i))
  worker_in-Keeps (stealing j) = elim (Bool-cases (ltb j p.size)) [
    | inl e ↦ rw e (steal-Keeps j ((i + j) % p.size) (pop_back (p.queues ((i + j) % p.size))))
    | inr e ↦ rw e (omega arith)
  ]
  worker_in-Keeps (taken t b) = omega arith
  worker_in-Keeps (invoking t b) = omega arith
  worker_in-Keeps (invoked b) = omega arith
  worker_in-Keeps testing = omega arith
  worker_in-Keeps signalling = omega arith
  worker_in-Keeps storing = ground arith
  worker_in-Keeps looping = omega arith
  worker_in-Keeps exited = omega arith

rotate_front-flag :
    (t : ℕ) (r : Option (ℕ × List ℕ)) (p : Pool) → (rotate_front t r p).1.complete ≡ p.complete
rotate_front-flag t none p = refl
rotate_front-flag t (some (i, rest)) p = refl

caller_in-flag : (ph : Caller) (p : Pool) → flag (caller_in ph p).1.complete ≤ flag p.complete
unfolding caller_in
caller_in-flag (rotating t) p =
    omega (arith, ap flag (rotate_front-flag t (pop_front p.priority) p))
caller_in-flag (clearing t i) p = omega arith
caller_in-flag (flying t i) p = omega arith
caller_in-flag (dropped t) p = omega arith
caller_in-flag (putting_back t i) p = omega arith
caller_in-flag (counting t i) p = omega arith
caller_in-flag (pushing t i) p = omega arith
caller_in-flag (releasing i) p = omega arith
caller_in-flag finished p = omega arith

-- A step of a waiting call blocks it only while the flag is false.
module _ (p : Pool) (x : ℕ) where
  wait_in-awake :
      (w : Waiter)
      → is_blocked w + flag p.complete ≤ 1 + x
      → is_blocked (wait_in w p) + flag p.complete ≤ 1 + x
  unfolding wait_in
  wait_in-awake reading h = elim (Bool-cases (ltb 0 p.in_flight)) [
    | inl e ↦ rw e h
    | inr e ↦ rw e h
  ]
  wait_in-awake checking h = elim (Bool-cases p.complete) [
    | inl e ↦ rw e (omega arith)
    | inr e ↦ rw e (omega arith)
  ]
  wait_in-awake blocked h = h
  wait_in-awake returned h = h

module _ (calls n : ℕ) (ids : List ℕ) (tasks : ℕ → ℕ) where
  -- What the pool does among waiting calls it also does without them.
  pub Reach-system :
      {waits : ℕ} (h : Hall)
      → Reach calls waits (opened n ids tasks) h
      → System.Reach calls (start n ids tasks) h.system
  Reach-system _ here = System.here
  Reach-system _ (next {t = h} r (works i lt e)) =
      System.next (Reach-system h r) (System.works i lt)
  Reach-system _ (next {t = h} r (calls_on c lt)) =
      System.next (Reach-system h r) (System.calls_on c lt)
  Reach-system _ (next {t = h} r (waits_on w lt)) = Reach-system h r
  Reach-system _ (next {t = h} r (notifies i lt e w wlt b)) = Reach-system h r
  Reach-system _ (next {t = h} r (notifies_none i lt e b)) = Reach-system h r

  size_of :
      {waits : ℕ} (h : Hall) → Reach calls waits (opened n ids tasks) h → h.system.pool.size ≡ n
  size_of h r = Reach-size calls n ids tasks h.system (Reach-system h r)

  -- A single call that is blocked while the flag is true will be notified.
  pub Reach-awake :
      (h : Hall)
      → Reach calls 1 (opened n ids tasks) h
      → is_blocked (h.waiters 0) + flag h.system.pool.complete ≤ 1 + total flag n h.notifying
  Reach-awake _ here = omega arith
  Reach-awake _ (next {t = h} r (works i lt e)) =
      let s = h.system in
      omega (
        arith,
        Reach-awake h r,
        worker_in-Keeps i (s.stops i) s.pool (s.workers i),
        total-update flag n h.notifying i (stores (s.workers i)) (omega (arith, size_of h r)),
        ap flag e,
      )
  Reach-awake _ (next {t = h} r (calls_on c lt)) =
      omega (arith, Reach-awake h r, caller_in-flag (h.system.callers c) h.system.pool)
  Reach-awake _ (next {t = h} r (waits_on zero lt)) =
      wait_in-awake h.system.pool (total flag n h.notifying) (h.waiters 0) (Reach-awake h r)
  Reach-awake _ (next {t = h} r (waits_on (suc w) lt)) = absurd (omega arith)
  Reach-awake _ (next {t = h} r (notifies i lt e zero wlt b)) =
      omega (arith, flag_le h.system.pool.complete)
  Reach-awake _ (next {t = h} r (notifies i lt e (suc w) wlt b)) = absurd (omega arith)
  Reach-awake _ (next {t = h} r (notifies_none i lt e b)) =
      omega
        (arith, flag_le h.system.pool.complete, total-zero is_blocked 1 h.waiters b 0 (omega arith))

  module _ (h : Hall) (reached : Reach calls 1 (opened n ids tasks) h) (valid : Within n ids)
      (none_lost : (c : ℕ) → c < calls → is_dropped (h.system.callers c) ≡ 0)
      (none_exited : (i : ℕ) → i < n → h.system.workers i ≢ exited)
      (none_notifying : (i : ℕ) → i < n → h.notifying i ≡ false)
      (workers_stuck : (i : ℕ) → i < n → (work i h.system).workers i ≡ h.system.workers i)
      (callers_stuck : (c : ℕ) → c < calls → (call c h.system).callers c ≡ h.system.callers c)
      (waiter_stuck : (wait_on 0 h).waiters 0 ≡ h.waiters 0) where
    -- One call of `WaitForTasks` on a running pool, beside the threads and at least one call of
    -- `EnqueueTask`: for a pool whose priority queue holds identifiers of its threads, in a
    -- reachable state in which no call of `EnqueueTask` has found that queue empty, no thread has
    -- left its loop or stands in front of `notify_one`, and no step moves a thread, a call of
    -- `EnqueueTask` or that of `WaitForTasks`, the last has returned. So it never waits for ever
    -- while nothing else moves.
    pub Reach-returned : 0 < calls → h.waiters 0 ≡ returned
    unfolding wait_in
    Reach-returned some_calls =
        let (flight, complete, _) =
          Reach-stuck calls n ids tasks h.system (Reach-system h reached) valid none_lost
            none_exited workers_stuck callers_stuck some_calls in
        let quiet = total_zero flag n h.notifying (λ i lt. ap flag (none_notifying i lt)) in
        go (h.waiters 0) refl flight complete
          (omega (arith, Reach-awake h reached, quiet, ap flag complete)) waiter_stuck
      where
        go :
            (w : Waiter)
            → h.waiters 0 ≡ w
            → h.system.pool.in_flight ≡ 0
            → h.system.pool.complete ≡ true
            → is_blocked (h.waiters 0) ≡ 0
            → wait_in (h.waiters 0) h.system.pool ≡ h.waiters 0
            → h.waiters 0 ≡ returned
        go reading e f g b k = sym k ∙ rw (e, f)
        go checking e f g b k = sym k ∙ rw (e, g)
        go blocked e f g b k = absurd (omega (arith, ap is_blocked e))
        go returned e f g b k = e
