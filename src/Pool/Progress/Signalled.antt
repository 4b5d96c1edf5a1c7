-- ===== src/Pool/Progress/Signalled.antt =====
-- Who sets `m_threads_complete_signal`.
use ss_logger_cpp.Prelude.{
  ℕ, zero, suc, ◌+◌, ◌%◌, ◌<◌, ◌≤◌, ◌≡◌, refl, arith, Bool, true, false, Bool-cases, inl, inr, List,
  [], ◌∷◌, Option, none, some, ltb, ◌++◌, ◌-◌,
}
use ss_logger_cpp.Queue.Contents.{pop_front, pop_back}
use ss_logger_cpp.Pool.Family.{le-total, total, total-update}
use ss_logger_cpp.Pool.State.{
  Pool, Worker, acquiring, draining, testing, signalling, storing, looping, exited, stealing, taken,
  invoking, invoked, acquire, drain, steal, Caller, rotating, dropped, putting_back, counting,
  flying, clearing, pushing, releasing, finished, rotate_front, worker_in, caller_in,
  caller_in-size,
}
use ss_logger_cpp.Pool.System.{
  System, works, calls_on, closes, close_in-unchanged, Reach, here, next, start,
}
use ss_logger_cpp.Pool.Counters.Weights.{caller_flight}
use ss_logger_cpp.Pool.Counters.Worker.{worker_in-Keeps}
use ss_logger_cpp.Pool.Counters.Caller.{Within}
use ss_logger_cpp.Pool.Counters.Reached.{Reach-IsCounted}
use ss_logger_cpp.Pool.Progress.Attended.{full}

-- A thread that will test `m_in_flight_tasks`, or has found it 0.
abbrev pub active : Worker → ℕ
active acquiring = 0
active looping = 0
active exited = 0
active _ = 1

abbrev pub flag : Bool → ℕ
flag true = 1
flag false = 0

pub flag_le : (b : Bool) → flag b ≤ 1
flag_le true = omega arith
flag_le false = omega arith

-- Why the flag may be missing: tasks in flight, or none ever executed.
abbrev pub signal : Pool → ℕ
signal p = p.in_flight + flag p.complete + (1 - full p.executed)

full-append : (xs : List ℕ) (x : ℕ) → full (xs ++ x ∷ []) ≡ 1
full-append [] x = refl
full-append (y ∷ ys) x = refl

module _ (p : Pool) where
  abbrev Signals : Worker → Worker × Pool → Type 0
  Signals ph r = (x : ℕ) → 0 < signal p + active ph + x → 0 < signal r.1 + active r.0 + x

  acquire-Signals : (id k : ℕ) → Signals acquiring (acquire id k p)
  acquire-Signals id zero x h = h
  acquire-Signals id (suc k) x h = omega arith

  drain-Signals : (id : ℕ) (r : Option (ℕ × List ℕ)) → Signals draining (drain id r p)
  drain-Signals id none x h = omega arith
  drain-Signals id (some (t, rest)) x h = omega arith

  steal-Signals : (j i : ℕ) (r : Option (ℕ × List ℕ)) → Signals (stealing j) (steal j i r p)
  steal-Signals j i none x h = omega arith
  steal-Signals j i (some (t, rest)) x h = omega arith

  worker_in-Signals : (id : ℕ) (stop : Bool) (ph : Worker) → Signals ph (worker_in id stop ph p)
  unfolding worker_in
  worker_in-Signals id stop acquiring x h = acquire-Signals id (p.signals id) x h
  worker_in-Signals id stop draining x h = drain-Signals id (pop_front (p.queues id)) x h
  worker_in-Signals id stop (stealing j) x h = elim (Bool-cases (ltb j p.size)) [
    | inl e ↦
        rw e (steal-Signals j ((id + j) % p.size) (pop_back (p.queues ((id + j) % p.size))) x h)
    | inr e ↦ rw e (omega arith)
  ]
  worker_in-Signals id stop (taken t stolen) x h = omega arith
  worker_in-Signals id stop (invoking t stolen) x h = omega arith
  worker_in-Signals id stop (invoked true) x h = omega arith
  worker_in-Signals id stop (invoked false) x h = omega arith
  worker_in-Signals id stop testing x h = ground arith
  worker_in-Signals id stop signalling x h = ground arith
  worker_in-Signals id stop storing x h = omega arith
  worker_in-Signals id true looping x h = h
  worker_in-Signals id false looping x h = h
  worker_in-Signals id stop exited x h = h

  -- The flag is cleared only by a call that counts as in flight.
  caller_in-signal :
      (ph : Caller) (x : ℕ)
      → caller_flight ph ≤ p.in_flight
      → 0 < signal p + x
      → 0 < signal (caller_in ph p).1 + x
  unfolding caller_in
  caller_in-signal (rotating t) x k h = go (pop_front p.priority)
    where
      go : (r : Option (ℕ × List ℕ)) → 0 < signal (rotate_front t r p).1 + x
      go none = h
      go (some (i, rest)) = h
  caller_in-signal (dropped t) x k h = h
  caller_in-signal (putting_back t i) x k h = h
  caller_in-signal (counting t i) x k h = h
  caller_in-signal (flying t i) x k h = omega arith
  caller_in-signal (clearing t i) x k h = omega arith
  caller_in-signal (pushing t i) x k h = h
  caller_in-signal (releasing i) x k h = h
  caller_in-signal finished x k h = h

module _ (calls n : ℕ) (ids : List ℕ) (tasks : ℕ → ℕ) (valid : Within n ids) where
  -- In every reachable state there is a reason why the flag may be missing, or a thread that will
  -- look at the counter.
  pub Reach-signalled :
      (s : System)
      → Reach calls (start n ids tasks) s
      → 0 < signal s.pool + total active s.pool.size s.workers
  Reach-signalled _ here = omega arith
  Reach-signalled _ (next {t = s} r (works i lt)) =
      let stop = s.stops i in
      let step = worker_in i stop (s.workers i) s.pool in
      let rest = total active s.pool.size s.workers - active (s.workers i) in
      let member = le-total active s.pool.size s.workers i lt in
      rw (worker_in-Keeps s.pool i stop (s.workers i) lt).0 (
        omega (
          arith,
          worker_in-Signals s.pool i stop (s.workers i) rest
              (omega (arith, Reach-signalled s r, member)),
          total-update active s.pool.size s.workers i step.0 lt,
          member,
        ))
  Reach-signalled _ (next {t = s} r (closes returned)) =
      let (workers, _, pool, _) = close_in-unchanged s.closer s in
      rw (pool, workers) (Reach-signalled s r)
  Reach-signalled _ (next {t = s} r (calls_on c lt)) =
      let h = Reach-IsCounted calls n ids tasks valid s r in
      let q = caller_in (s.callers c) s.pool in
      rw (caller_in-size (s.callers c) s.pool) (
        caller_in-signal s.pool (s.callers c) (total active s.pool.size s.workers)
          (omega (arith, h.flights, le-total caller_flight calls s.callers c lt))
          (Reach-signalled s r))
