-- ===== src/Pool/Progress/Rest.antt =====
-- From every state before the destructor runs the pool can come to rest.
use ss_logger_cpp.Prelude.{
  ℕ, zero, suc, ◌+◌, ◌<◌, ◌≤◌, ◌≡◌, inl, inr, refl, ◌∙◌, subst, arith, List,
}
use ss_logger_cpp.Pool.Family.{total, total_zero, weigh}
use ss_logger_cpp.Pool.System.{System, entering, Reach, here, start}
use ss_logger_cpp.Pool.Counters.Weights.{
  one, worker_task, caller_task, worker_flight, caller_flight,
}
use ss_logger_cpp.Pool.Counters.Caller.{Within}
use ss_logger_cpp.Pool.Counters.Reached.{Reach-IsCounted}
use ss_logger_cpp.Pool.Progress.Stuck.{Reach-size}
use ss_logger_cpp.Pool.Progress.Busy.{worth, busy}
use ss_logger_cpp.Pool.Progress.Onward.{Reach-then, returned_call}
use ss_logger_cpp.Pool.Progress.Useful.{
  IsResting, queued-none, waiting_queue, progress, executed_le,
}

module _ (calls n : ℕ) (ids : List ℕ) (tasks : ℕ → ℕ) (valid : Within n ids) where
  Rests : System → Type 0
  Rests s =
      (t : System) × Reach calls s t
      × Reach calls (start n ids tasks) t
      × (t.closer ≡ entering)
      × IsResting calls n t

  settle :
      (k : ℕ) (s : System)
      → Reach calls (start n ids tasks) s
      → s.closer ≡ entering
      → busy n calls s + total (worth n) calls tasks ≤ k + weigh (worth n) s.pool.executed
      → Rests s
  unfolding Rests
  settle zero s r e h = elim (progress calls n ids tasks valid s r e) [
    | inl (t, steps, f, less) ↦ absurd (
        omega (
          arith,
          h,
          less,
          executed_le calls n ids tasks valid t (Reach-then r steps) (f ∙ e) (worth n),
        ))
    | inr resting ↦ (s, here, r, e, resting)
  ]
  settle (suc k) s r e h = elim (progress calls n ids tasks valid s r e) [
    | inl (t, steps, f, less) ↦
        let (u, more, from_start, open_still, resting) =
          settle k t (Reach-then r steps) (f ∙ e) (omega (arith, h, less)) in
        (u, Reach-then steps more, from_start, open_still, resting)
    | inr resting ↦ (s, here, r, e, resting)
  ]

  -- For a pool whose priority queue holds identifiers of its threads, from every reachable state in
  -- which the destructor has not begun, steps lead to a state in which it has still not begun,
  -- every call of `EnqueueTask` has returned, every thread waits for a signal, no task is in
  -- flight, and each task is executed just once or is that of a call that has not put it in a
  -- queue, any weight of tasks adding up the same. So the calls and the threads alone can always
  -- bring the pool to rest.
  pub Reach-rests :
      (s : System)
      → Reach calls (start n ids tasks) s
      → s.closer ≡ entering
      → (t : System) × Reach calls s t
        × (t.closer ≡ entering)
        × IsResting calls n t
        × (t.pool.in_flight ≡ 0)
        × ((w : ℕ → ℕ)
            → weigh w t.pool.executed + total (caller_task w) calls t.callers ≡ total w calls tasks)
  unfolding Rests
  Reach-rests s r e =
      let (t, steps, from_start, open_still, resting) =
        settle (busy n calls s + total (worth n) calls tasks) s r e (omega arith) in
      let size = λ (i : ℕ) (lt : i < t.pool.size).
        subst (λ m. i < m) (Reach-size calls n ids tasks t from_start) lt in
      let empty = λ (i : ℕ) (lt : i < n).
        waiting_queue calls n ids tasks valid t from_start open_still resting.returned i
          (resting.waits i lt).0 (resting.waits i lt).1 in
      let counted = Reach-IsCounted calls n ids tasks valid t from_start in
      (
        t,
        steps,
        open_still,
        resting,
        omega (
          arith,
          counted.flights,
          queued-none calls n ids tasks valid t from_start open_still empty one,
          total_zero worker_flight t.pool.size t.workers
              (λ i lt. rw ((resting.waits i (size i lt)).0) refl),
          total_zero caller_flight calls t.callers
              (λ c lt. (returned_call 0 (t.callers c) (resting.returned c lt)).0),
        ),
        λ w. omega (
          arith,
          counted.kept w,
          queued-none calls n ids tasks valid t from_start open_still empty w,
          total_zero (worker_task w) t.pool.size t.workers
              (λ i lt. rw ((resting.waits i (size i lt)).0) refl),
        ),
      )
