-- ===== src/Pool/Progress/Ended.antt =====
-- From every state before the destructor runs the destructor can come to its end.
use ss_logger_cpp.Prelude.{ℕ, ◌+◌, ◌<◌, ◌≡◌, refl, subst, arith, List}
use ss_logger_cpp.Pool.Family.{total, total_zero, weigh}
use ss_logger_cpp.Pool.System.{
  System, entering, requesting, unreturned, close_in, Step, closes, Reach, next, start,
}
use ss_logger_cpp.Pool.Counters.Weights.{
  one, queued, worker_task, caller_task, worker_unassigned, caller_unassigned,
}
use ss_logger_cpp.Pool.Counters.Caller.{Within}
use ss_logger_cpp.Pool.Counters.Reached.{Reach-IsCounted}
use ss_logger_cpp.Pool.Progress.Stuck.{Reach-size}
use ss_logger_cpp.Pool.Progress.Onward.{Reach-then, returned_call}
use ss_logger_cpp.Pool.Progress.Useful.{IsResting, queued-none, waiting_queue}
use ss_logger_cpp.Pool.Progress.Rest.{Reach-rests}
use ss_logger_cpp.Pool.Progress.Leaving.{IsIdle, IsIdle-closer}
use ss_logger_cpp.Pool.Progress.Turns.{IsTurn, IsEnded, ends}

close_in-entered :
    (s : System)
    → s.closer ≡ entering
    → s.pool.in_flight ≡ 0
    → close_in s.closer s ≡ record s { closer = requesting 0 }
unfolding close_in
close_in-entered s e f = rw e (rw f refl)

module _ (calls n : ℕ) (ids : List ℕ) (tasks : ℕ → ℕ) (valid : Within n ids) where
  resting-IsIdle :
      (s : System)
      → Reach calls (start n ids tasks) s
      → s.closer ≡ entering
      → IsResting calls n s
      → s.pool.in_flight ≡ 0
      → IsIdle calls n s
  resting-IsIdle s r e h f =
      let size = Reach-size calls n ids tasks s r in
      let empty = λ (i : ℕ) (lt : i < n).
        waiting_queue calls n ids tasks valid s r e h.returned i (h.waits i lt).0
          (h.waits i lt).1 in
      record {
        size = size;
        empty = empty;
        none_unassigned = omega (
          arith,
          (Reach-IsCounted calls n ids tasks valid s r).waiting,
          queued-none calls n ids tasks valid s r e empty one,
          total_zero worker_unassigned s.pool.size s.workers
              (λ i lt. rw ((h.waits i (subst (λ m. i < m) size lt)).0) refl),
          total_zero caller_unassigned calls s.callers
              (λ c lt. (returned_call 0 (s.callers c) (h.returned c lt)).1),
        );
        none_in_flight = f;
        returned = total_zero unreturned calls s.callers h.returned;
      }

  all_executed :
      (s : System)
      → Reach calls (start n ids tasks) s
      → IsIdle calls n s
      → IsEnded n s
      → (w : ℕ → ℕ)
      → weigh w s.pool.executed + total (caller_task w) calls s.callers ≡ total w calls tasks
  unfolding queued weigh
  all_executed s r idle ended w =
      let inside = λ (i : ℕ) (lt : i < s.pool.size). subst (λ m. i < m) idle.size lt in
      omega (
        arith,
        (Reach-IsCounted calls n ids tasks valid s r).kept w,
        total_zero (weigh w) s.pool.size s.pool.queues
            (λ i lt. rw (idle.empty i (inside i lt)) refl),
        total_zero (worker_task w) s.pool.size s.workers
            (λ i lt. rw (ended.gone i (inside i lt)) refl),
      )

  -- For a pool whose priority queue holds identifiers of its threads, from every reachable state in
  -- which the destructor has not begun, steps of the calls of `EnqueueTask`, of the threads and of
  -- the destructor lead to a state in which the destructor is behind its last line, every thread
  -- has left its loop, every call has returned, and each task is executed just once or is that of a
  -- call that has not put it in a queue, any weight of tasks adding up the same. So no order of
  -- steps before the destructor keeps it from its end.
  pub Reach-ends :
      (s : System)
      → Reach calls (start n ids tasks) s
      → s.closer ≡ entering
      → (t : System) × Reach calls s t
        × IsEnded n t
        × (total unreturned calls t.callers ≡ 0)
        × ((w : ℕ → ℕ)
            → weigh w t.pool.executed + total (caller_task w) calls t.callers ≡ total w calls tasks)
  Reach-ends s r e =
      let (t, steps, still, resting, flight, executed) =
        Reach-rests calls n ids tasks valid s r e in
      let from_start = Reach-then r steps in
      let idle = resting-IsIdle t from_start still resting flight in
      let begun = record t { closer = requesting 0 } in
      let step : Step calls t begun =
        subst (λ u. Step calls t u) (close_in-entered t still flight) (closes idle.returned) in
      let turn : IsTurn calls n 0 begun = record {
        idle = IsIdle-closer calls n t (requesting 0) idle;
        turn = refl;
        gone = λ j lt. absurd (omega arith);
        waits = λ j _ lt. (resting.waits j lt).0;
      } in
      let (u, more, over, ended) = ends calls n n 0 begun (omega arith) turn in
      let onward = Reach-then (next steps step) more in
      (u, onward, ended, over.returned, λ w. all_executed u (Reach-then r onward) over ended w)
