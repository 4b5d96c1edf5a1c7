-- ===== src/Tests/Progress.antt =====
-- Runs of one thread up to the rest of the pool and to the end of the destructor.
use ss_logger_cpp.Prelude.{
  ℕ, ◌+◌, ◌≡◌, refl, arith, Bool, true, List, false, not, ◌&&◌, [], ◌∷◌, some, none, ltb, ◌==◌,
  if◌then◌else◌,
}
use ss_logger_cpp.Pool.Family.{weigh, total}
use ss_logger_cpp.Queue.Contents.{push_back, pop_back}
use ss_logger_cpp.Pool.Init.{construct, initialize_threads, start_thread}
use ss_logger_cpp.Pool.State.{caller_in}
use ss_logger_cpp.Pool.System.{
  System, entering, unreturned, work, call, calls_on, Reach, here, next,
}
use ss_logger_cpp.Pool.Producer.{InTurn, begins, threads, enqueues}
use ss_logger_cpp.Pool.Producer.Served.{InTurn-served}
use ss_logger_cpp.Pool.Lifetime.{constructed, constructed-delivers}
use ss_logger_cpp.Pool.Identifiers.{is_dropped}
use ss_logger_cpp.Pool.Counters.Weights.{caller_task}
use ss_logger_cpp.Pool.Tasks.{Outcome, raised, returned}
use ss_logger_cpp.Pool.Futures.{outcome}
use ss_logger_cpp.Pool.Futures.Delivered.{Reach-delivers}
use ss_logger_cpp.Pool.Progress.Useful.{IsResting}
use ss_logger_cpp.Pool.Progress.Rest.{Reach-rests}
use ss_logger_cpp.Pool.Progress.Turns.{IsEnded}
use ss_logger_cpp.Pool.Progress.Ended.{Reach-ends}
use ss_logger_cpp.Tests.Pool.{tasks, idle, idle-Reach}

-- The thread has just taken the task.
Reach-rests_example :
    (t : System) × Reach 1 (idle 2) t
    × (t.closer ≡ entering)
    × IsResting 1 1 t
    × (t.pool.in_flight ≡ 0)
    × ((w : ℕ → ℕ) → weigh w t.pool.executed + total (caller_task w) 1 t.callers ≡ total w 1 tasks)
Reach-rests_example = Reach-rests 1 1 (0 ∷ []) tasks (omega arith, tt) (idle 2) (idle-Reach 2) refl

Reach-ends_example :
    (t : System) × Reach 1 (idle 2) t
    × IsEnded 1 t
    × (total unreturned 1 t.callers ≡ 0)
    × ((w : ℕ → ℕ) → weigh w t.pool.executed + total (caller_task w) 1 t.callers ≡ total w 1 tasks)
Reach-ends_example = Reach-ends 1 1 (0 ∷ []) tasks (omega arith, tt) (idle 2) (idle-Reach 2) refl

-- The function of the task throws.
abbrev fails : ℕ → Outcome ℕ ℕ
fails t = raised 7

abbrev none_detached : ℕ → Bool
none_detached c = false

Reach-delivers_example :
    (t : System) × Reach 1 (idle 2) t
    × IsEnded 1 t
    × ((outcome 99 fails none_detached 1 1 (0 ∷ []) t).0 ≡ returned tt)
    × ((c : ℕ)
        → (outcome 99 fails none_detached 1 1 (0 ∷ []) t).1 c ≡ (
            if (ltb c 1 && is_dropped (t.callers c) == 0) && not (none_detached c)
            then some (fails c)
            else none))
Reach-delivers_example =
    Reach-delivers 99 fails none_detached 1 1 (0 ∷ []) (omega arith, tt) (idle 2) (idle-Reach 2)
      refl

-- Of three threads the second cannot be started. Both calls have taken an identifier.
abbrev outcomes : List Bool
outcomes = true ∷ false ∷ true ∷ []

-- The function that `ThreadLoop` invokes first throws.
abbrev init_fails : ℕ → Outcome ℕ (Unit {0})
init_fails i = raised i

abbrev called : System
called = call 1 (call 0 (constructed init_fails outcomes))

constructed-delivers_example :
    (t : System) × Reach 2 called t
    × IsEnded 2 t
    × ((outcome 99 fails none_detached 2
          (construct outcomes).tasks
          (construct outcomes).priority
          t).0
        ≡ returned tt)
    × ((c : ℕ)
        → (outcome 99 fails none_detached 2
              (construct outcomes).tasks
              (construct outcomes).priority
              t).1
            c
          ≡ (if ltb c 2 && not (none_detached c) then some (fails c) else none))
unfolding construct initialize_threads start_thread push_back pop_back
constructed-delivers_example =
    constructed-delivers 99 fails none_detached 2 init_fails outcomes (omega arith) called
      (next (next here (calls_on 0 (omega arith))) (calls_on 1 (omega arith))) refl

-- Five calls on these two threads; the first is at its second line, and a thread has looked for its
-- signal.
abbrev producing : System
producing = work 1 (call 0 (constructed init_fails outcomes))

InTurn-served_example :
    ((c : ℕ) → is_dropped (producing.callers c) ≡ 0)
    × ((t : System) × InTurn 5 producing t
        × IsEnded 2 t
        × ((outcome 99 fails none_detached 5
              (construct outcomes).tasks
              (construct outcomes).priority
              t).0
            ≡ returned tt)
        × ((c : ℕ)
            → (outcome 99 fails none_detached 5
                  (construct outcomes).tasks
                  (construct outcomes).priority
                  t).1
                c
              ≡ (if ltb c 5 && not (none_detached c) then some (fails c) else none)))
unfolding construct initialize_threads start_thread push_back pop_back total caller_in
InTurn-served_example =
    InTurn-served 99 fails none_detached 5 init_fails outcomes (omega arith) producing
      (threads (enqueues begins 0 (omega arith) refl) 1 (omega arith)) refl
