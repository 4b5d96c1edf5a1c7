-- ===== src/Tests/Alone.antt =====
-- Calls and rounds of the pool with nothing in between.
use ss_logger_cpp.Prelude.{
  false, ◌==◌, ==_iff, ℕ, zero, suc, ◌<◌, ◌≡◌, refl, arith, true, Bool, List, [], ◌∷◌, ◌++◌,
}
use ss_logger_cpp.Queue.Contents
use ss_logger_cpp.Pool.State
use ss_logger_cpp.Pool.State.{
  Pool, Worker, Caller, acquiring, storing, exited, rotating, finished, wait_returns,
}
use ss_logger_cpp.Pool.System.{System, closed, unreturned, Reach, here, start}
use ss_logger_cpp.Pool.Alone.Calls.{calls_in_turn, enqueue_at_once, end_of, SameBut, enqueue-alone}
use ss_logger_cpp.Pool.Alone.Lost.{storing-lost}
use ss_logger_cpp.Pool.Alone.Overrun.{late, storing-returns_early}
use ss_logger_cpp.Pool.Alone.Rounds.{begun, listed}
use ss_logger_cpp.Pool.Alone.Balance.{dealt, spaced, rounds-balance}
use ss_logger_cpp.Pool.Init.{construct, initialize_threads, start_thread}
use ss_logger_cpp.Pool.Alone.Order.{rounds-executed}
use ss_logger_cpp.Tests.Pool.{tasks, beginning, called-Reach, worked-Reach, idle}

-- A call alone.
enqueue-alone_example :
    ((calls_in_turn 0 7 beginning).pool ≡ enqueue_at_once 0 beginning.pool)
    × ((calls_in_turn 0 7 beginning).callers 0 ≡ end_of (0 ∷ []) 0)
    × SameBut 0 beginning (calls_in_turn 0 7 beginning)
enqueue-alone_example = enqueue-alone 0 beginning 0 refl

-- The first call is over and the thread is about to set the flag when the second call begins.
storing-returns_early_example :
    Reach 2 beginning (late 2 0 1 1 0 [] beginning (idle 9))
    × (wait_returns (late 2 0 1 1 0 [] beginning (idle 9)).pool ≡ true)
    × ((late 2 0 1 1 0 [] beginning (idle 9)).pool.in_flight ≡ 1)
    × ((late 2 0 1 1 0 [] beginning (idle 9)).pool.executed ≡ (idle 9).pool.executed)
    × ((late 2 0 1 1 0 [] beginning (idle 9)).pool.queues 0 ≡ (idle 9).pool.queues 0 ++ 1 ∷ [])
unfolding State.caller_in State.worker_in Contents.pop_front Contents.push_back
storing-returns_early_example =
    storing-returns_early 2 0 1 1 0 [] beginning (idle 9)
      (worked-Reach 2 9 (called-Reach 2 0 (omega arith) 7 here)) (omega arith) (omega arith) refl
      refl refl refl

first_returned : (d : ℕ) → d < 2 → (1 == d) ≡ false → unreturned ((idle 9).callers d) ≡ 0
unfolding State.caller_in State.worker_in Contents.pop_front Contents.push_back
first_returned zero lt e = refl
first_returned (suc d) lt e = absurd (ground (arith, ==_iff 1 (suc d)))

storing-lost_example :
    (u : System) × Reach 2 beginning u
    × (u.closer ≡ closed)
    × (u.workers 0 ≡ exited)
    × (u.pool.executed ≡ (idle 9).pool.executed)
    × (u.pool.queues 0 ≡ (idle 9).pool.queues 0 ++ 1 ∷ [])
unfolding State.caller_in State.worker_in Contents.pop_front Contents.push_back
storing-lost_example =
    storing-lost 2 1 1 beginning (idle 9) (worked-Reach 2 9 (called-Reach 2 0 (omega arith) 7 here))
      refl (omega arith) refl refl refl refl refl first_returned

rounds-executed_example :
    (u : System) × Reach 2 (begun tasks 1 (0 ∷ [])) u
    × (u.pool.executed ≡ listed tasks 0 2)
    × (u.pool.in_flight ≡ 0)
    × (u.pool.complete ≡ true)
rounds-executed_example = rounds-executed 2 tasks (omega arith)

-- Two threads, the second of three could not be started, and five calls.
abbrev outcomes : List Bool
outcomes = true ∷ false ∷ true ∷ []

rounds-balance_example :
    Reach 5
      (start (construct outcomes).tasks (construct outcomes).priority tasks)
      (dealt tasks outcomes 2 1)
    × ((dealt tasks outcomes 2 1).pool.in_flight ≡ 5)
    × ((dealt tasks outcomes 2 1).pool.queues 0 ≡ spaced tasks 0 2 3)
    × ((dealt tasks outcomes 2 1).pool.signals 0 ≡ 3)
unfolding construct initialize_threads start_thread Contents.push_back Contents.pop_back
rounds-balance_example = rounds-balance tasks outcomes 2 1 (omega arith) 0 (omega arith)
