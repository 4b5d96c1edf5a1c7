-- ===== src/Pool/Counters/Weights.antt =====
-- What a thread, a call and the queues hold, as numbers.
use ss_logger_cpp.Prelude.{ℕ, ◌+◌, ◌≡◌, arith, List, [], ◌∷◌, some, Option-cases, inl, inr}
use ss_logger_cpp.Queue.Contents.{pop_front, pop_back, pop_back-none}
use ss_logger_cpp.Pool.Family.{total, weigh}
use ss_logger_cpp.Pool.State.{
  Pool, Worker, taken, invoking, invoked, Caller, rotating, dropped, putting_back, counting, flying,
  clearing, pushing,
}

module _ (w : ℕ → ℕ) where
  -- The weight of the tasks in the queues.
  unfoldable pub queued : Pool → ℕ
  queued p = total (weigh w) p.size p.queues

  -- Of the task that a thread has taken and not invoked yet.
  abbrev pub worker_task : Worker → ℕ
  worker_task (taken t _) = w t
  worker_task (invoking t _) = w t
  worker_task _ = 0

  -- Of the task that a call has not put in a queue, also where it never will.
  abbrev pub caller_task : Caller → ℕ
  caller_task (rotating t) = w t
  caller_task (dropped t) = w t
  caller_task (putting_back t _) = w t
  caller_task (counting t _) = w t
  caller_task (flying t _) = w t
  caller_task (clearing t _) = w t
  caller_task (pushing t _) = w t
  caller_task _ = 0

  pub pop_front-weigh :
      (xs : List ℕ) (x : ℕ) (rest : List ℕ)
      → pop_front xs ≡ some (x, rest)
      → weigh w xs ≡ weigh w rest + w x
  unfolding pop_front weigh
  pop_front-weigh [] x rest h = cc
  pop_front-weigh (y ∷ ys) x rest h = ground arith

  pub pop_back-weigh :
      (xs : List ℕ) (x : ℕ) (rest : List ℕ)
      → pop_back xs ≡ some (x, rest)
      → weigh w xs ≡ weigh w rest + w x
  unfolding pop_back weigh
  pop_back-weigh [] x rest h = cc
  pop_back-weigh (y ∷ ys) x rest h = elim (Option-cases (pop_back ys)) [
    | inl e ↦ ground (arith, pop_back-none ys e)
    | inr ((z, zs), e) ↦ ground (arith, pop_back-weigh ys z zs e)
  ]

-- A thread that holds a task counted in `m_in_flight_tasks`.
abbrev pub worker_flight : Worker → ℕ
worker_flight (taken _ _) = 1
worker_flight (invoking _ _) = 1
worker_flight (invoked _) = 1
worker_flight _ = 0

abbrev pub caller_flight : Caller → ℕ
caller_flight (clearing _ _) = 1
caller_flight (pushing _ _) = 1
caller_flight _ = 0

-- One that holds a task counted in `m_unassigned_tasks`.
abbrev pub worker_unassigned : Worker → ℕ
worker_unassigned (taken _ _) = 1
worker_unassigned _ = 0

abbrev pub caller_unassigned : Caller → ℕ
caller_unassigned (flying _ _) = 1
caller_unassigned (clearing _ _) = 1
caller_unassigned (pushing _ _) = 1
caller_unassigned _ = 0

abbrev pub one : ℕ → ℕ
one _ = 1
