-- ===== src/Pool/Alone/Overrun.antt =====
-- Runs of the steps in an order that the code allows.
use ss_logger_cpp.Prelude.{ℕ, ◌<◌, ◌≡◌, refl, arith, true, List, [], ◌∷◌, ◌++◌, ==_iff, ap, ◌∙◌}
use ss_logger_cpp.Pool.State.{Pool, rotating, storing, wait_returns, worker_in}
use ss_logger_cpp.Pool.System.{System, work, works, Reach, next}
use ss_logger_cpp.Pool.Alone.Calls.{calls_in_turn, calls_in_turn-Reach, enqueue-alone, enqueue_onto}

stored :
    (i : ℕ) (s : System)
    → s.workers i ≡ storing
    → (work i s).pool ≡ record (s.pool) { complete = true }
unfolding worker_in
stored i s e = rw e

-- A thread in `SignalCompletion` that has found the counter 0 sets the flag after a whole call of
-- `EnqueueTask`.
module _ (calls i c t id : ℕ) (rest : List ℕ) (from s : System) where
  abbrev pub late : System
  late = work i (calls_in_turn c 7 s)

  pub storing-stored :
      s.workers i ≡ storing
      → s.callers c ≡ rotating t
      → s.pool.priority ≡ id ∷ rest
      → late.pool ≡ record (enqueue_onto (id ∷ rest) t s.pool) { complete = true }
  storing-stored e f g =
      let (pool, _, (workers, _, _, _)) = enqueue-alone c s t f in
      stored i (calls_in_turn c 7 s) (ap (λ ws. ws i) workers ∙ e)
      ∙ ap (λ (p : Pool). record p { complete = true })
          (pool ∙ ap (λ xs. enqueue_onto xs t s.pool) g)

  -- When a thread in `SignalCompletion` has found the counter 0, and a whole call of `EnqueueTask`
  -- runs before it stores the flag, a reachable state follows in which `WaitForTasks` returns
  -- although that task is in flight, in its queue and not executed.
  pub storing-returns_early :
      Reach calls from s
      → i < s.pool.size
      → c < calls
      → s.workers i ≡ storing
      → s.callers c ≡ rotating t
      → s.pool.priority ≡ id ∷ rest
      → s.pool.in_flight ≡ 0
      → Reach calls from late
        × (wait_returns late.pool ≡ true)
        × (late.pool.in_flight ≡ 1)
        × (late.pool.executed ≡ s.pool.executed)
        × (late.pool.queues id ≡ s.pool.queues id ++ t ∷ [])
  unfolding wait_returns
  storing-returns_early r i_lt c_lt e f g h =
      let pool = storing-stored e f g in
      let (before, _, _) = enqueue-alone c s t f in
      let size = ap (λ (p : Pool). p.size) (before ∙ ap (λ xs. enqueue_onto xs t s.pool) g) in
      (
        next (calls_in_turn-Reach calls c c_lt 7 r) (works i (omega (arith, size))),
        rw (pool, h),
        rw (pool, h),
        rw pool,
        rw (pool, (==_iff id id).1 refl),
      )
