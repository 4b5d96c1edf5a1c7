-- ===== src/Pool/Counters/Reached.antt =====
-- The counters in every reachable state.
use ss_logger_cpp.Prelude.{ℕ, ◌+◌, ◌<◌, ◌≡◌, refl, arith, List, [], ◌∷◌, Bool-cases, inl, inr, ◌==◌}
use ss_logger_cpp.Pool.Family.{
  total, total-update, le-total, total_zero, total-zero, total_comp, weigh, weigh-nil,
}
use ss_logger_cpp.Pool.State.{
  Worker, acquiring, draining, testing, signalling, storing, looping, exited, stealing, taken,
  invoking, invoked, Caller, rotating, finished, worker_in, caller_in,
}
use ss_logger_cpp.Pool.System.{
  System, work, call, works, calls_on, closes, close_in, close_in-unchanged, Reach, here, next,
  start,
}
use ss_logger_cpp.Pool.Counters.Weights.{
  queued, worker_task, caller_task, worker_flight, caller_flight, worker_unassigned,
  caller_unassigned, one,
}
use ss_logger_cpp.Pool.Counters.Worker.{worker_in-Keeps}
use ss_logger_cpp.Pool.Counters.Caller.{Within, IsTarget, caller_in-Keeps}

-- For calls 0, …, `calls` - 1, the `c`th of them with the task `tasks c`.
pub record IsCounted (calls : ℕ) (tasks : ℕ → ℕ) (s : System) : Type 0 where
  pub within : Within s.pool.size s.pool.priority
  pub targets : (c : ℕ) → IsTarget s.pool.size (s.callers c)
  pub kept :
      (w : ℕ → ℕ)
      → queued w s.pool
          + total (worker_task w) s.pool.size s.workers
          + total (caller_task w) calls s.callers
          + weigh w s.pool.executed
        ≡ total w calls tasks
  pub flights :
      s.pool.in_flight
      ≡ queued one s.pool
        + total worker_flight s.pool.size s.workers
        + total caller_flight calls s.callers
  pub waiting :
      s.pool.unassigned
      ≡ queued one s.pool
        + total worker_unassigned s.pool.size s.workers
        + total caller_unassigned calls s.callers

module _ {calls : ℕ} {tasks : ℕ → ℕ} {s : System} (h : IsCounted calls tasks s) where
  work-IsCounted : (i : ℕ) → i < s.pool.size → IsCounted calls tasks (work i s)
  work-IsCounted i lt =
      let stop = s.stops i in
      let ph = s.workers i in
      let r = worker_in i stop (s.workers i) s.pool in
      let (size, order, kept, flights, waiting) = worker_in-Keeps s.pool i stop (s.workers i) lt in
      let moved = λ (v : Worker → ℕ). total-update v s.pool.size s.workers i r.0 lt in
      record {
        within = rw (size, order) h.within;
        targets = λ c. rw size (h.targets c);
        kept = λ w. rw size (omega (arith, kept w, moved (worker_task w), h.kept w));
        flights = rw size (
            omega (
              arith,
              flights (omega (arith, h.flights, le-total worker_flight s.pool.size s.workers i lt)),
              moved worker_flight,
              h.flights,
            ));
        waiting = rw size (
            omega (
              arith,
              waiting
                  (omega (arith, h.waiting, le-total worker_unassigned s.pool.size s.workers i lt)),
              moved worker_unassigned,
              h.waiting,
            ));
      }

  call-IsCounted : (c : ℕ) → c < calls → IsCounted calls tasks (call c s)
  call-IsCounted c lt =
      let r = caller_in (s.callers c) s.pool in
      let (size, order, target, kept, flights, waiting) =
        caller_in-Keeps s.pool h.within (s.callers c) (h.targets c) in
      let moved = λ (v : Caller → ℕ). total-update v calls s.callers c r.0 lt in
      record {
        within = rw size order;
        targets = λ j. elim (Bool-cases (c == j)) [
          | inl e ↦ rw (size, e) target
          | inr e ↦ rw (size, e) (h.targets j)
        ];
        kept = λ w. rw size (omega (arith, kept w, moved (caller_task w), h.kept w));
        flights = rw size (omega (arith, flights, moved caller_flight, h.flights));
        waiting = rw size (omega (arith, waiting, moved caller_unassigned, h.waiting));
      }

  close-IsCounted : IsCounted calls tasks (close_in s.closer s)
  unfolding queued
  close-IsCounted =
      let (workers, callers, pool, _) = close_in-unchanged s.closer s in
      same (close_in s.closer s) (close_in s.closer s).pool.signals workers callers pool
    where
      same :
          (t : System) (signals : ℕ → ℕ)
          → t.workers ≡ s.workers
          → t.callers ≡ s.callers
          → t.pool ≡ record (s.pool) { signals = signals }
          → IsCounted calls tasks t
      same t signals e f g = record {
        within = rw g h.within;
        targets = λ c. rw (g, f) (h.targets c);
        kept = λ w. rw (g, e, f) (h.kept w);
        flights = rw (g, e, f) h.flights;
        waiting = rw (g, e, f) h.waiting;
      }

weigh-one : (ts : List ℕ) (w : ℕ → ℕ) → weigh one ts ≡ 0 → weigh w ts ≡ 0
unfolding weigh
weigh-one [] w h = refl
weigh-one (t ∷ ts) w h = absurd (omega arith)

-- A thread that holds no task that is counted holds none.
worker_task_zero : (w : ℕ → ℕ) (ph : Worker) → worker_flight ph ≡ 0 → worker_task w ph ≡ 0
worker_task_zero w (taken _ _) h = absurd (omega arith)
worker_task_zero w (invoking _ _) h = absurd (omega arith)
worker_task_zero w (invoked _) h = refl
worker_task_zero w acquiring h = refl
worker_task_zero w draining h = refl
worker_task_zero w testing h = refl
worker_task_zero w signalling h = refl
worker_task_zero w storing h = refl
worker_task_zero w looping h = refl
worker_task_zero w exited h = refl
worker_task_zero w (stealing _) h = refl

module _ (calls n : ℕ) (ids : List ℕ) (tasks : ℕ → ℕ) (valid : Within n ids) where
  start-IsCounted : IsCounted calls tasks (start n ids tasks)
  unfolding queued
  start-IsCounted = record {
    within = valid;
    targets = λ c. tt;
    kept = λ w. omega (
      arith,
      total_zero (weigh w) n (λ _. []) (λ _ _. weigh-nil w),
      total_zero (worker_task w) n (λ _. acquiring) (λ _ _. refl),
      total_comp (caller_task w) w (λ c. rotating (tasks c)) tasks (λ _. refl) calls,
      weigh-nil w,
    );
    flights = omega (
      arith,
      total_zero (weigh one) n (λ _. []) (λ _ _. weigh-nil one),
      total_zero worker_flight n (λ _. acquiring) (λ _ _. refl),
      total_zero caller_flight calls (λ c. rotating (tasks c)) (λ _ _. refl),
    );
    waiting = omega (
      arith,
      total_zero (weigh one) n (λ _. []) (λ _ _. weigh-nil one),
      total_zero worker_unassigned n (λ _. acquiring) (λ _ _. refl),
      total_zero caller_unassigned calls (λ c. rotating (tasks c)) (λ _ _. refl),
    );
  }

  -- In whatever order the threads, the calls of `EnqueueTask` and the destructor take their steps,
  -- from a pool whose priority queue holds identifiers of its threads: every task is in a queue,
  -- held by a thread, held by a call (also one that found the priority queue empty and returned) or
  -- executed, each just once, and the two counters are the numbers of the tasks that are counted in
  -- them and not yet counted off.
  pub Reach-IsCounted : (s : System) → Reach calls (start n ids tasks) s → IsCounted calls tasks s
  Reach-IsCounted _ here = start-IsCounted
  Reach-IsCounted _ (next r (works i lt)) = work-IsCounted (Reach-IsCounted _ r) i lt
  Reach-IsCounted _ (next r (closes returned)) = close-IsCounted (Reach-IsCounted _ r)
  Reach-IsCounted _ (next r (calls_on c lt)) = call-IsCounted (Reach-IsCounted _ r) c lt

  -- Once `m_in_flight_tasks` is 0 and every call of `EnqueueTask` has reached its last line, each
  -- task was executed exactly once: any weight of tasks adds up the same over the tasks executed
  -- and the tasks enqueued.
  pub Reach-executed :
      (s : System)
      → Reach calls (start n ids tasks) s
      → s.pool.in_flight ≡ 0
      → ((c : ℕ) → c < calls → s.callers c ≡ finished)
      → (w : ℕ → ℕ) → weigh w s.pool.executed ≡ total w calls tasks
  unfolding queued
  Reach-executed s r idle done w =
      let h = Reach-IsCounted s r in
      let none_queued =
        total-zero (weigh one) s.pool.size s.pool.queues (omega (arith, h.flights, idle)) in
      let none_held =
        total-zero worker_flight s.pool.size s.workers (omega (arith, h.flights, idle)) in
      omega (
        arith,
        h.kept w,
        total_zero (weigh w) s.pool.size s.pool.queues
            (λ i lt. weigh-one (s.pool.queues i) w (none_queued i lt)),
        total_zero (worker_task w) s.pool.size s.workers
            (λ i lt. worker_task_zero w (s.workers i) (none_held i lt)),
        total_zero (caller_task w) calls s.callers (λ c lt. rw (done c lt) refl),
      )
