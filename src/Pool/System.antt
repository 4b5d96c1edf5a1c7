-- ===== src/Pool/System.antt =====
-- The threads, the callers and the destructor of a pool beside one another: `StopAllThreads` and the
-- destructor, and every order of the steps.
use ss_logger_cpp.Prelude.{
  ℕ, ◌+◌, ◌<◌, Bool, true, false, List, [], ltb, if◌then◌else◌, ◌≡◌, refl, ◌≤◌, arith, ==_iff,
  Bool-cases, inl, inr,
}
use ss_logger_cpp.Pool.Family.{update, total}
use ss_logger_cpp.Pool.State.{
  Pool, Worker, acquiring, has_exited, Caller, rotating, dropped, finished, worker_in, caller_in,
}

-- A call that has returned.
abbrev pub unreturned : Caller → ℕ
unreturned (dropped _) = 0
unreturned finished = 0
unreturned _ = 1

-- Where the destructor stands: at the two reads of `WaitForTasks`, at the three lines of the loop of
-- `StopAllThreads`, or behind it.
pub data Closer : Type 0 where
  entering awaiting closed : Closer
  requesting waking joining : ℕ → Closer

-- `size` pool threads, a number of calls of `EnqueueTask` and the destructor, interleaved in any
-- order. `stops` holds the stop states of the threads.
pub record System : Type 0 where
  pub pool : Pool
  pub workers : ℕ → Worker
  pub callers : ℕ → Caller
  pub stops : ℕ → Bool
  pub closer : Closer

abbrev pub work : ℕ → System → System
work i s =
    let r = worker_in i (s.stops i) (s.workers i) s.pool in
    record s { pool = r.1; workers = update s.workers i r.0 }

abbrev pub call : ℕ → System → System
call c s =
    let r = caller_in (s.callers c) s.pool in
    record s { pool = r.1; callers = update s.callers c r.0 }

-- The two lines of `WaitForTasks`. A wait that ends has found the flag set; that it may also sleep until
-- it is notified is in `Pool.Waiters`, and a step here that leaves the wait stands for either.
abbrev pub load_in_flight : System → System
load_in_flight s = record s { closer = if ltb 0 s.pool.in_flight then awaiting else requesting 0 }

abbrev pub await_complete : System → System
await_complete s = record s { closer = if s.pool.complete then requesting 0 else awaiting }

-- A step of the destructor, `WaitForTasks` and then `StopAllThreads`. `join` waits for the thread to
-- leave its loop.
unfoldable pub close_in : Closer → System → System
close_in entering s = load_in_flight s
close_in awaiting s = await_complete s
close_in (requesting i) s =
    if ltb i s.pool.size
    then record s { stops = update s.stops i true; closer = waking i }
    else record s { closer = closed }
close_in (waking i) s = record s {
  pool = record (s.pool) { signals = update s.pool.signals i (s.pool.signals i + 1) };
  closer = joining i;
}
close_in (joining i) s = record s {
  closer = if has_exited (s.workers i) then requesting (i + 1) else joining i;
}
close_in closed s = s

-- The destructor runs when no call is running any more.
pub data Step (calls : ℕ) (s : System) : System → Type 0 where
  works : (i : ℕ) → i < s.pool.size → Step calls s (work i s)
  calls_on : (c : ℕ) → c < calls → Step calls s (call c s)
  closes : total unreturned calls s.callers ≡ 0 → Step calls s (close_in s.closer s)

pub data Reach (calls : ℕ) (s : System) : System → Type 0 where
  here : Reach calls s s
  next : {t u : System} → Reach calls s t → Step calls t u → Reach calls s u

-- `n` threads at the start of their loops, and a call of `EnqueueTask` for each task.
abbrev pub start : ℕ → List ℕ → (ℕ → ℕ) → System
start n ids tasks = record {
  pool = record {
    size = n;
    queues = λ _. [];
    signals = λ _. 0;
    priority = ids;
    unassigned = 0;
    in_flight = 0;
    complete = false;
    executed = [];
  };
  workers = λ _. acquiring;
  callers = λ c. rotating (tasks c);
  stops = λ _. false;
  closer = entering;
}

pub close_in-unchanged :
    (ph : Closer) (s : System)
    → ((close_in ph s).workers ≡ s.workers)
      × ((close_in ph s).callers ≡ s.callers)
      × ((close_in ph s).pool ≡ record (s.pool) { signals = (close_in ph s).pool.signals })
      × ((k : ℕ) → s.pool.signals k ≤ (close_in ph s).pool.signals k)
unfolding close_in
close_in-unchanged entering s = (refl, refl, refl, λ k. omega arith)
close_in-unchanged awaiting s = (refl, refl, refl, λ k. omega arith)
close_in-unchanged (requesting i) s = elim (Bool-cases (ltb i s.pool.size)) [
  | inl e ↦ rw e (refl, refl, refl, λ k. omega arith)
  | inr e ↦ rw e (refl, refl, refl, λ k. omega arith)
]
close_in-unchanged (waking i) s = (refl, refl, refl, λ k. ground (arith, ==_iff i k))
close_in-unchanged (joining i) s = (refl, refl, refl, λ k. omega arith)
close_in-unchanged closed s = (refl, refl, refl, λ k. omega arith)
