-- ===== src/Pool/Waiters.antt =====
-- include/Utils/include/ThreadPool.h: threads that call `WaitForTasks` on a running pool, with the wait
-- and the notification of the atomic flag.
pub mod Woken
pub mod Runs
pub mod Missed
use ss_logger_cpp.Prelude.{ℕ, ◌<◌, ◌≡◌, Bool, true, false, List, ltb, ◌==◌, if◌then◌else◌}
use ss_logger_cpp.Pool.Family.{update, total}
use ss_logger_cpp.Pool.State.{Pool, Worker, storing}
use ss_logger_cpp.Pool.System
use ss_logger_cpp.Pool.System.{System, work, call, start}

-- Where a call of `WaitForTasks` stands: at the load of the counter, at the comparison of
-- `wait(false)`, blocked in it, or behind the last line.
pub data Waiter : Type 0 where
  reading checking blocked returned : Waiter

-- A step of a call; a blocked one waits for a notification.
unfoldable pub wait_in : Waiter → Pool → Waiter
wait_in reading p = if ltb 0 p.in_flight then checking else returned
wait_in checking p = if p.complete then returned else blocked
wait_in blocked p = blocked
wait_in returned p = returned

-- `notifying` has the threads that stand between the store of the flag and `notify_one`.
pub record Hall : Type 0 where
  pub system : System
  pub notifying : ℕ → Bool
  pub waiters : ℕ → Waiter

abbrev pub stores : Worker → Bool
stores storing = true
stores _ = false

abbrev pub work_on : ℕ → Hall → Hall
work_on i h = record h {
  system = work i h.system;
  notifying = update h.notifying i (stores (h.system.workers i));
}

abbrev pub wait_on : ℕ → Hall → Hall
wait_on w h = record h { waiters = update h.waiters w (wait_in (h.waiters w) h.system.pool) }

-- `notify_one` unblocks one of the blocked calls, which then compares again.
abbrev pub notify_one : ℕ → ℕ → Hall → Hall
notify_one i w h = record h {
  notifying = update h.notifying i false;
  waiters = update h.waiters w checking;
}

abbrev pub is_blocked : Waiter → ℕ
is_blocked blocked = 1
is_blocked _ = 0

-- `calls` calls of `EnqueueTask` and `waits` calls of `WaitForTasks`.
pub data Move (calls waits : ℕ) (h : Hall) : Hall → Type 0 where
  works :
      (i : ℕ) → i < h.system.pool.size → h.notifying i ≡ false → Move calls waits h (work_on i h)
  calls_on : (c : ℕ) → c < calls → Move calls waits h (record h { system = call c h.system })
  waits_on : (w : ℕ) → w < waits → Move calls waits h (wait_on w h)
  notifies :
      (i : ℕ)
      → i < h.system.pool.size
      → h.notifying i ≡ true
      → (w : ℕ) → w < waits
      → h.waiters w ≡ blocked
      → Move calls waits h (notify_one i w h)
  notifies_none :
      (i : ℕ)
      → i < h.system.pool.size
      → h.notifying i ≡ true
      → total is_blocked waits h.waiters ≡ 0
      → Move calls waits h (record h { notifying = update h.notifying i false })

pub data Reach (calls waits : ℕ) (h : Hall) : Hall → Type 0 where
  here : Reach calls waits h h
  next : {t u : Hall} → Reach calls waits h t → Move calls waits t u → Reach calls waits h u

abbrev pub opened : ℕ → List ℕ → (ℕ → ℕ) → Hall
opened n ids tasks = record {
  system = start n ids tasks;
  notifying = λ _. false;
  waiters = λ _. reading;
}
