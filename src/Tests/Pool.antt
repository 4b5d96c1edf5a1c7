-- ===== src/Tests/Pool.antt =====
-- The theorems on the running pool at concrete runs of one thread.
use ss_logger_cpp.Prelude.{
  Bool, false, not, ◌&&◌, ◌↔◌, length, if◌then◌else◌, ltb, some, none, ℕ, zero, suc, ◌+◌, ◌<◌, ◌≢◌,
  ◌≤◌, ◌≡◌, refl, arith, true, [], ◌∷◌, ap,
}
use ss_logger_cpp.Queue.Contents
use ss_logger_cpp.Pool.Family.{weigh, total}
use ss_logger_cpp.Pool.State
use ss_logger_cpp.Pool.State.{
  Pool, Worker, Caller, acquiring, storing, exited, rotating, finished, wait_returns,
}
use ss_logger_cpp.Pool.System
use ss_logger_cpp.Pool.System.{
  System, work, call, close_in, entering, works, calls_on, start, Reach, here, next,
}
use ss_logger_cpp.Pool.Counters.Reached.{IsCounted, Reach-IsCounted}
use ss_logger_cpp.Pool.Counters.Bounds.{Reach-bounds}
use ss_logger_cpp.Pool.Identifiers.{caller_id, is_dropped, Reach-none_dropped, Reach-dropped}
use ss_logger_cpp.Pool.Progress.Stuck.{Reach-size, Reach-stuck}
use ss_logger_cpp.Pool.Tasks.{Outcome, raised, returned}
use ss_logger_cpp.Pool.Futures.{outcome, Reach-futures}

-- One thread, and calls of `EnqueueTask`, each with its own number as the task.
abbrev pub tasks : ℕ → ℕ
tasks c = c

abbrev pub beginning : System
beginning = start 1 (0 ∷ []) tasks

-- Steps of the call `c`, of the thread and of the destructor.
abbrev pub called : ℕ → ℕ → System → System
called c zero s = s
called c (suc n) s = call c (called c n s)

abbrev pub worked : ℕ → System → System
worked zero s = s
worked (suc n) s = work 0 (worked n s)

abbrev closing : ℕ → System → System
closing zero s = s
closing (suc n) s = close_in (closing n s).closer (closing n s)

module _ (calls : ℕ) where
  pub called-Reach :
      (c : ℕ)
      → c < calls
      → (n : ℕ) {s : System} → Reach calls beginning s
      → Reach calls beginning (called c n s)
  called-Reach c lt zero r = r
  called-Reach c lt (suc n) r = next (called-Reach c lt n r) (calls_on c lt)

  pub worked-Reach :
      (n : ℕ) {s : System} → Reach calls beginning s → Reach calls beginning (worked n s)
  worked-Reach zero r = r
  worked-Reach (suc n) {s} r =
      let before = worked-Reach n r in
      next before (works 0 (omega (arith, Reach-size calls 1 (0 ∷ []) tasks (worked n s) before)))

-- After 7 steps the call has returned; after 5 more the thread has executed the task; after 11 it
-- waits again.
abbrev pub idle : ℕ → System
idle n = worked n (called 0 7 beginning)

pub idle-Reach : (n : ℕ) → Reach 1 beginning (idle n)
idle-Reach n = worked-Reach 1 n (called-Reach 1 0 (omega arith) 7 here)

-- The destructor asks the thread to stop and wakes it, the thread leaves its loop, the destructor
-- goes on to its end.
abbrev gone : System
gone = closing 2 (worked 7 (closing 3 (idle 11)))

calls_stuck : (c : ℕ) → c < 1 → (call c (idle 11)).callers c ≡ (idle 11).callers c
unfolding State.caller_in State.worker_in Contents.pop_front Contents.push_back
calls_stuck zero h = refl
calls_stuck (suc c) h = absurd (omega arith)

thread_stuck : (i : ℕ) → i < 1 → (work i (idle 11)).workers i ≡ (idle 11).workers i
unfolding State.caller_in State.worker_in Contents.pop_front Contents.push_back
thread_stuck zero h = refl
thread_stuck (suc i) h = absurd (omega arith)

abbrev waits : Worker → ℕ
waits acquiring = 1
waits _ = 0

none_exited : (i : ℕ) → i < 1 → (idle 11).workers i ≢ exited
unfolding State.caller_in State.worker_in Contents.pop_front Contents.push_back
none_exited zero h e = absurd (omega (arith, ap waits e))
none_exited (suc i) h e = absurd (omega arith)

idle-kept : (c : ℕ) → c < 1 → is_dropped ((idle 11).callers c) ≡ 0
idle-kept c lt = Reach-none_dropped 1 1 (0 ∷ []) tasks (omega arith) (idle 11) (idle-Reach 11) c lt

Reach-IsCounted_example : IsCounted 1 tasks (idle 0)
Reach-IsCounted_example =
    Reach-IsCounted 1 1 (0 ∷ []) tasks (omega arith, tt) (idle 0) (idle-Reach 0)

Reach-stuck_example :
    ((idle 11).pool.in_flight ≡ 0)
    × ((idle 11).pool.complete ≡ true)
    × ((w : ℕ → ℕ) → weigh w (idle 11).pool.executed ≡ total w 1 tasks)
Reach-stuck_example =
    Reach-stuck 1 1 (0 ∷ []) tasks (idle 11) (idle-Reach 11) (omega arith, tt) idle-kept none_exited
      thread_stuck calls_stuck (omega arith)

-- The first call has taken the only identifier out.
Reach-dropped_example :
    (is_dropped ((call 1 (called 0 1 beginning)).callers 1) ≡ 1)
    ↔ (total (caller_id (λ _. 1)) 2 (called 0 1 beginning).callers ≡ length {A = ℕ} (0 ∷ []))
unfolding State.caller_in Contents.pop_front
Reach-dropped_example =
    Reach-dropped 2 1 (0 ∷ []) tasks (called 0 1 beginning) (called-Reach 2 0 (omega arith) 1 here)
      1 1 refl

Reach-bounds_example :
    ((idle 3).pool.in_flight ≤ 1)
    × ((idle 3).pool.unassigned ≤ 1)
    × ((i : ℕ) → (idle 3).pool.signals i ≤ 1 + 1)
Reach-bounds_example = Reach-bounds 1 1 (0 ∷ []) tasks (idle 3) (idle-Reach 3)

-- The function of the task throws.
abbrev fails : ℕ → Outcome ℕ ℕ
fails t = raised 7

-- No call detaches.
abbrev none_detached : ℕ → Bool
none_detached c = false

Reach-futures_example :
    ((outcome 99 fails none_detached 1 1 (0 ∷ []) (idle 11)).0 ≡ returned tt)
    × ((c : ℕ)
        → (outcome 99 fails none_detached 1 1 (0 ∷ []) (idle 11)).1 c
          ≡ (if ltb c 1 && not (none_detached c) then some (fails c) else none))
Reach-futures_example =
    Reach-futures 99 fails none_detached 1 1 (0 ∷ []) (idle 11) (idle-Reach 11) (omega arith, tt)
      idle-kept none_exited thread_stuck calls_stuck (omega arith)
