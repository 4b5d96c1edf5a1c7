-- ===== src/Pool/Progress/Closing/Joined.antt =====
-- What the end of the destructor means, and where it can wait.
use ss_logger_cpp.Prelude.{ℕ, ◌<◌, ◌≤◌, ◌≡◌, refl, arith, List, ap}
use ss_logger_cpp.Pool.State.{Worker, exited}
use ss_logger_cpp.Pool.System.{System, closed, works, calls_on, closes, Reach, here, next, start}
use ss_logger_cpp.Pool.Progress.Stuck.{Reach-size}
use ss_logger_cpp.Pool.Progress.Closing.{
  IsClosing, gone, joined, work-IsClosing, call-IsClosing, close-IsClosing,
}

gone-exited : (ph : Worker) → 1 ≤ gone ph → ph ≡ exited
gone-exited exited h = refl
gone-exited _ h = absurd (omega arith)

module _ (calls n : ℕ) (ids : List ℕ) (tasks : ℕ → ℕ) where
  Reach-IsClosing :
      (s : System) → Reach calls (start n ids tasks) s → (i : ℕ) → i < n → IsClosing i s
  Reach-IsClosing _ here i lt = record {
    requested = refl;
    left = omega arith;
    past = omega arith;
    awake = omega arith;
  }
  Reach-IsClosing _ (next {t = s} r (works j _)) i lt = work-IsClosing (Reach-IsClosing s r i lt) j
  Reach-IsClosing _ (next {t = s} r (calls_on c _)) i lt =
      call-IsClosing (Reach-IsClosing s r i lt) c
  Reach-IsClosing _ (next {t = s} r (closes _)) i lt =
      close-IsClosing (Reach-IsClosing s r i lt) s.closer refl
        (rw (Reach-size calls n ids tasks s r) lt)

  -- When the destructor is behind its last line, each thread of the pool has left its loop.
  pub Reach-joined :
      (s : System)
      → Reach calls (start n ids tasks) s
      → s.closer ≡ closed
      → (i : ℕ) → i < n
      → s.workers i ≡ exited
  Reach-joined s r e i lt =
      let h = Reach-IsClosing s r i lt in
      gone-exited (s.workers i) (omega (arith, h.past, ap (joined i) e))
