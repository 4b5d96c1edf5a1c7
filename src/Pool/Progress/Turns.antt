-- ===== src/Pool/Progress/Turns.antt =====
-- The loop of `StopAllThreads` on a pool without tasks, thread by thread.
use ss_logger_cpp.Prelude.{
  ℕ, zero, suc, ◌+◌, ◌<◌, ◌≤◌, ◌≡◌, refl, ◌∙◌, subst, arith, true, false, ltb, ◌==◌, ==_iff,
}
use native.Mathlib.Decide.{dec_lt}
use ss_logger_cpp.Pool.Family.{update}
use ss_logger_cpp.Pool.State.{acquiring, draining, exited, worker_in}
use ss_logger_cpp.Pool.System.{
  System, closed, requesting, waking, joining, work, close_in, Step, works, closes, Reach, here,
  next,
}
use ss_logger_cpp.Pool.Progress.Onward.{Reach-then}
use ss_logger_cpp.Pool.Progress.Leaving.{IsIdle, IsIdle-closer, leaves}

asked : ℕ → System → System
asked i s = record s { stops = update s.stops i true; closer = waking i }

woken : ℕ → System → System
woken i s = record s {
  pool = record (s.pool) { signals = update s.pool.signals i (s.pool.signals i + 1) };
  closer = joining i;
}

begun : ℕ → ℕ → System → System
begun i m s = record s {
  pool = record (s.pool) { signals = update s.pool.signals i m };
  workers = update s.workers i draining;
}

close_in-asked :
    (i : ℕ) (s : System)
    → s.closer ≡ requesting i
    → i < s.pool.size
    → close_in s.closer s ≡ asked i s
unfolding close_in asked
close_in-asked i s e lt =
    let inside : ltb i s.pool.size ≡ true = ground arith in rw (e, inside) refl

close_in-woken : (i : ℕ) (s : System) → s.closer ≡ waking i → close_in s.closer s ≡ woken i s
unfolding close_in woken
close_in-woken i s e = rw e refl

close_in-joined :
    (i : ℕ) (s : System)
    → s.closer ≡ joining i
    → s.workers i ≡ exited
    → close_in s.closer s ≡ record s { closer = requesting (i + 1) }
unfolding close_in
close_in-joined i s e f = rw (e, f) refl

close_in-closed :
    (i : ℕ) (s : System)
    → s.closer ≡ requesting i
    → s.pool.size ≤ i
    → close_in s.closer s ≡ record s { closer = closed }
unfolding close_in
close_in-closed i s e le =
    let outside : ltb i s.pool.size ≡ false = ground arith in rw (e, outside) refl

work-begun :
    (i m : ℕ) (s : System)
    → s.workers i ≡ acquiring
    → s.pool.signals i ≡ suc m
    → work i s ≡ begun i m s
unfolding worker_in begun
work-begun i m s e f = rw (e, f) refl

-- The destructor is behind its last line, and every thread has left its loop.
pub record IsEnded (n : ℕ) (s : System) : Type 0 where
  pub closer : s.closer ≡ closed
  pub gone : (i : ℕ) → i < n → s.workers i ≡ exited

module _ (calls n : ℕ) where
  -- The turn of the thread `i`: those before it have left their loops, the others wait.
  pub record IsTurn (i : ℕ) (s : System) : Type 0 where
    pub idle : IsIdle calls n s
    pub turn : s.closer ≡ requesting i
    pub gone : (j : ℕ) → j < i → s.workers j ≡ exited
    pub waits : (j : ℕ) → i ≤ j → j < n → s.workers j ≡ acquiring

  -- The thread as the destructor has woken it, in its loop.
  passed : ℕ → System → System
  passed i s = begun i (s.pool.signals i) (woken i (asked i s))

  passed-Reach : (i : ℕ) (s : System) → i < n → IsTurn i s → Reach calls s (passed i s)
  unfolding passed begun woken asked
  passed-Reach i s lt h =
      let self = (==_iff i i).1 refl in
      let inside : i < s.pool.size = rw h.idle.size lt in
      let one_more : s.pool.signals i + 1 ≡ suc (s.pool.signals i) = omega arith in
      let step1 : Step calls s (asked i s) =
        subst (λ u. Step calls s u) (close_in-asked i s h.turn inside) (closes h.idle.returned) in
      let step2 : Step calls (asked i s) (woken i (asked i s)) =
        subst (λ u. Step calls (asked i s) u) (close_in-woken i (asked i s) refl)
          (closes h.idle.returned) in
      let step3 : Step calls (woken i (asked i s)) (passed i s) =
        subst (λ u. Step calls (woken i (asked i s)) u)
          (work-begun i (s.pool.signals i) (woken i (asked i s)) (h.waits i (omega arith) lt)
            (rw self one_more))
          (works i inside) in
      next (next (next here step1) step2) step3

  -- From the turn of one thread to that of the next.
  advance :
      (i : ℕ) (s : System) → i < n → IsTurn i s → (t : System) × Reach calls s t × IsTurn (i + 1) t
  unfolding passed begun woken asked
  advance i s lt h =
      let self = (==_iff i i).1 refl in
      let p = passed i s in
      let idle : IsIdle calls n p = record {
        size = h.idle.size;
        empty = h.idle.empty;
        none_unassigned = h.idle.none_unassigned;
        none_in_flight = h.idle.none_in_flight;
        returned = h.idle.returned;
      } in
      let (t, steps, left) =
        leaves calls n (n + 6) i p lt idle (rw self refl) (rw self refl) (rw self (omega arith)) in
      let joined = close_in-joined i t left.closer left.gone in
      let u = record t { closer = requesting (i + 1) } in
      let step : Step calls t u = subst (λ u. Step calls t u) joined (closes left.idle.returned) in
      (
        u,
        next (Reach-then (passed-Reach i s lt h) steps) step,
        record {
          idle = IsIdle-closer calls n t (requesting (i + 1)) left.idle;
          turn = refl;
          gone = λ j below. elim (dec_lt j i) [
            | yes before ↦
                left.others j (λ e. omega (arith, e))
                ∙ (let apart : i == j ≡ false = ground arith in rw apart (h.gone j before))
            | no later ↦ let same : j ≡ i = omega arith in rw same left.gone
          ];
          waits = λ j above inside.
              left.others j (λ e. omega (arith, e))
              ∙ (let apart : i == j ≡ false = ground arith in
                  rw apart (h.waits j (omega arith) inside));
        },
      )

  pub ends :
      (k i : ℕ) (s : System)
      → k + i ≡ n
      → IsTurn i s
      → (t : System) × Reach calls s t × IsIdle calls n t × IsEnded n t
  ends zero i s e h =
      let over : s.pool.size ≤ i = rw h.idle.size (omega arith) in
      let step : Step calls s (record s { closer = closed }) =
        subst (λ u. Step calls s u) (close_in-closed i s h.turn over) (closes h.idle.returned) in
      (
        record s { closer = closed },
        next here step,
        IsIdle-closer calls n s closed h.idle,
        record { closer = refl; gone = λ j lt. h.gone j (omega arith) },
      )
  ends (suc k) i s e h =
      let (t, steps, turn) = advance i s (omega arith) h in
      let (u, more, idle, ended) = ends k (i + 1) t (omega arith) turn in
      (u, Reach-then steps more, idle, ended)
