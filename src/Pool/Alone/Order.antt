-- ===== src/Pool/Alone/Order.antt =====
-- Some calls one after the other, and then the only thread of the pool.
use ss_logger_cpp.Prelude.{
  ℕ, ◌-◌, ◌<◌, ◌≡◌, refl, arith, Bool, true, false, List, [], ◌∷◌, length, ◌==◌, ==_iff, ap, ◌∙◌,
}
use ss_logger_cpp.Pool.State.{Pool, Worker, worker_in}
use ss_logger_cpp.Pool.System.{System, work, works, Reach, next, here, start}
use ss_logger_cpp.Pool.Progress.Stuck.{Reach-size}
use ss_logger_cpp.Pool.Alone.Rounds.{
  rounds, rounds-Dealt, rounds-Reach, rounds-unchanged, given-one, handed_out-one, listed,
  listed-length, begun,
}
use ss_logger_cpp.Pool.Alone.Thread.{Run, rests, moves, Run-round}

module _ (calls n : ℕ) (ids : List ℕ) (tasks : ℕ → ℕ) (i : ℕ) (lt : i < n) where
  -- Steps of a thread are steps of the system.
  Run-Reach :
      {stop : Bool} {w v : Worker} {p q : Pool} (s : System)
      → Reach calls (start n ids tasks) s
      → s.workers i ≡ w
      → s.pool ≡ p
      → s.stops i ≡ stop
      → Run i stop w p v q
      → (u : System) × Reach calls (start n ids tasks) u × (u.workers i ≡ v) × (u.pool ≡ q)
  Run-Reach s r e f g rests = (s, r, e, f)
  Run-Reach {stop} {w} {p = p} s r e f g (moves h) =
      Run-Reach (work i s) (next r (works i (omega (arith, Reach-size calls n ids tasks s r))))
        (rw ((==_iff i i).1 refl) (ap (λ (x : Worker × Pool). x.0) same))
        (ap (λ (x : Worker × Pool). x.1) same) g h
    where
      same : worker_in i (s.stops i) (s.workers i) s.pool ≡ worker_in i stop w p
      same = rw (e, f, g)

-- A pool with one thread.
module _ (n : ℕ) (tasks : ℕ → ℕ) where
  abbrev pub called : System
  called = rounds tasks 0 n (begun tasks 1 (0 ∷ []))

  called-queue : called.pool.queues 0 ≡ listed tasks 0 n
  called-queue =
      let (_, _, _, _, each) = rounds-Dealt tasks 0 n (begun tasks 1 (0 ∷ [])) (λ c h. refl) in
      (each 0).0 ∙ given-one tasks 0 0 0 n

  called-others : (j : ℕ) → (0 == j) ≡ false → called.pool.queues j ≡ []
  called-others j h =
      let (_, _, _, _, each) = rounds-Dealt tasks 0 n (begun tasks 1 (0 ∷ [])) (λ c h. refl) in
      (each j).0 ∙ given-one tasks 0 j 0 n ∙ rw h

  called-counters :
      (called.pool.in_flight ≡ n) × (called.pool.unassigned ≡ n) × (called.pool.executed ≡ [])
  called-counters =
      let (_, flying, waiting, done, _) =
        rounds-Dealt tasks 0 n (begun tasks 1 (0 ∷ [])) (λ c h. refl) in
      (
        omega (arith, flying, handed_out-one tasks 0 n),
        omega (arith, waiting, handed_out-one tasks 0 n),
        done,
      )

  called-Reach : Reach n (begun tasks 1 (0 ∷ [])) called
  called-Reach = rounds-Reach tasks n 0 n (omega arith) here

  -- In a pool with one thread, any number of calls of `EnqueueTask` before the thread takes a step
  -- releases its semaphore that many times: that state is reachable.
  pub rounds-signals : Reach n (begun tasks 1 (0 ∷ [])) called × (called.pool.signals 0 ≡ n)
  rounds-signals =
      let (_, _, _, _, each) = rounds-Dealt tasks 0 n (begun tasks 1 (0 ∷ [])) (λ c h. refl) in
      (
        called-Reach,
        omega (arith, (each 0).1, ap length (given-one tasks 0 0 0 n), listed-length tasks 0 n),
      )

  -- In a pool with one thread, after any positive number of calls of `EnqueueTask` in turn, the
  -- thread alone executes the tasks in the order of their calls, and then the counter is 0 and the
  -- flag is set: that state is reachable.
  pub rounds-executed :
      0 < n
      → (u : System) × Reach n (begun tasks 1 (0 ∷ [])) u
        × (u.pool.executed ≡ listed tasks 0 n)
        × (u.pool.in_flight ≡ 0)
        × (u.pool.complete ≡ true)
  rounds-executed lt =
      let (flying, waiting, done) = called-counters in
      let (workers, stops) = rounds-unchanged tasks 0 n (begun tasks 1 (0 ∷ [])) (λ c h. refl) in
      let len = ap length called-queue ∙ listed-length tasks 0 n in
      let (after, run, executed, none_flying, complete, _) =
        Run-round 0 false called.pool (n - 1) (omega (arith, rounds-signals.1))
          (omega (arith, Reach-size n 1 (0 ∷ []) tasks called called-Reach))
          (omega (arith, waiting, len)) (omega (arith, flying, len)) called-others in
      let (u, r, _, e) =
        Run-Reach n 1 (0 ∷ []) tasks 0 (omega arith) called called-Reach (ap (λ ws. ws 0) workers)
          refl (ap (λ st. st 0) stops) run in
      (
        u,
        r,
        ap (λ (p : Pool). p.executed) e ∙ executed ∙ rw (done, called-queue),
        ap (λ (p : Pool). p.in_flight) e ∙ none_flying,
        ap (λ (p : Pool). p.complete) e ∙ complete,
      )
