-- ===== src/Pool/Progress/Busy.antt =====
-- What is left to do before a pool comes to rest, as a number that its useful steps lower.
use ss_logger_cpp.Prelude.{
  ℕ, zero, suc, ◌+◌, ◌-◌, ◌%◌, ◌<◌, ◌≤◌, ◌≡◌, refl, ap, arith, Bool, true, false, List, [], ◌∷◌,
  Option, none, some, ltb, ◌==◌, ==_iff, Bool-cases, inl, inr,
}
use ss_logger_cpp.Queue.Contents.{pop_front, pop_back}
use ss_logger_cpp.Pool.Family.{
  update, total, total-update, weigh, weigh-append, weigh-cons, weigh-nil,
}
use ss_logger_cpp.Pool.State.{
  Pool, Worker, acquiring, draining, testing, signalling, storing, looping, exited, stealing, taken,
  invoking, invoked, acquire, drain, steal, Caller, rotating, dropped, putting_back, counting,
  flying, clearing, pushing, releasing, finished, rotate_front, worker_in, caller_in,
}
use ss_logger_cpp.Pool.System.{System, unreturned, work, call}
use ss_logger_cpp.Pool.Counters.Caller.{IsTarget}

-- `m` is the number of threads. A task that is not invoked, and a signal, count for one round of a
-- thread through its loop.
module _ (m : ℕ) where
  abbrev pub worth : ℕ → ℕ
  worth _ = m + 7

  unfoldable pub charge : ℕ → ℕ
  charge zero = 0
  charge (suc k) = m + 7 + charge k

  charge-suc : (k : ℕ) → charge (k + 1) ≡ m + 7 + charge k
  charge-suc k = let same : k + 1 ≡ suc k = omega arith in rw same (unfold charge in refl)

  abbrev pub worker_busy : Worker → ℕ
  worker_busy acquiring = 0
  worker_busy exited = 0
  worker_busy looping = 1
  worker_busy storing = 2
  worker_busy (invoking _ _) = 2
  worker_busy signalling = 3
  worker_busy (taken _ _) = 3
  worker_busy testing = 4
  worker_busy (stealing j) = 5 + (m - j)
  worker_busy draining = m + 6
  worker_busy (invoked _) = m + 7

  abbrev pub caller_busy : Caller → ℕ
  caller_busy (rotating _) = m + 14
  caller_busy (putting_back _ _) = m + 13
  caller_busy (counting _ _) = m + 12
  caller_busy (flying _ _) = m + 11
  caller_busy (clearing _ _) = m + 10
  caller_busy (pushing _ _) = m + 9
  caller_busy (releasing _) = m + 8
  caller_busy (dropped _) = 0
  caller_busy finished = 0

  -- The signals of a pool, less the tasks that it has invoked.
  abbrev Falls : ℕ → Pool → ℕ → Pool → Type 0
  Falls before p after q =
      after + total charge m q.signals + 1 + weigh worth p.executed
      ≤ before + total charge m p.signals + weigh worth q.executed

  -- A thread that can take a step which is not the return to the top of the inner loop.
  abbrev pub moves : ℕ → Pool → Worker → Bool
  moves i p acquiring = ltb 0 (p.signals i)
  moves i p testing = p.unassigned == 0
  moves i p exited = false
  moves i p _ = true

  module _ (i : ℕ) (p : Pool) where
    worker_in-Falls :
        (stop : Bool) (ph : Worker)
        → i < m
        → p.size ≡ m
        → moves i p ph ≡ true
        → Falls (worker_busy ph) p (worker_busy (worker_in i stop ph p).0) (worker_in i stop ph p).1
    unfolding worker_in charge
    worker_in-Falls stop acquiring lt size h = go (p.signals i) refl
      where
        go : (k : ℕ) → p.signals i ≡ k → Falls 0 p (worker_busy (acquire i k p).0) (acquire i k p).1
        go zero e = absurd (ground (arith, e, h))
        go (suc k) e = omega (arith, total-update charge m p.signals i k lt, ap charge e)
    worker_in-Falls stop draining lt size h = go (pop_front (p.queues i))
      where
        go :
            (r : Option (ℕ × List ℕ))
            → Falls (m + 6) p (worker_busy (drain i r p).0) (drain i r p).1
        go none = omega arith
        go (some (t, rest)) = omega arith
    worker_in-Falls stop (stealing j) lt size h = elim (Bool-cases (ltb j p.size)) [
      | inl e ↦
          rw e (go (pop_back (p.queues ((i + j) % p.size))) ((i + j) % p.size) (ground (arith, e)))
      | inr e ↦ rw e (omega arith)
    ]
      where
        go :
            (r : Option (ℕ × List ℕ)) (index : ℕ)
            → j < m
            → Falls (5 + (m - j)) p (worker_busy (steal j index r p).0) (steal j index r p).1
        go none index lt = omega arith
        go (some (t, rest)) index lt = omega arith
    worker_in-Falls stop (taken t b) lt size h = omega arith
    worker_in-Falls stop (invoking t b) lt size h =
        omega
          (arith, weigh-append worth p.executed (t ∷ []), weigh-cons worth t [], weigh-nil worth)
    worker_in-Falls stop (invoked true) lt size h = omega arith
    worker_in-Falls stop (invoked false) lt size h = omega arith
    worker_in-Falls stop testing lt size h = ground arith
    worker_in-Falls stop signalling lt size h = ground arith
    worker_in-Falls stop storing lt size h = omega arith
    worker_in-Falls true looping lt size h = omega arith
    worker_in-Falls false looping lt size h = omega arith
    worker_in-Falls stop exited lt size h = absurd (cc h)

  caller_in-Falls :
      (ph : Caller) (p : Pool)
      → IsTarget m ph
      → 0 < unreturned ph
      → Falls (caller_busy ph) p (caller_busy (caller_in ph p).0) (caller_in ph p).1
  unfolding caller_in
  caller_in-Falls (rotating t) p lt h = go (pop_front p.priority)
    where
      go :
          (r : Option (ℕ × List ℕ))
          → Falls (m + 14) p (caller_busy (rotate_front t r p).0) (rotate_front t r p).1
      go none = omega arith
      go (some (i, rest)) = omega arith
  caller_in-Falls (putting_back t i) p lt h = omega arith
  caller_in-Falls (counting t i) p lt h = omega arith
  caller_in-Falls (flying t i) p lt h = ground arith
  caller_in-Falls (clearing t i) p lt h = omega arith
  caller_in-Falls (pushing t i) p lt h = omega arith
  caller_in-Falls (releasing i) p lt h =
      omega
        (arith, total-update charge m p.signals i (p.signals i + 1) lt, charge-suc (p.signals i))
  caller_in-Falls (dropped t) p lt h = absurd (omega arith)
  caller_in-Falls finished p lt h = absurd (omega arith)

  -- The same for the whole pool.
  unfoldable pub busy : ℕ → System → ℕ
  busy calls s =
      total worker_busy m s.workers
      + total caller_busy calls s.callers
      + total charge m s.pool.signals

  abbrev pub IsLess : ℕ → System → System → Type 0
  IsLess calls s t =
      busy calls t + 1 + weigh worth s.pool.executed ≤ busy calls s + weigh worth t.pool.executed

  pub work-IsLess :
      (calls i : ℕ) (s : System)
      → i < m
      → s.pool.size ≡ m
      → moves i s.pool (s.workers i) ≡ true
      → IsLess calls s (work i s)
  unfolding busy
  work-IsLess calls i s lt size h = omega (
    arith,
    worker_in-Falls i s.pool (s.stops i) (s.workers i) lt size h,
    total-update worker_busy m s.workers i (worker_in i (s.stops i) (s.workers i) s.pool).0 lt,
  )

  pub call-IsLess :
      (calls c : ℕ) (s : System)
      → c < calls
      → IsTarget m (s.callers c)
      → 0 < unreturned (s.callers c)
      → IsLess calls s (call c s)
  unfolding busy
  call-IsLess calls c s lt target h = omega (
    arith,
    caller_in-Falls (s.callers c) s.pool target h,
    total-update caller_busy calls s.callers c (caller_in (s.callers c) s.pool).0 lt,
  )

  -- A thread at the test of the inner loop that has a task in its queue takes it in two steps.
  pub work_twice-IsLess :
      (calls i : ℕ) (s : System)
      → i < m
      → s.workers i ≡ testing
      → 0 < s.pool.unassigned
      → (t : ℕ) (rest : List ℕ) → s.pool.queues i ≡ t ∷ rest
      → IsLess calls s (work i (work i s))
  unfolding busy worker_in pop_front
  work_twice-IsLess calls i s lt at some_left t rest q =
      let self = (==_iff i i).1 refl in
      let once = update s.workers i draining in
      let twice = total-update worker_busy m once i (taken t false) lt in
      let same : once i ≡ draining = rw self refl in
      rw (at, passes s.pool.unassigned some_left, self, q)
        (omega (
          arith,
          total-update worker_busy m s.workers i draining lt,
          twice,
          ap worker_busy at,
          ap worker_busy same,
        ))
    where
      passes : (k : ℕ) → 0 < k → ltb 0 k ≡ true
      passes k h = ground arith
