-- ===== src/Pool/Counters/Bounds.antt =====
-- The range of the counters and of the signals.
use ss_logger_cpp.Prelude.{
  ℕ, zero, suc, ◌+◌, ◌%◌, ◌<◌, ◌≤◌, ◌≡◌, refl, arith, Bool, Bool-cases, inl, inr, List, Option,
  none, some, ◌==◌, ==_iff, ltb, leb, if◌then◌else◌,
}
use ss_logger_cpp.Queue.Contents.{pop_front, pop_back}
use ss_logger_cpp.Pool.Family.{le-total, total, total-update, total_le}
use ss_logger_cpp.Pool.State.{
  has_exited, Pool, Worker, acquiring, draining, exited, stealing, acquire, drain, steal, Caller,
  rotating, dropped, putting_back, counting, flying, releasing, finished, rotate_front, worker_in,
  caller_in,
}
use ss_logger_cpp.Pool.System.{
  System, works, calls_on, closes, close_in, close_in-unchanged, Closer, entering, awaiting, closed,
  requesting, waking, joining, Reach, here, next, start,
}
use ss_logger_cpp.Pool.Counters.Weights.{worker_flight, worker_unassigned}
use ss_logger_cpp.Pool.Counters.Caller.{Within}
use ss_logger_cpp.Pool.Counters.Reached.{Reach-IsCounted}

-- The calls behind each of the three increments.
abbrev assigned : Caller → ℕ
assigned (rotating _) = 0
assigned (dropped _) = 0
assigned (putting_back _ _) = 0
assigned (counting _ _) = 0
assigned _ = 1

abbrev flown : Caller → ℕ
flown (flying _ _) = 0
flown ph = assigned ph

abbrev released : Caller → ℕ
released finished = 1
released _ = 0

flown_le : (ph : Caller) → flown ph ≤ 1
flown_le (flying _ _) = omega arith
flown_le (rotating _) = omega arith
flown_le _ = omega arith

assigned_le : (ph : Caller) → assigned ph ≤ 1
assigned_le (flying _ _) = omega arith
assigned_le _ = omega arith

released_le : (ph : Caller) → released ph ≤ 1
released_le finished = omega arith
released_le _ = omega arith

-- No counter and no signal grows from `p` to `q`.
abbrev NoMore : Pool → Pool → Type 0
NoMore p q =
    (q.in_flight ≤ p.in_flight)
    × (q.unassigned ≤ p.unassigned)
    × ((k : ℕ) → q.signals k ≤ p.signals k)

module _ (p : Pool) where
  acquire-NoMore : (id k : ℕ) → p.signals id ≡ k → NoMore p (acquire id k p).1
  acquire-NoMore id zero e = (omega arith, omega arith, λ k. omega arith)
  acquire-NoMore id (suc m) e = (omega arith, omega arith, λ k. ground (arith, ==_iff id k))

  drain-NoMore : (id : ℕ) (r : Option (ℕ × List ℕ)) → NoMore p (drain id r p).1
  drain-NoMore id none = (omega arith, omega arith, λ k. omega arith)
  drain-NoMore id (some (t, rest)) = (omega arith, omega arith, λ k. omega arith)

  steal-NoMore : (j i : ℕ) (r : Option (ℕ × List ℕ)) → NoMore p (steal j i r p).1
  steal-NoMore j i none = (omega arith, omega arith, λ k. omega arith)
  steal-NoMore j i (some (t, rest)) = (omega arith, omega arith, λ k. omega arith)

  worker_in-NoMore : (id : ℕ) (stop : Bool) (ph : Worker) → NoMore p (worker_in id stop ph p).1
  unfolding worker_in
  worker_in-NoMore id stop acquiring = acquire-NoMore id (p.signals id) refl
  worker_in-NoMore id stop draining = drain-NoMore id (pop_front (p.queues id))
  worker_in-NoMore id stop (stealing j) = elim (Bool-cases (ltb j p.size)) [
    | inl e ↦ rw e (steal-NoMore j ((id + j) % p.size) (pop_back (p.queues ((id + j) % p.size))))
    | inr e ↦ rw e (omega arith, omega arith, λ k. omega arith)
  ]
  worker_in-NoMore id stop exited = (omega arith, omega arith, λ k. omega arith)
  worker_in-NoMore id stop _ = (omega arith, omega arith, λ k. omega arith)

  -- A call's step raises a counter or a signal by one where it passes the increment.
  abbrev Raises : Caller → Caller × Pool → Type 0
  Raises ph r =
      (r.1.in_flight + flown ph ≡ p.in_flight + flown r.0)
      × (r.1.unassigned + assigned ph ≡ p.unassigned + assigned r.0)
      × ((k : ℕ) → r.1.signals k + released ph ≤ p.signals k + released r.0)

  rotate_front-Raises : (t : ℕ) (r : Option (ℕ × List ℕ)) → Raises (rotating t) (rotate_front t r p)
  rotate_front-Raises t none = (refl, refl, λ k. omega arith)
  rotate_front-Raises t (some (i, rest)) = (refl, refl, λ k. omega arith)

  caller_in-Raises : (ph : Caller) → Raises ph (caller_in ph p)
  unfolding caller_in
  caller_in-Raises (rotating t) = rotate_front-Raises t (pop_front p.priority)
  caller_in-Raises (flying t i) = elim (Bool-cases (p.in_flight == 0)) [
    | inl e ↦ rw e (omega arith, omega arith, λ k. omega arith)
    | inr e ↦ rw e (omega arith, omega arith, λ k. omega arith)
  ]
  caller_in-Raises (releasing i) = (omega arith, omega arith, λ k. ground (arith, ==_iff i k))
  caller_in-Raises _ = (omega arith, omega arith, λ k. omega arith)

-- Whether the destructor has given its signal to the thread `k`.
abbrev woken : ℕ → Closer → ℕ
woken k entering = 0
woken k awaiting = 0
woken k (requesting i) = if ltb k i then 1 else 0
woken k (waking i) = if ltb k i then 1 else 0
woken k (joining i) = if leb k i then 1 else 0
woken k closed = 1

woken_le : (k : ℕ) (ph : Closer) → woken k ph ≤ 1
woken_le k entering = omega arith
woken_le k awaiting = omega arith
woken_le k (requesting i) = ground arith
woken_le k (waking i) = ground arith
woken_le k (joining i) = ground arith
woken_le k closed = omega arith

close_in-woken :
    (k x : ℕ) (ph : Closer) (s : System)
    → s.closer ≡ ph
    → s.pool.signals k ≤ x + woken k ph
    → (close_in ph s).pool.signals k ≤ x + woken k (close_in ph s).closer
unfolding close_in
close_in-woken k x entering s e h = ground arith
close_in-woken k x awaiting s e h = ground arith
close_in-woken k x (requesting i) s e h = elim (Bool-cases (ltb i s.pool.size)) [
  | inl f ↦ rw f h
  | inr f ↦ rw f (omega (arith, woken_le k (requesting i)))
]
close_in-woken k x (waking i) s e h = ground (arith, ==_iff i k)
close_in-woken k x (joining i) s e h = elim (Bool-cases (has_exited (s.workers i))) [
  | inl f ↦ rw f (ground arith)
  | inr f ↦ rw f h
]
close_in-woken k x closed s e h = rw e h

module _ (calls n : ℕ) (ids : List ℕ) (tasks : ℕ → ℕ) where
  Reach-raised :
      (s : System)
      → Reach calls (start n ids tasks) s
      → (s.pool.in_flight ≤ total flown calls s.callers)
        × (s.pool.unassigned ≤ total assigned calls s.callers)
        × ((k : ℕ) → s.pool.signals k ≤ total released calls s.callers + woken k s.closer)
  Reach-raised _ here = (omega arith, omega arith, λ k. omega arith)
  Reach-raised _ (next {t = s} r (works i lt)) =
      let (a, b, c) = Reach-raised s r in
      let (a', b', c') = worker_in-NoMore s.pool i (s.stops i) (s.workers i) in
      (omega arith, omega arith, λ k. omega (arith, c k, c' k))
  Reach-raised _ (next {t = s} r (closes returned)) =
      let (a, b, c) = Reach-raised s r in
      let (workers, callers, pool, _) = close_in-unchanged s.closer s in
      (
        rw (pool, callers) a,
        rw (pool, callers) b,
        λ k. rw callers (close_in-woken k (total released calls s.callers) s.closer s refl (c k)),
      )
  Reach-raised _ (next {t = s} r (calls_on d lt)) =
      let (a, b, c) = Reach-raised s r in
      let ph = s.callers d in
      let step = caller_in ph s.pool in
      let (a', b', c') = caller_in-Raises s.pool ph in
      let moved = λ (v : Caller → ℕ). total-update v calls s.callers d step.0 lt in
      (
        omega (arith, moved flown),
        omega (arith, moved assigned),
        λ k. omega (arith, c k, c' k, moved released),
      )

  -- In every reachable state `m_in_flight_tasks` and `m_unassigned_tasks` are at most the number of
  -- calls of `EnqueueTask`, and no semaphore counts more than one above that number.
  pub Reach-bounds :
      (s : System)
      → Reach calls (start n ids tasks) s
      → (s.pool.in_flight ≤ calls)
        × (s.pool.unassigned ≤ calls)
        × ((i : ℕ) → s.pool.signals i ≤ calls + 1)
  Reach-bounds s r =
      let (a, b, c) = Reach-raised s r in
      (
        omega (arith, total_le flown flown_le calls s.callers),
        omega (arith, total_le assigned assigned_le calls s.callers),
        λ k. omega (arith, c k, total_le released released_le calls s.callers, woken_le k s.closer),
      )

  -- From a pool whose priority queue holds identifiers of its threads, in every reachable state: a
  -- thread that is about to subtract one from `m_in_flight_tasks` or from `m_unassigned_tasks`
  -- finds that counter positive, so neither becomes negative.
  pub Reach-decrements :
      (s : System)
      → Within n ids
      → Reach calls (start n ids tasks) s
      → (i : ℕ) → i < s.pool.size
      → (worker_flight (s.workers i) ≤ s.pool.in_flight)
        × (worker_unassigned (s.workers i) ≤ s.pool.unassigned)
  Reach-decrements s valid r i lt =
      let h = Reach-IsCounted calls n ids tasks valid s r in
      (
        omega (arith, h.flights, le-total worker_flight s.pool.size s.workers i lt),
        omega (arith, h.waiting, le-total worker_unassigned s.pool.size s.workers i lt),
      )
