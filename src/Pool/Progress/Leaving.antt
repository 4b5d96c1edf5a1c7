-- ===== src/Pool/Progress/Leaving.antt =====
-- A thread of a pool without tasks that is asked to stop.
use ss_logger_cpp.Prelude.{
  ℕ, zero, suc, ◌+◌, ◌%◌, ◌<◌, ◌≤◌, ◌≡◌, ◌≢◌, refl, ap, sym, ◌∙◌, arith, Bool, true, false, List,
  [], ltb, ◌==◌, ==_iff, Bool-cases, inl, inr, ◌⊎◌,
}
use ss_logger_cpp.Queue.Contents.{pop_front, pop_back}
use ss_logger_cpp.Pool.Family.{total}
use ss_logger_cpp.Pool.State.{
  Pool, Worker, acquiring, draining, testing, signalling, storing, looping, exited, stealing, taken,
  invoking, invoked, has_exited, worker_in,
}
use ss_logger_cpp.Pool.System.{System, Closer, unreturned, work, works, Reach, here, next}
use ss_logger_cpp.Pool.Progress.Busy.{worker_busy}
use ss_logger_cpp.Pool.Progress.Onward.{Reach-then}

-- The pool has no task, and no call is running.
pub record IsIdle (calls n : ℕ) (s : System) : Type 0 where
  pub size : s.pool.size ≡ n
  pub empty : (k : ℕ) → k < n → s.pool.queues k ≡ []
  pub none_unassigned : s.pool.unassigned ≡ 0
  pub none_in_flight : s.pool.in_flight ≡ 0
  pub returned : total unreturned calls s.callers ≡ 0

-- It says nothing of the destructor.
pub IsIdle-closer :
    (calls n : ℕ) (s : System) (c : Closer)
    → IsIdle calls n s
    → IsIdle calls n (record s { closer = c })
IsIdle-closer calls n s c idle = record {
  size = idle.size;
  empty = idle.empty;
  none_unassigned = idle.none_unassigned;
  none_in_flight = idle.none_in_flight;
  returned = idle.returned;
}

-- A thread between its semaphore and the end of its loop that holds no task, or behind the loop.
abbrev pub lone : Worker → Bool
lone acquiring = false
lone (taken _ _) = false
lone (invoking _ _) = false
lone (invoked _) = false
lone _ = true

-- What a step of a thread leaves of an idle pool.
record IsLone (m i : ℕ) (p : Pool) (ph : Worker) (r : Worker × Pool) : Type 0 where
  size : r.1.size ≡ p.size
  queues : r.1.queues ≡ p.queues
  unassigned : r.1.unassigned ≡ p.unassigned
  in_flight : r.1.in_flight ≡ p.in_flight
  still : lone r.0 ≡ true
  less : worker_busy m r.0 < worker_busy m ph

module _ (m i : ℕ) (p : Pool) (lt : i < m) (size : p.size ≡ m)
    (empty : (k : ℕ) → k < m → p.queues k ≡ []) (none_unassigned : p.unassigned ≡ 0) where
  stays :
      (ph after : Worker)
      → lone after ≡ true
      → worker_busy m after < worker_busy m ph
      → IsLone m i p ph (after, p)
  stays ph after still less = record {
    size = refl;
    queues = refl;
    unassigned = refl;
    in_flight = refl;
    still = still;
    less = less;
  }

  worker_in-IsLone :
      (ph : Worker) → lone ph ≡ true → ph ≢ exited → IsLone m i p ph (worker_in i true ph p)
  unfolding worker_in pop_front pop_back
  worker_in-IsLone acquiring h e = cc
  worker_in-IsLone (taken t b) h e = cc
  worker_in-IsLone (invoking t b) h e = cc
  worker_in-IsLone (invoked b) h e = cc
  worker_in-IsLone exited h e = absurd (e refl)
  worker_in-IsLone draining h e = rw (empty i lt) (stays _ _ refl (omega arith))
  worker_in-IsLone (stealing j) h e = elim (Bool-cases (ltb j p.size)) [
    | inl f ↦
        let inside : (i + j) % p.size < m = grind arith in
        rw (f, empty ((i + j) % p.size) inside) (stays _ _ refl (ground (arith, f)))
    | inr f ↦ rw f (stays _ _ refl (omega arith))
  ]
  worker_in-IsLone testing h e =
      let none_left : ltb 0 p.unassigned ≡ false = ground (arith, none_unassigned) in
      rw none_left (stays _ _ refl (omega arith))
  worker_in-IsLone signalling h e = elim (Bool-cases (p.in_flight == 0)) [
    | inl f ↦ rw f (stays _ _ refl (omega arith))
    | inr f ↦ rw f (stays _ _ refl (omega arith))
  ]
  worker_in-IsLone storing h e = record {
    size = refl;
    queues = refl;
    unassigned = refl;
    in_flight = refl;
    still = refl;
    less = omega arith;
  }
  worker_in-IsLone looping h e = stays _ _ refl (omega arith)

module _ (calls n : ℕ) where
  -- A state in which the thread has left its loop, and the others are where they were.
  pub record IsLeft (i : ℕ) (s t : System) : Type 0 where
    pub idle : IsIdle calls n t
    pub gone : t.workers i ≡ exited
    pub others : (k : ℕ) → k ≢ i → t.workers k ≡ s.workers k
    pub closer : t.closer ≡ s.closer

  is_exited : (ph : Worker) → (ph ≡ exited) ⊎ (ph ≢ exited)
  is_exited ph = elim (Bool-cases (has_exited ph)) [
    | inl e ↦ inl (exited_of ph e)
    | inr e ↦ inr (λ f. absurd (cc (sym e ∙ ap has_exited f)))
  ]
    where
      exited_of : (ph : Worker) → has_exited ph ≡ true → ph ≡ exited
      exited_of exited h = refl
      exited_of acquiring h = cc
      exited_of draining h = cc
      exited_of testing h = cc
      exited_of signalling h = cc
      exited_of storing h = cc
      exited_of looping h = cc
      exited_of (stealing j) h = cc
      exited_of (taken t b) h = cc
      exited_of (invoking t b) h = cc
      exited_of (invoked b) h = cc

  lone_step :
      (i : ℕ) (s : System)
      → i < n
      → IsIdle calls n s
      → s.stops i ≡ true
      → lone (s.workers i) ≡ true
      → s.workers i ≢ exited
      → IsLone n i s.pool (s.workers i) (worker_in i (s.stops i) (s.workers i) s.pool)
  lone_step i s lt idle stop h e =
      rw stop
        (worker_in-IsLone n i s.pool lt idle.size idle.empty idle.none_unassigned (s.workers i) h e)

  work-IsIdle :
      (i : ℕ) (s : System)
      → IsIdle calls n s
      → IsLone n i s.pool (s.workers i) (worker_in i (s.stops i) (s.workers i) s.pool)
      → IsIdle calls n (work i s)
  work-IsIdle i s idle l = record {
    size = l.size ∙ idle.size;
    empty = λ k lt. ap (λ (f : ℕ → List ℕ). f k) l.queues ∙ idle.empty k lt;
    none_unassigned = l.unassigned ∙ idle.none_unassigned;
    none_in_flight = l.in_flight ∙ idle.none_in_flight;
    returned = idle.returned;
  }

  -- A thread that is asked to stop leaves its loop in a run of its own steps.
  pub leaves :
      (k i : ℕ) (s : System)
      → i < n
      → IsIdle calls n s
      → s.stops i ≡ true
      → lone (s.workers i) ≡ true
      → worker_busy n (s.workers i) ≤ k
      → (t : System) × Reach calls s t × IsLeft i s t
  leaves zero i s lt idle stop h bound = elim (is_exited (s.workers i)) [
    | inl e ↦ (s, here, record { idle = idle; gone = e; others = λ j d. refl; closer = refl })
    | inr e ↦ let l = lone_step i s lt idle stop h e in absurd (omega (arith, l.less, bound))
  ]
  leaves (suc k) i s lt idle stop h bound = elim (is_exited (s.workers i)) [
    | inl e ↦ (s, here, record { idle = idle; gone = e; others = λ j d. refl; closer = refl })
    | inr e ↦
        let l = lone_step i s lt idle stop h e in
        let self = (==_iff i i).1 refl in
        let shorter : worker_busy n (worker_in i (s.stops i) (s.workers i) s.pool).0 ≤ k =
          omega (arith, l.less, bound) in
        let (t, steps, left) =
          leaves k i (work i s) lt (work-IsIdle i s idle l) stop (rw self l.still)
            (rw self shorter) in
        let inside : i < s.pool.size = rw idle.size lt in
        (
          t,
          Reach-then (next here (works i inside)) steps,
          record {
            idle = left.idle;
            gone = left.gone;
            others = λ j d. left.others j d ∙ ground (arith, ==_iff i j);
            closer = left.closer;
          },
        )
  ]
