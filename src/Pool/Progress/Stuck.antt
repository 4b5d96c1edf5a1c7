-- ===== src/Pool/Progress/Stuck.antt =====
-- The states in which nothing can move.
use ss_logger_cpp.Prelude.{
  ℕ, zero, suc, ◌+◌, ◌%◌, ◌<◌, ◌≡◌, ◌≢◌, refl, arith, Bool, true, false, List, [], ◌∷◌, Option,
  none, some, ==_iff, ltb, if◌then◌else◌, ap, sym, ◌∙◌, subst,
}
use ss_logger_cpp.Queue.Contents.{pop_front, pop_back}
use ss_logger_cpp.Pool.Family.{update, total, total_zero, total_one, weigh}
use ss_logger_cpp.Pool.State.{
  Pool, Worker, acquiring, draining, testing, signalling, storing, looping, exited, stealing, taken,
  invoking, invoked, acquire, drain, steal, Caller, rotating, dropped, putting_back, counting,
  flying, clearing, pushing, releasing, finished, rotate_front, worker_in, caller_in,
  caller_in-size,
}
use ss_logger_cpp.Pool.System.{
  System, work, call, works, calls_on, closes, close_in-unchanged, Reach, here, next, start,
}
use ss_logger_cpp.Pool.Identifiers.{is_dropped}
use ss_logger_cpp.Pool.Counters.Weights.{one, worker_flight, caller_flight, queued}
use ss_logger_cpp.Pool.Counters.Worker.{worker_in-Keeps}
use ss_logger_cpp.Pool.Counters.Caller.{Within}
use ss_logger_cpp.Pool.Counters.Reached.{Reach-IsCounted, Reach-executed}
use ss_logger_cpp.Pool.Progress.Attended.{full, attends, signals_to, Reach-attended}
use ss_logger_cpp.Pool.Progress.Signalled.{active, flag, Reach-signalled}

-- A thread that does not move waits for its signal, or has left its loop.
module _ (i : ℕ) (stop : Bool) (p : Pool) where
  pub worker_stuck :
      (ph : Worker)
      → (worker_in i stop ph p).0 ≡ ph
      → ph ≢ exited
      → (ph ≡ acquiring) × (p.signals i ≡ 0)
  unfolding worker_in
  worker_stuck acquiring e h = go (p.signals i) refl e
    where
      go :
          (k : ℕ)
          → p.signals i ≡ k
          → (acquire i k p).0 ≡ acquiring
          → ◌≡◌ {A = Worker} acquiring acquiring × (p.signals i ≡ 0)
      go zero none_left e = (refl, none_left)
      go (suc m) some_left e = cc
  worker_stuck draining e h = go (pop_front (p.queues i)) e
    where
      go :
          (r : Option (ℕ × List ℕ))
          → (drain i r p).0 ≡ draining
          → ◌≡◌ {A = Worker} draining acquiring × (p.signals i ≡ 0)
      go none e = cc
      go (some (t, rest)) e = cc
  worker_stuck (stealing j) e h =
      go (ltb j p.size) ((i + j) % p.size) (pop_back (p.queues ((i + j) % p.size))) e
    where
      go :
          (b : Bool) (index : ℕ) (r : Option (ℕ × List ℕ))
          → (if b then steal j index r p else (testing, p)).0 ≡ stealing j
          → (stealing j ≡ acquiring) × (p.signals i ≡ 0)
      go true index none e = ground arith
      go true index (some (t, rest)) e = cc
      go false index r e = cc
  worker_stuck (taken t b) e h = cc
  worker_stuck (invoking t b) e h = cc
  worker_stuck (invoked true) e h = cc
  worker_stuck (invoked false) e h = cc
  worker_stuck testing e h = ground arith
  worker_stuck signalling e h = ground arith
  worker_stuck storing e h = cc
  worker_stuck looping e h = ground arith
  worker_stuck exited e h = absurd (h refl)

caller_stuck :
    (ph : Caller) (p : Pool) → (caller_in ph p).0 ≡ ph → is_dropped ph ≡ 0 → ph ≡ finished
unfolding caller_in
caller_stuck (rotating t) p e h = go (pop_front p.priority) e
  where
    go : (r : Option (ℕ × List ℕ)) → (rotate_front t r p).0 ≡ rotating t → rotating t ≡ finished
    go none e = cc
    go (some (i, rest)) e = cc
caller_stuck (dropped t) p e h = absurd (omega arith)
caller_stuck (putting_back t i) p e h = cc
caller_stuck (counting t i) p e h = cc
caller_stuck (flying t i) p e h = ground arith
caller_stuck (clearing t i) p e h = cc
caller_stuck (pushing t i) p e h = cc
caller_stuck (releasing i) p e h = cc
caller_stuck finished p e h = refl

pub full-zero : (xs : List ℕ) → full xs ≡ 0 → xs ≡ []
full-zero [] h = refl
full-zero (x ∷ xs) h = absurd (omega arith)

full_of_weigh : (xs : List ℕ) → 0 < weigh one xs → full xs ≡ 1
full_of_weigh [] h = absurd (unfold weigh in omega arith)
full_of_weigh (x ∷ xs) h = refl

pub at_update {ℓ} : {A : Type ℓ} (i : ℕ) (f : ℕ → A) (a : A) → update f i a i ≡ f i → a ≡ f i
at_update i f a h = (sym (rw ((==_iff i i).1 refl))) ∙ h

flag-true : (b : Bool) → 0 < flag b → b ≡ true
flag-true true h = refl
flag-true false h = absurd (omega arith)

module _ (calls n : ℕ) (ids : List ℕ) (tasks : ℕ → ℕ) where
  pub Reach-size : (s : System) → Reach calls (start n ids tasks) s → s.pool.size ≡ n
  Reach-size _ here = refl
  Reach-size _ (next {t = s} r (works i lt)) =
      (worker_in-Keeps s.pool i (s.stops i) (s.workers i) lt).0 ∙ Reach-size s r
  Reach-size _ (next {t = s} r (closes returned)) =
      ap (λ (p : Pool). p.size) (close_in-unchanged s.closer s).2 ∙ Reach-size s r
  Reach-size _ (next {t = s} r (calls_on c lt)) =
      caller_in-size (s.callers c) s.pool ∙ Reach-size s r

  -- Nothing can move: no thread changes its place, and neither does a call.
  module _ (s : System) (reached : Reach calls (start n ids tasks) s) (valid : Within n ids)
      (none_lost : (c : ℕ) → c < calls → is_dropped (s.callers c) ≡ 0)
      (none_exited : (i : ℕ) → i < n → s.workers i ≢ exited)
      (workers_stuck : (i : ℕ) → i < n → (work i s).workers i ≡ s.workers i)
      (callers_stuck : (c : ℕ) → c < calls → (call c s).callers c ≡ s.callers c) where
    all_wait : (i : ℕ) → i < n → (s.workers i ≡ acquiring) × (s.pool.signals i ≡ 0)
    all_wait i lt =
        worker_stuck i (s.stops i) s.pool (s.workers i)
          (at_update i s.workers _ (workers_stuck i lt)) (none_exited i lt)

    pub all_finished : (c : ℕ) → c < calls → s.callers c ≡ finished
    all_finished c lt =
        caller_stuck (s.callers c) s.pool (at_update c s.callers _ (callers_stuck c lt))
          (none_lost c lt)

    all_empty : (i : ℕ) → i < n → s.pool.queues i ≡ []
    all_empty i lt =
        let (waits, unsignalled) = all_wait i lt in
        full-zero (s.pool.queues i) (
          omega (
            arith,
            Reach-attended calls n ids tasks s reached i,
            unsignalled,
            ap attends waits,
            total_zero (signals_to i) calls s.callers (λ c lt. rw (all_finished c lt) refl),
          ))

    none_in_flight : s.pool.in_flight ≡ 0
    unfolding queued weigh
    none_in_flight =
        let size = Reach-size s reached in
        omega (
          arith,
          (Reach-IsCounted calls n ids tasks valid s reached).flights,
          total_zero (weigh one) s.pool.size s.pool.queues
              (λ i lt. rw (all_empty i (subst (λ m. i < m) size lt)) refl),
          total_zero worker_flight s.pool.size s.workers
              (λ i lt. rw ((all_wait i (subst (λ m. i < m) size lt)).0) refl),
          total_zero caller_flight calls s.callers (λ c lt. rw (all_finished c lt) refl),
        )

    -- For a pool whose priority queue holds identifiers of its threads, and at least one call of
    -- `EnqueueTask`: in a reachable state in which no call has found the priority queue empty, no
    -- thread has left its loop and no step moves a thread or a call, `m_in_flight_tasks` is 0,
    -- `m_threads_complete_signal` is true, and each task was executed exactly once. So the pool
    -- stops only with all its work done and the flag set.
    pub Reach-stuck :
        0 < calls
        → (s.pool.in_flight ≡ 0)
          × (s.pool.complete ≡ true)
          × ((w : ℕ → ℕ) → weigh w s.pool.executed ≡ total w calls tasks)
    Reach-stuck some_calls =
        let executed =
          Reach-executed calls n ids tasks valid s reached none_in_flight all_finished in
        (none_in_flight, flag-true s.pool.complete flagged, executed)
      where
        flagged : 0 < flag s.pool.complete
        flagged =
            let size = Reach-size s reached in
            omega (
              arith,
              Reach-signalled calls n ids tasks valid s reached,
              none_in_flight,
              total_zero active s.pool.size s.workers
                  (λ i lt. rw ((all_wait i (subst (λ m. i < m) size lt)).0) refl),
              full_of_weigh s.pool.executed (
                  omega (
                    arith,
                    Reach-executed calls n ids tasks valid s reached none_in_flight all_finished
                        one,
                    total_one calls tasks,
                  )),
            )
