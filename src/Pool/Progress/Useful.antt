-- ===== src/Pool/Progress/Useful.antt =====
-- A pool that is not at rest has a useful step.
use ss_logger_cpp.Prelude.{
  ℕ, ◌<◌, ◌≤◌, ◌≡◌, ◌⊎◌, inl, inr, refl, ap, sym, subst, arith, true, false, List, [], ◌∷◌, ltb,
}
use ss_logger_cpp.Pool.Family.{total, total_zero, le-total, weigh, weigh-cons}
use ss_logger_cpp.Pool.State.{acquiring, testing}
use ss_logger_cpp.Pool.System.{
  System, entering, unreturned, work, call, works, calls_on, Reach, here, next, start,
}
use ss_logger_cpp.Pool.Counters.Weights.{one, queued, worker_unassigned, caller_unassigned}
use ss_logger_cpp.Pool.Counters.Worker.{worker_in-Keeps}
use ss_logger_cpp.Pool.Counters.Caller.{Within, IsTarget}
use ss_logger_cpp.Pool.Counters.Reached.{Reach-IsCounted}
use ss_logger_cpp.Pool.Progress.Attended.{attends, signals_to, Reach-attended}
use ss_logger_cpp.Pool.Progress.Stuck.{full-zero, Reach-size}
use ss_logger_cpp.Pool.Progress.Busy.{moves, IsLess, work-IsLess, call-IsLess, work_twice-IsLess}
use ss_logger_cpp.Pool.Progress.Onward.{
  find_below, Reach-entering, at_rest, ready, ready-cases, idle_queue, returned_call,
}

-- Every call has returned, and every thread waits for a signal.
pub record IsResting (calls n : ℕ) (s : System) : Type 0 where
  pub returned : (c : ℕ) → c < calls → unreturned (s.callers c) ≡ 0
  pub waits : (i : ℕ) → i < n → (s.workers i ≡ acquiring) × (s.pool.signals i ≡ 0)

module _ (calls n : ℕ) (ids : List ℕ) (tasks : ℕ → ℕ) (valid : Within n ids) where
  -- A state that is reached from this one by useful steps.
  abbrev pub Onward : System → Type 0
  Onward s = (t : System) × Reach calls s t × (t.closer ≡ s.closer) × IsLess n calls s t

  module _ (s : System) (reached : Reach calls (start n ids tasks) s)
      (open_still : s.closer ≡ entering) where
    of_size : {i : ℕ} → i < n → i < s.pool.size
    of_size {i} lt = subst (λ m. i < m) (sym (Reach-size calls n ids tasks s reached)) lt

    pub queued-none : ((i : ℕ) → i < n → s.pool.queues i ≡ []) → (w : ℕ → ℕ) → queued w s.pool ≡ 0
    unfolding queued weigh
    queued-none h w =
        total_zero (weigh w) s.pool.size s.pool.queues
          (λ i lt. rw (h i (subst (λ m. i < m) (Reach-size calls n ids tasks s reached) lt)) refl)

    -- The queue of a thread that waits, when no call is running.
    pub waiting_queue :
        ((c : ℕ) → c < calls → unreturned (s.callers c) ≡ 0)
        → (i : ℕ) → s.workers i ≡ acquiring
        → s.pool.signals i ≡ 0
        → s.pool.queues i ≡ []
    waiting_queue returned i e z = full-zero (s.pool.queues i) (
        omega (
          arith,
          Reach-attended calls n ids tasks s reached i,
          z,
          ap attends e,
          total_zero (signals_to i) calls s.callers
              (λ c lt. (returned_call i (s.callers c) (returned c lt)).2),
        ))

    -- Where no call is running and no thread can move usefully, no thread is at the test of the
    -- inner loop.
    module _ (returned : (c : ℕ) → c < calls → unreturned (s.callers c) ≡ 0)
        (none_moves : (i : ℕ) → i < n → moves n i s.pool (s.workers i) ≡ false)
        (none_ready : (i : ℕ) → i < n → ready (s.workers i) (s.pool.queues i) ≡ false) where
      place :
          (i : ℕ)
          → i < n
          → ((s.workers i ≡ acquiring) × (s.pool.signals i ≡ 0))
            ⊎ ((s.workers i ≡ testing) × (0 < s.pool.unassigned))
      place i lt =
          at_rest n i s.pool (s.workers i) (none_moves i lt)
            (Reach-entering calls n ids tasks s reached open_still i).1

      all_empty : (i : ℕ) → i < n → s.pool.queues i ≡ []
      all_empty i lt = elim (place i lt) [
        | inl (e, z) ↦ waiting_queue returned i e z
        | inr (e, _) ↦ idle_queue (s.pool.queues i) (rw e at (none_ready i lt))
      ]

      none_unassigned : s.pool.unassigned ≡ 0
      none_unassigned = omega (
        arith,
        (Reach-IsCounted calls n ids tasks valid s reached).waiting,
        queued-none all_empty one,
        total_zero worker_unassigned s.pool.size s.workers
            (λ i lt. idle i (subst (λ m. i < m) (Reach-size calls n ids tasks s reached) lt)),
        total_zero caller_unassigned calls s.callers
            (λ c lt. (returned_call 0 (s.callers c) (returned c lt)).1),
      )
        where
          idle : (i : ℕ) → i < n → worker_unassigned (s.workers i) ≡ 0
          idle i lt = elim (place i lt) [ inl (e, _) ↦ rw e refl | inr (e, _) ↦ rw e refl ]

      all_rest : IsResting calls n s
      all_rest = record {
        returned = returned;
        waits = λ i lt. elim (place i lt) [
          | inl h ↦ h
          | inr (_, some_left) ↦ absurd (omega (arith, some_left, none_unassigned))
        ];
      }

    unassigned-positive :
        (i : ℕ)
        → i < n
        → (t : ℕ) (rest : List ℕ) → s.pool.queues i ≡ t ∷ rest
        → 0 < s.pool.unassigned
    unfolding queued
    unassigned-positive i lt t rest e = omega (
      arith,
      (Reach-IsCounted calls n ids tasks valid s reached).waiting,
      le-total (weigh one) s.pool.size s.pool.queues i (of_size lt),
      ap (weigh one) e,
      weigh-cons one t rest,
    )

    pub progress : Onward s ⊎ IsResting calls n s
    progress = elim (find_below (λ c. ltb 0 (unreturned (s.callers c))) calls) [
      | inl (c, lt, e) ↦ inl (
        call c s,
        next here (calls_on c lt),
        refl,
        call-IsLess n calls c s lt
            (subst (λ m. IsTarget m (s.callers c)) (Reach-size calls n ids tasks s reached)
              ((Reach-IsCounted calls n ids tasks valid s reached).targets c))
            (positive _ e),
      )
      | inr none_calls ↦ elim (find_below (λ i. moves n i s.pool (s.workers i)) n) [
        | inl (i, lt, e) ↦ inl (
          work i s,
          next here (works i (of_size lt)),
          refl,
          work-IsLess n calls i s lt (Reach-size calls n ids tasks s reached) e,
        )
        | inr none_moves ↦ elim (find_below (λ i. ready (s.workers i) (s.pool.queues i)) n) [
          | inl (i, lt, e) ↦ inl (takes i lt (ready-cases (s.workers i) (s.pool.queues i) e))
          | inr none_ready ↦
              inr (all_rest (λ c lt. zero_of _ (none_calls c lt)) none_moves none_ready)
        ]
      ]
    ]
      where
        positive : (k : ℕ) → ltb 0 k ≡ true → 0 < k
        positive k h = ground arith

        zero_of : (k : ℕ) → ltb 0 k ≡ false → k ≡ 0
        zero_of k h = ground arith

        takes :
            (i : ℕ)
            → i < n
            → (s.workers i ≡ testing) × ((t : ℕ) × (rest : List ℕ) × (s.pool.queues i ≡ t ∷ rest))
            → Onward s
        takes i lt (at, (t, rest, q)) = (
          work i (work i s),
          next (next here (works i (of_size lt))) (
              works i (
                subst (λ m. i < m)
                  (sym (worker_in-Keeps s.pool i (s.stops i) (s.workers i) (of_size lt)).0)
                  (of_size lt))),
          refl,
          work_twice-IsLess n calls i s lt at (unassigned-positive i lt t rest q) t rest q,
        )

    -- The weight of the tasks executed is at most that of all.
    pub executed_le : (w : ℕ → ℕ) → weigh w s.pool.executed ≤ total w calls tasks
    executed_le w = omega (arith, (Reach-IsCounted calls n ids tasks valid s reached).kept w)
