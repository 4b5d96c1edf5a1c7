-- ===== src/Pool/Futures.antt =====
-- `Enqueue` as a whole: the promises of the calls and the tasks that the threads of the pool execute.
pub mod Delivered
use ss_logger_cpp.Prelude.{
  ℕ, zero, suc, ◌<◌, Bool, not, ◌&&◌, ◌≤◌, ◌≡◌, ◌≢◌, refl, arith, true, false, List, [], ◌∷◌,
  Option, none, some, ◌==◌, ==_iff, ltb, if◌then◌else◌, Bool-cases, inl, inr, ◌∙◌,
}
use ss_logger_cpp.Pool.Family.{weigh, total}
use ss_logger_cpp.Pool.State.{exited}
use ss_logger_cpp.Pool.Identifiers.{is_dropped}
use ss_logger_cpp.Pool.System.{System, work, call, start, Reach}
use ss_logger_cpp.Pool.Counters.Caller.{Within}
use ss_logger_cpp.Pool.Tasks.{
  Outcome, returned, Job, enqueue, enqueue_detach, result_of, run_tasks, member, distinct,
  run_tasks-futures,
}
use ss_logger_cpp.Pool.Progress.Stuck.{Reach-stuck}

-- The weight of one task.
abbrev pub mark : ℕ → ℕ → ℕ
mark c t = if t == c then 1 else 0

weigh-member : (c : ℕ) (ts : List ℕ) → 0 < weigh (mark c) ts → member c ts ≡ true
unfolding weigh member
weigh-member c [] h = absurd (omega arith)
weigh-member c (t ∷ ts) h = ground (arith, weigh-member c ts)

member-weigh : (c : ℕ) (ts : List ℕ) → member c ts ≡ true → 0 < weigh (mark c) ts
unfolding weigh member
member-weigh c [] h = ground arith
member-weigh c (t ∷ ts) h = ground (arith, member-weigh c ts)

weigh-distinct : (ts : List ℕ) → ((c : ℕ) → weigh (mark c) ts ≤ 1) → distinct ts ≡ true
unfolding weigh distinct
weigh-distinct [] h = refl
weigh-distinct (t ∷ ts) h =
    ground (arith, h t, member-weigh t ts, weigh-distinct ts (λ c. ground (arith, h c)), ==_iff t t)

pub total-mark : (c n : ℕ) → total (mark c) n (λ t. t) ≡ (if ltb c n then 1 else 0)
unfolding total
total-mark c zero = ground arith
total-mark c (suc n) = ground (arith, total-mark c n, ==_iff n c)

-- The call `c` is one of `EnqueueDetach` or of `Enqueue`, for the task `c`.
module _ {E A : Type 0} (satisfied : E) (funcs : ℕ → Outcome E A) (detaches : ℕ → Bool)
    (calls n : ℕ) (ids : List ℕ) where
  abbrev pub job_of : ℕ → Job E A
  job_of c = if detaches c then enqueue_detach (funcs c) else (enqueue (funcs c)).0

  abbrev pub outcome : System → Outcome E (Unit {0}) × (ℕ → Option (Outcome E A))
  outcome s = run_tasks satisfied job_of s.pool.executed (λ c. (enqueue (funcs c)).1)

  job_of-result :
      (c : ℕ) → result_of (job_of c) ≡ (if not (detaches c) then some (funcs c) else none)
  unfolding enqueue enqueue_detach
  job_of-result c = elim (Bool-cases (detaches c)) [ inl h ↦ rw h | inr h ↦ rw h ]

  -- The promises where the tasks that were executed, each just once, are those of a test.
  pub outcome-executed :
      (s : System) (test : ℕ → Bool)
      → ((c : ℕ) → weigh (mark c) s.pool.executed ≡ (if test c then 1 else 0))
      → ((outcome s).0 ≡ returned tt)
        × ((c : ℕ)
            → (outcome s).1 c ≡ (if test c && not (detaches c) then some (funcs c) else none))
  unfolding enqueue
  outcome-executed s test count =
      let (done, futures) =
        run_tasks-futures satisfied job_of s.pool.executed (λ _. none)
          (weigh-distinct s.pool.executed (λ c. ground (arith, count c))) (λ _ _. refl) in
      (
        done,
        λ c. futures c ∙ elim (Bool-cases (test c)) [
          | inl h ↦
              rw (h, job_of-result c, weigh-member c s.pool.executed (ground (arith, count c)))
          | inr h ↦ rw (h, absent c (count c ∙ rw h))
        ],
      )
    where
      absent : (c : ℕ) → weigh (mark c) s.pool.executed ≡ 0 → member c s.pool.executed ≡ false
      absent c h = elim (Bool-cases (member c s.pool.executed)) [
        | inl e ↦ absurd (omega (arith, member-weigh c s.pool.executed e))
        | inr e ↦ e
      ]

  module _ (s : System) (reached : Reach calls (start n ids (λ c. c)) s) (valid : Within n ids)
      (none_lost : (c : ℕ) → c < calls → is_dropped (s.callers c) ≡ 0)
      (none_exited : (i : ℕ) → i < n → s.workers i ≢ exited)
      (workers_stuck : (i : ℕ) → i < n → (work i s).workers i ≡ s.workers i)
      (callers_stuck : (c : ℕ) → c < calls → (call c s).callers c ≡ s.callers c) where
    -- With at least one call of `Enqueue` or `EnqueueDetach`, each with a task of its own: for a
    -- pool whose priority queue holds identifiers of its threads, in a reachable state in which no
    -- call has found that queue empty, no thread has left its loop and no step moves a thread or a
    -- call, no exception has left a task, and the future of each call of `Enqueue` has the value
    -- that its function returned or the exception that it threw; no other promise has a result.
    pub Reach-futures :
        0 < calls
        → ((outcome s).0 ≡ returned tt)
          × ((c : ℕ)
              → (outcome s).1 c
                ≡ (if ltb c calls && not (detaches c) then some (funcs c) else none))
    Reach-futures some_calls =
        let (_, _, once) =
          Reach-stuck calls n ids (λ c. c) s reached valid none_lost none_exited workers_stuck
            callers_stuck some_calls in
        outcome-executed s (λ c. ltb c calls) (λ c. once (mark c) ∙ total-mark c calls)
