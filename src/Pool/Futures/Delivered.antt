-- ===== src/Pool/Futures/Delivered.antt =====
-- What the futures get in a run up to the end of the destructor.
use ss_logger_cpp.Prelude.{
  ℕ, ◌+◌, ◌<◌, ◌≡◌, ◌≢◌, refl, ◌∙◌, arith, Bool, not, ◌&&◌, List, Option, none, some, ltb, ◌==◌,
  ==_iff, if◌then◌else◌, Bool-cases, inl, inr,
}
use ss_logger_cpp.Queue.Contents.{pop_front}
use ss_logger_cpp.Pool.Family.{total, total-zero, total_single, weigh}
use ss_logger_cpp.Pool.State.{
  Pool, Caller, rotating, dropped, putting_back, counting, flying, clearing, pushing, releasing,
  finished, rotate_front, caller_in,
}
use ss_logger_cpp.Pool.System.{
  System, entering, unreturned, close_in-unchanged, works, calls_on, closes, Reach, here, next,
  start,
}
use ss_logger_cpp.Pool.Identifiers.{is_dropped}
use ss_logger_cpp.Pool.Counters.Weights.{caller_task}
use ss_logger_cpp.Pool.Counters.Caller.{Within}
use ss_logger_cpp.Pool.Tasks.{Outcome, returned}
use ss_logger_cpp.Pool.Progress.Onward.{Reach-then}
use ss_logger_cpp.Pool.Progress.Turns.{IsEnded}
use ss_logger_cpp.Pool.Progress.Ended.{Reach-ends}
use ss_logger_cpp.Pool.Futures.{mark, total-mark, outcome, outcome-executed}

-- A call that holds a task holds this one.
abbrev Holds : ℕ → Caller → Type 0
Holds t (rotating u) = u ≡ t
Holds t (dropped u) = u ≡ t
Holds t (putting_back u _) = u ≡ t
Holds t (counting u _) = u ≡ t
Holds t (flying u _) = u ≡ t
Holds t (clearing u _) = u ≡ t
Holds t (pushing u _) = u ≡ t
Holds t (releasing _) = Unit
Holds t finished = Unit

caller_in-Holds : (t : ℕ) (c : Caller) (p : Pool) → Holds t c → Holds t (caller_in c p).0
unfolding caller_in
caller_in-Holds t (rotating u) p h = go (pop_front p.priority)
  where
    go : (r : Option (ℕ × List ℕ)) → Holds t (rotate_front u r p).0
    go none = h
    go (some (i, rest)) = h
caller_in-Holds t (dropped u) p h = h
caller_in-Holds t (putting_back u i) p h = h
caller_in-Holds t (counting u i) p h = h
caller_in-Holds t (flying u i) p h = elim (Bool-cases (p.in_flight == 0)) [
  | inl e ↦ rw e h
  | inr e ↦ rw e h
]
caller_in-Holds t (clearing u i) p h = h
caller_in-Holds t (pushing u i) p h = tt
caller_in-Holds t (releasing i) p h = tt
caller_in-Holds t finished p h = tt

Reach-Holds :
    (calls n : ℕ) (ids : List ℕ) (tasks : ℕ → ℕ) (s : System)
    → Reach calls (start n ids tasks) s
    → (c : ℕ) → Holds (tasks c) (s.callers c)
Reach-Holds calls n ids tasks _ here c = refl
Reach-Holds calls n ids tasks _ (next r (works i lt)) c = Reach-Holds calls n ids tasks _ r c
Reach-Holds calls n ids tasks _ (next {t = s} r (closes over)) c =
    rw (close_in-unchanged s.closer s).1 (Reach-Holds calls n ids tasks s r c)
Reach-Holds calls n ids tasks _ (next {t = s} r (calls_on j lt)) c = elim (Bool-cases (j == c)) [
  | inl e ↦ rw e (
      let same : j ≡ c = (==_iff j c).0 e in
      rw same
        (caller_in-Holds (tasks c) (s.callers c) s.pool (Reach-Holds calls n ids tasks s r c)))
  | inr e ↦ rw e (Reach-Holds calls n ids tasks s r c)
]

-- What a call that has returned holds, as a number.
returned-mark :
    (t c : ℕ) (k : Caller)
    → unreturned k ≡ 0
    → Holds t k
    → caller_task (mark c) k ≡ (if is_dropped k == 0 then 0 else mark c t)
returned-mark t c (dropped u) e h = rw h refl
returned-mark t c finished e h = refl
returned-mark t c (rotating u) e h = absurd (omega arith)
returned-mark t c (putting_back u i) e h = absurd (omega arith)
returned-mark t c (counting u i) e h = absurd (omega arith)
returned-mark t c (flying u i) e h = absurd (omega arith)
returned-mark t c (clearing u i) e h = absurd (omega arith)
returned-mark t c (pushing u i) e h = absurd (omega arith)
returned-mark t c (releasing i) e h = absurd (omega arith)

module _ (calls n : ℕ) (ids : List ℕ) where
  -- The tasks of the calls that have returned are executed, but for those that found no identifier.
  count-executed :
      (s : System)
      → Reach calls (start n ids (λ c. c)) s
      → total unreturned calls s.callers ≡ 0
      → ((w : ℕ → ℕ)
          → weigh w s.pool.executed + total (caller_task w) calls s.callers
            ≡ total w calls (λ c. c))
      → (c : ℕ)
      → weigh (mark c) s.pool.executed
        ≡ (if ltb c calls && is_dropped (s.callers c) == 0 then 1 else 0)
  count-executed s r over all c =
      let held : (j : ℕ)
          → j < calls
          → caller_task (mark c) (s.callers j)
            ≡ (if is_dropped (s.callers j) == 0 then 0 else mark c j) =
        λ j lt.
          returned-mark j c (s.callers j) (total-zero unreturned calls s.callers over j lt)
            (Reach-Holds calls n ids (λ c. c) s r j) in
      let others : (j : ℕ) → j < calls → j ≢ c → caller_task (mark c) (s.callers j) ≡ 0 =
        λ j lt d. held j lt ∙ ground (arith, ==_iff j c) in
      let single = total_single (caller_task (mark c)) c calls s.callers others in
      elim (Bool-cases (ltb c calls)) [
        | inl e ↦
            let own = held c (ground (arith, e)) in
            ground (arith, all (mark c), total-mark c calls, single, own, ==_iff c c)
        | inr e ↦ ground (arith, all (mark c), total-mark c calls, single)
      ]

module _ {E A : Type 0} (satisfied : E) (funcs : ℕ → Outcome E A) (detaches : ℕ → Bool)
    (calls n : ℕ) (ids : List ℕ) (valid : Within n ids) where
  -- Calls of `Enqueue` and `EnqueueDetach`, each with a task of its own, and a pool whose priority
  -- queue holds identifiers of its threads: from every reachable state in which the destructor has
  -- not begun, steps lead to a state in which the destructor is behind its last line and every
  -- thread has left its loop, no exception has left a task, and the future of each call of
  -- `Enqueue` that did not find the priority queue empty has the value that its function returned
  -- or the exception that it threw; no other promise has a result.
  pub Reach-delivers :
      (s : System)
      → Reach calls (start n ids (λ c. c)) s
      → s.closer ≡ entering
      → (t : System) × Reach calls s t
        × IsEnded n t
        × ((outcome satisfied funcs detaches calls n ids t).0 ≡ returned tt)
        × ((c : ℕ)
            → (outcome satisfied funcs detaches calls n ids t).1 c ≡ (
                if (ltb c calls && is_dropped (t.callers c) == 0) && not (detaches c)
                then some (funcs c)
                else none))
  Reach-delivers s r e =
      let (t, steps, ended, over, all) = Reach-ends calls n ids (λ c. c) valid s r e in
      let (done, futures) =
        outcome-executed satisfied funcs detaches calls n ids t
          (λ c. ltb c calls && is_dropped (t.callers c) == 0)
          (count-executed calls n ids t (Reach-then r steps) over all) in
      (t, steps, ended, done, futures)
