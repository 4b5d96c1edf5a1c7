-- ===== src/Pool/Lifetime.antt =====
-- A pool from its constructor to the end of its destructor.
use ss_logger_cpp.Prelude.{
  ℕ, zero, suc, ◌<◌, ◌≤◌, ◌≡◌, refl, ap, ◌∙◌, subst, arith, Bool, not, ◌&&◌, List, [], ◌∷◌, length,
  some, none, ltb, if◌then◌else◌, Bool-cases, inl, inr,
}
use mathlib.Core.Path.{fun_ext}
use ss_logger_cpp.Pool.Init.{size, construct, construct-numbered, started, upto, length-upto}
use ss_logger_cpp.Pool.State.{Worker, acquiring}
use ss_logger_cpp.Pool.System.{System, entering, Reach, start}
use ss_logger_cpp.Pool.Identifiers.{is_dropped, Reach-none_dropped}
use ss_logger_cpp.Pool.Counters.Caller.{Within, Within-append}
use ss_logger_cpp.Pool.Tasks.{Outcome, returned, raised}
use ss_logger_cpp.Pool.Progress.Onward.{Reach-then}
use ss_logger_cpp.Pool.Progress.Turns.{IsEnded}
use ss_logger_cpp.Pool.Futures.{outcome}
use ss_logger_cpp.Pool.Futures.Delivered.{Reach-delivers}

Within-suc : (n : ℕ) (xs : List ℕ) → Within n xs → Within (suc n) xs
Within-suc n [] h = tt
Within-suc n (x ∷ xs) h = (omega (arith, h.0), Within-suc n xs h.1)

upto-Within : (n : ℕ) → Within n (upto n)
unfolding upto
upto-Within zero = tt
upto-Within (suc n) =
    Within-append (suc n) (upto n) (n ∷ []) (Within-suc n (upto n) (upto-Within n))
      (omega arith, tt)

pub construct-Within :
    (outcomes : List Bool) → Within (construct outcomes).tasks (construct outcomes).priority
construct-Within outcomes = rw (construct-numbered outcomes) (upto-Within (started outcomes))

pub construct-length :
    (outcomes : List Bool) → length (construct outcomes).priority ≡ size (construct outcomes)
construct-length outcomes = rw (construct-numbered outcomes) refl

pub construct-size : (outcomes : List Bool) → (construct outcomes).tasks ≡ size (construct outcomes)
construct-size outcomes = rw (construct-numbered outcomes, length-upto (started outcomes)) refl

-- The first lines of `ThreadLoop`: however the call of `init` ends, the thread goes on to its loop.
pub enter_loop : {E : Type 0} → Outcome E (Unit {0}) → Worker
enter_loop (returned _) = acquiring
enter_loop (raised _) = acquiring

enter_loop-acquiring : {E : Type 0} (init : Outcome E (Unit {0})) → enter_loop init ≡ acquiring
unfolding enter_loop
enter_loop-acquiring (returned _) = refl
enter_loop-acquiring (raised _) = refl

-- The threads and the calls on a pool as the constructor leaves it; the task of a call is its number,
-- and `inits` says how the call of `init` ends in each thread.
abbrev pub constructed : {E : Type 0} → (ℕ → Outcome E (Unit {0})) → List Bool → System
constructed inits outcomes =
    record (start (construct outcomes).tasks (construct outcomes).priority (λ c. c)) {
      workers = λ i. enter_loop (inits i);
    }

pub constructed-start :
    {E : Type 0} (inits : ℕ → Outcome E (Unit {0})) (outcomes : List Bool)
    → constructed inits outcomes
      ≡ start (construct outcomes).tasks (construct outcomes).priority (λ c. c)
constructed-start inits outcomes =
    let begun = start (construct outcomes).tasks (construct outcomes).priority (λ c. c) in
    ap (λ (ws : ℕ → Worker). record begun { workers = ws })
      (fun_ext (λ i. enter_loop-acquiring (inits i)))

module _ {E A : Type 0} (satisfied : E) (funcs : ℕ → Outcome E A) (detaches : ℕ → Bool) (calls : ℕ)
    (inits : ℕ → Outcome E (Unit {0})) (outcomes : List Bool) where
  -- For a pool as the constructor leaves it, whichever threads could not be started and however the
  -- call of `init` ends in the others, and calls of `Enqueue` and `EnqueueDetach`, each with a task
  -- of its own, that are not more than the threads that run: from every reachable state in which
  -- the destructor has not begun, steps lead to a state in which the destructor is behind its last
  -- line and every thread has left its loop, no exception has left a task, and the future of each
  -- call of `Enqueue` has the value that its function returned or the exception that it threw; no
  -- other promise has a result.
  pub constructed-delivers :
      calls ≤ size (construct outcomes)
      → (s : System) → Reach calls (constructed inits outcomes) s
      → s.closer ≡ entering
      → (t : System) × Reach calls s t
        × IsEnded (size (construct outcomes)) t
        × ((outcome satisfied funcs detaches calls
              (construct outcomes).tasks
              (construct outcomes).priority
              t).0
            ≡ returned tt)
        × ((c : ℕ)
            → (outcome satisfied funcs detaches calls
                  (construct outcomes).tasks
                  (construct outcomes).priority
                  t).1
                c
              ≡ (if ltb c calls && not (detaches c) then some (funcs c) else none))
  constructed-delivers enough s reached e =
      let r = subst (λ u. Reach calls u s) (constructed-start inits outcomes) reached in
      let n = (construct outcomes).tasks in
      let ids = (construct outcomes).priority in
      let (t, steps, ended, done, futures) =
        Reach-delivers satisfied funcs detaches calls n ids (construct-Within outcomes) s r e in
      let kept : (c : ℕ) → c < calls → is_dropped (t.callers c) ≡ 0 =
        Reach-none_dropped calls n ids (λ c. c) (omega (arith, construct-length outcomes)) t
          (Reach-then r steps) in
      (
        t,
        steps,
        subst (λ m. IsEnded m t) (construct-size outcomes) ended,
        done,
        λ c. futures c ∙ elim (Bool-cases (ltb c calls)) [
          | inl h ↦ rw (h, kept c (ground (arith, h))) refl
          | inr h ↦ rw h refl
        ],
      )
