-- ===== src/Pool/Progress/Attended.antt =====
-- Who looks after a queue that is not empty.
use ss_logger_cpp.Prelude.{
  ℕ, zero, suc, ◌+◌, ◌%◌, ◌≤◌, ◌≡◌, refl, arith, Bool, true, false, Bool-cases, inl, inr, List, [],
  ◌∷◌, Option, none, some, ◌==◌, ltb, if◌then◌else◌, ==_iff, ◌∙◌, ◌-◌, ap,
}
use ss_logger_cpp.Queue.Contents.{pop_front, pop_back, push_back}
use ss_logger_cpp.Pool.Family.{le-total, total, total-update}
use ss_logger_cpp.Pool.State.{
  Pool, Worker, acquiring, draining, testing, signalling, storing, looping, exited, stealing, taken,
  invoking, invoked, acquire, drain, steal, Caller, rotating, dropped, putting_back, counting,
  flying, clearing, pushing, releasing, finished, rotate_front, worker_in, caller_in,
}
use ss_logger_cpp.Pool.System.{
  System, works, calls_on, closes, close_in-unchanged, Reach, here, next, start,
}

abbrev pub full : List ℕ → ℕ
full [] = 0
full (x ∷ xs) = 1

-- A thread that will test its own queue before it waits again.
abbrev pub attends : Worker → ℕ
attends draining = 1
attends (taken _ false) = 1
attends (invoking _ false) = 1
attends (invoked false) = 1
attends _ = 0

-- A call that has put a task in the queue `k` and will signal its thread.
abbrev pub signals_to : ℕ → Caller → ℕ
signals_to k (releasing i) = if i == k then 1 else 0
signals_to k _ = 0

full-pop_front : (xs : List ℕ) (x : ℕ) (rest : List ℕ) → pop_front xs ≡ some (x, rest) → full xs ≡ 1
unfolding pop_front
full-pop_front [] x rest e = cc
full-pop_front (y ∷ ys) x rest e = refl

full-pop_front_none :
    (xs : List ℕ) → ◌≡◌ {A = Option (ℕ × List ℕ)} (pop_front xs) none → full xs ≡ 0
unfolding pop_front
full-pop_front_none [] e = refl
full-pop_front_none (y ∷ ys) e = cc

full-pop_back : (xs : List ℕ) (x : ℕ) (rest : List ℕ) → pop_back xs ≡ some (x, rest) → full xs ≡ 1
unfolding pop_back
full-pop_back [] x rest e = cc
full-pop_back (y ∷ ys) x rest e = refl

full-le : (xs : List ℕ) → full xs ≤ 1
full-le [] = omega arith
full-le (x ∷ xs) = omega arith

-- What a thread's step to `r` does to each queue and to its own.
abbrev Attends : ℕ → Worker → Pool → Worker × Pool → Type 0
Attends id ph p r =
    ((k : ℕ) → full (r.1.queues k) ≤ full (p.queues k))
    × ((k : ℕ) → r.1.signals k ≡ (if id == k then r.1.signals id else p.signals k))
    × ((x : ℕ)
        → full (p.queues id) ≤ p.signals id + attends ph + x
        → full (r.1.queues id) ≤ r.1.signals id + attends r.0 + x)

module _ (p : Pool) where
  drain-Attends :
      (id : ℕ) (r : Option (ℕ × List ℕ))
      → pop_front (p.queues id) ≡ r
      → Attends id draining p (drain id r p)
  drain-Attends id none e = (
    λ k. omega arith,
    λ k. ground arith,
    λ x h. omega (arith, full-pop_front_none (p.queues id) e),
  )
  drain-Attends id (some (t, rest)) e = (
    λ k. ground (arith, full-pop_front (p.queues id) t rest e, full-le rest),
    λ k. ground arith,
    λ x h. ground (arith, full-le rest),
  )

  steal-Attends :
      (id j i : ℕ) (r : Option (ℕ × List ℕ))
      → pop_back (p.queues i) ≡ r
      → Attends id (stealing j) p (steal j i r p)
  steal-Attends id j i none e = (λ k. omega arith, λ k. ground arith, λ x h. h)
  steal-Attends id j i (some (t, rest)) e = (
    λ k. ground (arith, full-pop_back (p.queues i) t rest e, full-le rest),
    λ k. ground arith,
    λ x h. ground (arith, full-pop_back (p.queues i) t rest e, full-le rest),
  )

  acquire-Attends : (id k : ℕ) → p.signals id ≡ k → Attends id acquiring p (acquire id k p)
  acquire-Attends id zero e = (λ k. omega arith, λ k. ground arith, λ x h. h)
  acquire-Attends id (suc n) e =
      (λ k. omega arith, λ k. ground arith, λ x h. omega (arith, full-le (p.queues id)))

  worker_in-Attends :
      (id : ℕ) (stop : Bool) (ph : Worker) → Attends id ph p (worker_in id stop ph p)
  unfolding worker_in
  worker_in-Attends id stop acquiring = acquire-Attends id (p.signals id) refl
  worker_in-Attends id stop draining = drain-Attends id (pop_front (p.queues id)) refl
  worker_in-Attends id stop (stealing j) = elim (Bool-cases (ltb j p.size)) [
    | inl e ↦
        rw e (steal-Attends id j ((id + j) % p.size) (pop_back (p.queues ((id + j) % p.size))) refl)
    | inr e ↦ rw e (λ k. omega arith, λ k. ground arith, λ x h. h)
  ]
  worker_in-Attends id stop (taken t true) = (λ k. omega arith, λ k. ground arith, λ x h. h)
  worker_in-Attends id stop (taken t false) = (λ k. omega arith, λ k. ground arith, λ x h. h)
  worker_in-Attends id stop (invoking t true) = (λ k. omega arith, λ k. ground arith, λ x h. h)
  worker_in-Attends id stop (invoking t false) = (λ k. omega arith, λ k. ground arith, λ x h. h)
  worker_in-Attends id stop (invoked true) = (λ k. omega arith, λ k. ground arith, λ x h. h)
  worker_in-Attends id stop (invoked false) = (λ k. omega arith, λ k. ground arith, λ x h. h)
  worker_in-Attends id stop testing = (λ k. omega arith, λ k. ground arith, λ x h. ground arith)
  worker_in-Attends id stop signalling = (λ k. omega arith, λ k. ground arith, λ x h. ground arith)
  worker_in-Attends id stop storing = (λ k. omega arith, λ k. ground arith, λ x h. h)
  worker_in-Attends id true looping = (λ k. omega arith, λ k. ground arith, λ x h. h)
  worker_in-Attends id false looping = (λ k. omega arith, λ k. ground arith, λ x h. h)
  worker_in-Attends id stop exited = (λ k. omega arith, λ k. ground arith, λ x h. h)

  -- What a call's step does to each queue and each signal.
  caller_in-signals_to :
      (ph : Caller) (k x : ℕ)
      → full (p.queues k) ≤ p.signals k + x + signals_to k ph
      → full ((caller_in ph p).1.queues k)
        ≤ (caller_in ph p).1.signals k + x + signals_to k (caller_in ph p).0
  unfolding caller_in
  caller_in-signals_to (rotating t) k x h = go (pop_front p.priority)
    where
      go :
          (r : Option (ℕ × List ℕ))
          → full ((rotate_front t r p).1.queues k)
            ≤ (rotate_front t r p).1.signals k + x + signals_to k (rotate_front t r p).0
      go none = h
      go (some (i, rest)) = h
  caller_in-signals_to (dropped t) k x h = h
  caller_in-signals_to (putting_back t i) k x h = h
  caller_in-signals_to (counting t i) k x h = h
  caller_in-signals_to (flying t i) k x h = ground arith
  caller_in-signals_to (clearing t i) k x h = h
  caller_in-signals_to (pushing t i) k x h = ground (arith, full-le (push_back (p.queues i) t))
  caller_in-signals_to (releasing i) k x h = ground arith
  caller_in-signals_to finished k x h = h

-- In every reachable state a queue that is not empty has a signal that waits for its thread, a
-- thread that will look at it, or a call that will give the signal.
pub Reach-attended :
    (calls n : ℕ) (ids : List ℕ) (tasks : ℕ → ℕ) (s : System)
    → Reach calls (start n ids tasks) s
    → (k : ℕ)
    → full (s.pool.queues k)
      ≤ s.pool.signals k + attends (s.workers k) + total (signals_to k) calls s.callers
Reach-attended calls n ids tasks _ here k = omega arith
Reach-attended calls n ids tasks _ (next {t = s} r (works i lt)) k =
    let stop = s.stops i in
    let (fewer, signals, own) = worker_in-Attends s.pool i stop (s.workers i) in
    let before = Reach-attended calls n ids tasks s r in
    elim (Bool-cases (i == k)) [
      | inl e ↦ ground (arith, ==_iff i k, own (total (signals_to k) calls s.callers), before k)
      | inr e ↦ rw e (
          omega (
            arith,
            before k,
            fewer k,
            signals_kept i k s.pool (worker_in i stop (s.workers i) s.pool).1 e (signals k),
          ))
    ]
  where
    signals_kept :
        (i k : ℕ) (p q : Pool)
        → (i == k) ≡ false
        → q.signals k ≡ (if i == k then q.signals i else p.signals k)
        → q.signals k ≡ p.signals k
    signals_kept i k p q e h = h ∙ rw e
Reach-attended calls n ids tasks _ (next {t = s} r (closes returned)) k =
    let (workers, callers, pool, more) = close_in-unchanged s.closer s in
    rw (workers, callers, ap (λ (p : Pool). p.queues) pool)
      (omega (arith, Reach-attended calls n ids tasks s r k, more k))
Reach-attended calls n ids tasks _ (next {t = s} r (calls_on c lt)) k =
    let ph = s.callers c in
    let q = (caller_in ph s.pool).0 in
    let rest = attends (s.workers k) + (total (signals_to k) calls s.callers - signals_to k ph) in
    omega (
      arith,
      Reach-attended calls n ids tasks s r k,
      caller_in-signals_to s.pool ph k rest (
          omega (
            arith,
            Reach-attended calls n ids tasks s r k,
            le-total (signals_to k) calls s.callers c lt,
          )),
      total-update (signals_to k) calls s.callers c q lt,
      le-total (signals_to k) calls s.callers c lt,
    )

-- A thread takes signals only from its own semaphore, and a call takes none.
pub worker_in-signals :
    (p : Pool) (id : ℕ) (stop : Bool) (ph : Worker) (k : ℕ)
    → (id == k) ≡ false
    → (worker_in id stop ph p).1.signals k ≡ p.signals k
worker_in-signals p id stop ph k e = (worker_in-Attends p id stop ph).1 k ∙ rw e
