-- ===== src/Pool/Counters/Worker.antt =====
-- The steps of a pool thread (`ThreadLoop` and what it calls) and the counters.
use ss_logger_cpp.Prelude.{
  ℕ, ◌+◌, ◌%◌, ◌<◌, ◌≤◌, ◌≡◌, refl, arith, Bool, true, false, List, [], ◌∷◌, Option, none, some,
  inl, inr, ltb, Bool-cases,
}
use ss_logger_cpp.Queue.Contents.{pop_front, pop_back}
use ss_logger_cpp.Pool.Family.{update, total-update, weigh, weigh-append, weigh-cons, weigh-nil}
use ss_logger_cpp.Pool.State.{
  Pool, Worker, acquiring, draining, testing, signalling, storing, looping, exited, stealing, taken,
  invoking, invoked, worker_in, acquire, drain, steal,
}
use ss_logger_cpp.Pool.Counters.Weights.{
  queued, worker_task, worker_flight, worker_unassigned, one, pop_front-weigh, pop_back-weigh,
}

-- What a step to `r` keeps; the two counters are read where they cover what the thread holds.
abbrev pub Keeps : Worker → Pool → Worker × Pool → Type 0
Keeps ph p r =
    (r.1.size ≡ p.size)
    × (r.1.priority ≡ p.priority)
    × ((w : ℕ → ℕ)
        → queued w r.1 + worker_task w r.0 + weigh w r.1.executed
          ≡ queued w p + worker_task w ph + weigh w p.executed)
    × (worker_flight ph ≤ p.in_flight
        → r.1.in_flight + queued one p + worker_flight ph
          ≡ p.in_flight + queued one r.1 + worker_flight r.0)
    × (worker_unassigned ph ≤ p.unassigned
        → r.1.unassigned + queued one p + worker_unassigned ph
          ≡ p.unassigned + queued one r.1 + worker_unassigned r.0)

module _ (p : Pool) where
  -- To take a task from the queue of an item.
  queued-take :
      (w : ℕ → ℕ) (i t : ℕ) (rest : List ℕ)
      → i < p.size
      → weigh w (p.queues i) ≡ weigh w rest + w t
      → queued w (record p { queues = update p.queues i rest }) + w t ≡ queued w p
  unfolding queued
  queued-take w i t rest h e = omega (arith, total-update (weigh w) p.size p.queues i rest h)

  drain-Keeps :
      (id : ℕ) (r : Option (ℕ × List ℕ))
      → id < p.size
      → pop_front (p.queues id) ≡ r
      → Keeps draining p (drain id r p)
  drain-Keeps id none h e = (refl, refl, λ w. refl, λ le. omega arith, λ le. omega arith)
  drain-Keeps id (some (t, rest)) h e =
      let take =
        λ (w : ℕ → ℕ). queued-take w id t rest h (pop_front-weigh w (p.queues id) t rest e) in
      (
        refl,
        refl,
        λ w. omega (arith, take w),
        λ _. omega (arith, take one),
        λ _. omega (arith, take one),
      )

  steal-Keeps :
      (j i : ℕ) (r : Option (ℕ × List ℕ))
      → i < p.size
      → pop_back (p.queues i) ≡ r
      → Keeps (stealing j) p (steal j i r p)
  steal-Keeps j i none h e = (refl, refl, λ w. refl, λ le. omega arith, λ le. omega arith)
  steal-Keeps j i (some (t, rest)) h e =
      let take = λ (w : ℕ → ℕ). queued-take w i t rest h (pop_back-weigh w (p.queues i) t rest e) in
      (
        refl,
        refl,
        λ w. omega (arith, take w),
        λ _. omega (arith, take one),
        λ _. omega (arith, take one),
      )

  acquire-Keeps : (id k : ℕ) → Keeps acquiring p (acquire id k p)
  unfolding queued
  acquire-Keeps id ℕ.zero = (refl, refl, λ w. refl, λ le. omega arith, λ le. omega arith)
  acquire-Keeps id (ℕ.suc k) = (refl, refl, λ w. refl, λ le. omega arith, λ le. omega arith)

  pub worker_in-Keeps :
      (id : ℕ) (stop : Bool) (ph : Worker) → id < p.size → Keeps ph p (worker_in id stop ph p)
  unfolding worker_in queued
  worker_in-Keeps id stop acquiring h = acquire-Keeps id (p.signals id)
  worker_in-Keeps id stop draining h = drain-Keeps id (pop_front (p.queues id)) h refl
  worker_in-Keeps id stop (stealing j) h = elim (Bool-cases (ltb j p.size)) [
    | inl e ↦ rw e (
        steal-Keeps j ((id + j) % p.size) (pop_back (p.queues ((id + j) % p.size))) (grind arith)
          refl)
    | inr e ↦ rw e (refl, refl, λ w. refl, λ le. omega arith, λ le. omega arith)
  ]
  worker_in-Keeps id stop (taken t b) h =
      (refl, refl, λ w. omega arith, λ le. omega arith, λ le. omega arith)
  worker_in-Keeps id stop (invoking t b) h = (
    refl,
    refl,
    λ w. omega (arith, weigh-append w p.executed (t ∷ []), weigh-cons w t [], weigh-nil w),
    λ le. omega arith,
    λ le. omega arith,
  )
  worker_in-Keeps id stop (invoked true) h =
      (refl, refl, λ w. omega arith, λ le. omega arith, λ le. omega arith)
  worker_in-Keeps id stop (invoked false) h =
      (refl, refl, λ w. omega arith, λ le. omega arith, λ le. omega arith)
  worker_in-Keeps id stop testing h = ground arith
  worker_in-Keeps id stop signalling h = ground arith
  worker_in-Keeps id stop storing h = (refl, refl, λ w. refl, λ le. omega arith, λ le. omega arith)
  worker_in-Keeps id true looping h = (refl, refl, λ w. refl, λ le. omega arith, λ le. omega arith)
  worker_in-Keeps id false looping h = (refl, refl, λ w. refl, λ le. omega arith, λ le. omega arith)
  worker_in-Keeps id stop exited h = (refl, refl, λ w. refl, λ le. omega arith, λ le. omega arith)
