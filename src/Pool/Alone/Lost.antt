-- ===== src/Pool/Alone/Lost.antt =====
-- The destructor behind a thread that has set the flag late.
use ss_logger_cpp.Prelude.{
  ℕ, zero, suc, ◌<◌, ◌≡◌, refl, arith, true, false, [], ◌∷◌, ◌++◌, ap, ◌∙◌, Bool-cases, inl, inr,
  ◌==◌,
}
use ss_logger_cpp.Pool.Family.{total, total_zero}
use ss_logger_cpp.Pool.State.{Pool, rotating, storing, looping, exited, worker_in}
use ss_logger_cpp.Pool.System.{
  System, entering, closed, unreturned, work, works, closes, close_in, close_in-unchanged, Reach,
  next,
}
use ss_logger_cpp.Pool.Alone.Calls.{enqueue-alone}
use ss_logger_cpp.Pool.Alone.Overrun.{late, storing-stored, storing-returns_early}

-- Steps of the destructor.
pub closing : ℕ → System → System
closing zero s = s
closing (suc n) s = let t = closing n s in close_in t.closer t

module _ (calls : ℕ) where
  closing-Reach :
      (n : ℕ) {from : System} (s : System)
      → total unreturned calls s.callers ≡ 0
      → Reach calls from s
      → Reach calls from (closing n s)
        × ((closing n s).callers ≡ s.callers)
        × ((closing n s).pool.size ≡ s.pool.size)
  unfolding closing
  closing-Reach zero s h r = (r, refl, refl)
  closing-Reach (suc n) s h r =
      let (before, callers, size) = closing-Reach n s h r in
      let (_, callers', pool', _) = close_in-unchanged (closing n s).closer (closing n s) in
      (
        next before (closes (ap (total unreturned calls) callers ∙ h)),
        callers' ∙ callers,
        ap (λ (p : Pool). p.size) pool' ∙ size,
      )

  -- The destructor asks the only thread to stop, the thread leaves its loop, the destructor goes on.
  abbrev pub ended : System → System
  ended s = closing 2 (work 0 (closing 4 s))

  ended-Reach :
      {from : System} (s : System)
      → total unreturned calls s.callers ≡ 0
      → s.pool.size ≡ 1
      → Reach calls from s
      → Reach calls from (ended s)
  ended-Reach s h e r =
      let (before, callers, size) = closing-Reach 4 s h r in
      (closing-Reach 2 (work 0 (closing 4 s)) (ap (total unreturned calls) callers ∙ h)
        (next before (works 0 (omega (arith, size, e))))).0

  ended-fields :
      (s : System)
      → s.closer ≡ entering
      → s.pool.size ≡ 1
      → s.pool.in_flight ≡ 1
      → s.pool.complete ≡ true
      → s.workers 0 ≡ looping
      → ((ended s).closer ≡ closed)
        × ((ended s).workers 0 ≡ exited)
        × ((ended s).pool.executed ≡ s.pool.executed)
        × ((ended s).pool.queues ≡ s.pool.queues)
  unfolding closing close_in worker_in
  ended-fields s a b c d e = rw (a, b, c, d, e) (refl, refl, refl, refl)

-- The other calls have returned; the pool has one thread.
module _ (calls c t : ℕ) (from s : System) (reached : Reach calls from s)
    (one_thread : s.pool.size ≡ 1) (own_call : c < calls) (about_to_set : s.workers 0 ≡ storing)
    (asks : s.callers c ≡ rotating t) (order : s.pool.priority ≡ 0 ∷ [])
    (none_in_flight : s.pool.in_flight ≡ 0) (not_closing : s.closer ≡ entering)
    (others_returned : (d : ℕ) → d < calls → (c == d) ≡ false → unreturned (s.callers d) ≡ 0) where
  after_store : System
  after_store = late calls 0 c t 0 [] from s

  after_store-returned : total unreturned calls after_store.callers ≡ 0
  unfolding after_store
  after_store-returned =
      let (_, own, (_, _, _, others)) = enqueue-alone c s t asks in
      total_zero unreturned calls after_store.callers (λ d lt. elim (Bool-cases (c == d)) [
        | inl e ↦ rw (others d, e, own, order) refl
        | inr e ↦ rw (others d, e) (others_returned d lt e)
      ])

  -- In a pool with one thread, when that thread in `SignalCompletion` has found the counter 0 and a
  -- last call of `EnqueueTask` runs before it stores the flag, a reachable state follows in which
  -- the destructor is behind its last line and the thread has left its loop, while the task of that
  -- call is still in the queue, not executed.
  pub storing-lost :
      (u : System) × Reach calls from u
      × (u.closer ≡ closed)
      × (u.workers 0 ≡ exited)
      × (u.pool.executed ≡ s.pool.executed)
      × (u.pool.queues 0 ≡ s.pool.queues 0 ++ t ∷ [])
  unfolding after_store worker_in
  storing-lost =
      let (reach, _, flight, executed, queue) =
        storing-returns_early calls 0 c t 0 [] from s reached (omega arith) own_call about_to_set
          asks order none_in_flight in
      let (_, _, (workers, _, closer, _)) = enqueue-alone c s t asks in
      let stored = storing-stored calls 0 c t 0 [] from s about_to_set asks order in
      let here_storing = ap (λ ws. ws 0) workers ∙ about_to_set in
      let (a, b, e, q) =
        ended-fields calls after_store (closer ∙ not_closing)
          (ap (λ (p : Pool). p.size) stored ∙ one_thread) flight
          (ap (λ (p : Pool). p.complete) stored) (rw here_storing refl) in
      (
        ended calls after_store,
        ended-Reach calls after_store after_store-returned
            (ap (λ (p : Pool). p.size) stored ∙ one_thread) reach,
        a,
        b,
        e ∙ executed,
        ap (λ qs. qs 0) q ∙ queue,
      )
