-- ===== src/Pool/Alone/Thread.antt =====
-- A round of `ThreadLoop` of one thread: its own queue, `StealTask`, `SignalCompletion`.
use ss_logger_cpp.Prelude.{
  ℕ, zero, suc, ◌+◌, ◌-◌, ◌%◌, ◌<◌, ◌≡◌, refl, arith, Bool, true, false, Bool-cases, inl, inr, List,
  [], ◌∷◌, ◌++◌, length, ◌==◌, ==_iff, ltb, if◌then◌else◌, ap, ◌∙◌, sym, append-nil, append_assoc,
}
use ss_logger_cpp.Queue.Contents.{pop_front, pop_back}
use ss_logger_cpp.Pool.Family.{update}
use ss_logger_cpp.Pool.State.{
  Pool, Worker, acquiring, draining, testing, looping, stealing, worker_in,
}

module _ (id : ℕ) (stop : Bool) where
  -- Some steps of the thread with nothing in between.
  pub data Run : Worker → Pool → Worker → Pool → Type 0 where
    rests : {w : Worker} {p : Pool} → Run w p w p
    moves :
        {w v : Worker} {p q : Pool}
        → Run (worker_in id stop w p).0 (worker_in id stop w p).1 v q
        → Run w p v q

  Run-trans : {w v x : Worker} {p q r : Pool} → Run w p v q → Run v q x r → Run w p x r
  Run-trans rests k = k
  Run-trans (moves h) k = moves (Run-trans h k)

  -- A round of the inner loop with one own task.
  abbrev served_one : ℕ → List ℕ → Pool → Pool
  served_one t rest p = record p {
    queues = update p.queues id rest;
    unassigned = p.unassigned - 1;
    in_flight = p.in_flight - 1;
    executed = p.executed ++ t ∷ [];
  }

  served : List ℕ → Pool → Pool
  served [] p = p
  served (t ∷ rest) p = served rest (served_one t rest p)

  Run-served : (q : List ℕ) (p : Pool) → p.queues id ≡ q → Run draining p (stealing 1) (served q p)
  unfolding worker_in served pop_front
  Run-served [] p e = moves (rw e rests)
  Run-served (t ∷ rest) p e =
      let later = Run-served rest (served_one t rest p) (rw ((==_iff id id).1 refl)) in
      moves (rw e (moves (moves (moves later))))

  served-fields :
      (q : List ℕ) (p : Pool)
      → p.queues id ≡ q
      → ((served q p).executed ≡ p.executed ++ q)
        × ((served q p).unassigned ≡ p.unassigned - length q)
        × ((served q p).in_flight ≡ p.in_flight - length q)
        × ((served q p).size ≡ p.size)
        × ((k : ℕ) → (served q p).queues k ≡ (if id == k then [] else p.queues k))
  unfolding served
  served-fields [] p e = (
    sym (append-nil p.executed),
    omega arith,
    omega arith,
    refl,
    λ k. elim (Bool-cases (id == k)) [
      | inl h ↦ rw h (ap p.queues (sym ((==_iff id k).0 h)) ∙ e)
      | inr h ↦ rw h
    ],
  )
  served-fields (t ∷ rest) p e =
      let (executed, unassigned, in_flight, size, queues) =
        served-fields rest (served_one t rest p) (rw ((==_iff id id).1 refl)) in
      (
        executed ∙ append_assoc p.executed (t ∷ []) rest,
        omega (arith, unassigned),
        omega (arith, in_flight),
        size,
        λ k. queues k ∙ elim (Bool-cases (id == k)) [ inl h ↦ rw h | inr h ↦ rw h ],
      )

  -- `StealTask` finds nothing.
  Run-steal :
      (p : Pool)
      → ((k : ℕ) → p.queues k ≡ [])
      → (d j : ℕ) → d + j ≡ p.size
      → Run (stealing j) p testing p
  unfolding worker_in pop_back
  Run-steal p h zero j e = moves (rw last rests)
    where
      last : ltb j p.size ≡ false
      last = ground (arith, e)
  Run-steal p h (suc d) j e =
      moves (rw (more, h ((id + j) % p.size)) (Run-steal p h d (j + 1) (omega arith)))
    where
      more : ltb j p.size ≡ true
      more = ground (arith, e)

  abbrev Idle : Pool → Type 0
  Idle p = (p.unassigned ≡ 0) × (p.in_flight ≡ 0)

  Run-signal : (p : Pool) → Idle p → Run testing p looping (record p { complete = true })
  unfolding worker_in
  Run-signal p (e, f) = moves (rw e (moves (rw f (moves rests))))

  -- A whole round, from the semaphore to the end of the body.
  pub Run-round :
      (p : Pool) (k : ℕ)
      → p.signals id ≡ suc k
      → id < p.size
      → p.unassigned ≡ length (p.queues id)
      → p.in_flight ≡ length (p.queues id)
      → ((j : ℕ) → (id == j) ≡ false → p.queues j ≡ [])
      → (after : Pool) × Run acquiring p looping after
        × (after.executed ≡ p.executed ++ p.queues id)
        × (after.in_flight ≡ 0)
        × (after.complete ≡ true)
        × ((j : ℕ) → after.queues j ≡ [])
  unfolding worker_in
  Run-round p k e lt f g h =
      let woken = record p { signals = update p.signals id k } in
      let (executed, unassigned, in_flight, size, queues) =
        served-fields (p.queues id) woken refl in
      let r = served (p.queues id) woken in
      (
        record r { complete = true },
        moves (
            rw e (
              Run-trans (Run-served (p.queues id) woken refl) (
                Run-trans (Run-steal r (empty queues) (p.size - 1) 1 (omega (arith, size)))
                  (Run-signal r (omega (arith, unassigned), omega (arith, in_flight)))))),
        executed,
        omega (arith, in_flight),
        refl,
        empty queues,
      )
    where
      empty :
          {f : ℕ → List ℕ}
          → ((j : ℕ) → f j ≡ (if id == j then [] else p.queues j))
          → (j : ℕ) → f j ≡ []
      empty queues j =
          queues j ∙ elim (Bool-cases (id == j)) [ inl b ↦ rw b | inr b ↦ rw b (h j b) ]
