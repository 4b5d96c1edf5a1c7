-- ===== src/Pool/Alone/Calls.antt =====
-- A call of `EnqueueTask` from its first line to its last.
use ss_logger_cpp.Prelude.{
  ℕ, zero, suc, ◌+◌, ◌<◌, ◌≡◌, refl, arith, false, Bool-cases, inl, inr, List, [], ◌∷◌, ◌++◌, ◌==◌,
  ==_iff, if◌then◌else◌, ap, ◌∙◌,
}
use ss_logger_cpp.Queue.Contents.{pop_front, push_back}
use ss_logger_cpp.Pool.Family.{update}
use ss_logger_cpp.Pool.State.{Pool, Caller, rotating, dropped, finished, caller_in}
use ss_logger_cpp.Pool.System.{System, call, calls_on, Reach, next}

-- What one call does at once: the task goes to the thread at the front, which goes to the back and
-- is signalled; where there is none, the task is dropped.
abbrev pub enqueue_onto : List ℕ → ℕ → Pool → Pool
enqueue_onto [] t p = p
enqueue_onto (i ∷ rest) t p = record p {
  priority = rest ++ i ∷ [];
  unassigned = p.unassigned + 1;
  in_flight = p.in_flight + 1;
  complete = if p.in_flight == 0 then false else p.complete;
  queues = update p.queues i (p.queues i ++ t ∷ []);
  signals = update p.signals i (p.signals i + 1);
}

abbrev pub enqueue_at_once : ℕ → Pool → Pool
enqueue_at_once t p = enqueue_onto p.priority t p

abbrev pub end_of : List ℕ → ℕ → Caller
end_of [] t = dropped t
end_of (i ∷ rest) t = finished

-- Steps of a call with nothing in between.
alone : ℕ → Caller × Pool → Caller × Pool
alone zero r = r
alone (suc m) r = alone m (caller_in r.0 r.1)

alone_dropped : (m t : ℕ) (p : Pool) → alone m (dropped t, p) ≡ (dropped t, p)
unfolding alone caller_in
alone_dropped zero t p = refl
alone_dropped (suc m) t p = alone_dropped m t p

alone-enqueue :
    (xs : List ℕ) (t : ℕ) (p : Pool)
    → p.priority ≡ xs
    → alone 7 (rotating t, p) ≡ (end_of xs t, enqueue_onto xs t p)
unfolding alone caller_in pop_front push_back
alone-enqueue [] t p e = rw e
alone-enqueue (i ∷ rest) t p e = elim (Bool-cases (p.in_flight == 0)) [
  | inl f ↦ rw (e, f)
  | inr f ↦ rw (e, f)
]

-- The same in the system.
pub calls_in_turn : ℕ → ℕ → System → System
calls_in_turn c zero s = s
calls_in_turn c (suc m) s = calls_in_turn c m (call c s)

pub calls_in_turn-Reach :
    (calls c : ℕ)
    → c < calls
    → (m : ℕ) {start s : System} → Reach calls start s
    → Reach calls start (calls_in_turn c m s)
unfolding calls_in_turn
calls_in_turn-Reach calls c lt zero r = r
calls_in_turn-Reach calls c lt (suc m) r = calls_in_turn-Reach calls c lt m (next r (calls_on c lt))

module _ (c : ℕ) where
  abbrev pub SameBut : System → System → Type 0
  SameBut s u =
      (u.workers ≡ s.workers)
      × (u.stops ≡ s.stops)
      × (u.closer ≡ s.closer)
      × ((k : ℕ) → u.callers k ≡ (if c == k then u.callers c else s.callers k))

  calls_in_turn-alone :
      (m : ℕ) (s : System)
      → (((calls_in_turn c m s).callers c, (calls_in_turn c m s).pool)
          ≡ alone m (s.callers c, s.pool))
        × SameBut s (calls_in_turn c m s)
  unfolding calls_in_turn alone
  calls_in_turn-alone zero s =
      (refl, (refl, refl, refl, λ k. ground (arith, ap s.callers, ==_iff c k)))
  calls_in_turn-alone (suc m) s =
      let (same, (workers, stops, closer, others)) = calls_in_turn-alone m (call c s) in
      (
        same ∙ ap (alone m) (rw ((==_iff c c).1 refl)),
        (
          workers,
          stops,
          closer,
          λ k. elim (Bool-cases (c == k)) [ inl e ↦ others k ∙ rw e | inr e ↦ others k ∙ rw e ],
        ),
      )

  -- A call of `EnqueueTask` from its first line to its last, with no step of anybody else in
  -- between, does at once: the thread at the front of the priority queue gets the task at the back
  -- of its queue and one signal and goes to the back, both counters go up, and the flag is cleared
  -- if none was in flight; on an empty priority queue nothing changes and the task is dropped.
  -- Threads, stop states, destructor and other calls stay as they are.
  pub enqueue-alone :
      (s : System) (t : ℕ)
      → s.callers c ≡ rotating t
      → ((calls_in_turn c 7 s).pool ≡ enqueue_at_once t s.pool)
        × ((calls_in_turn c 7 s).callers c ≡ end_of s.pool.priority t)
        × SameBut s (calls_in_turn c 7 s)
  enqueue-alone s t e =
      let (same, others) = calls_in_turn-alone 7 s in
      let result =
        same ∙ ap (λ ph. alone 7 (ph, s.pool)) e ∙ alone-enqueue s.pool.priority t s.pool refl in
      (ap (λ (r : Caller × Pool). r.1) result, ap (λ (r : Caller × Pool). r.0) result, others)
