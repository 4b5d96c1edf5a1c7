-- ===== src/Pool/Alone/Rounds.antt =====
-- Calls of `EnqueueTask` one after the other, before any thread takes a step.
use ss_logger_cpp.Prelude.{
  ℕ, zero, suc, ◌+◌, ◌≤◌, ◌≡◌, refl, arith, Bool-cases, inl, inr, List, [], ◌∷◌, ◌++◌, length, ◌==◌,
  ==_iff, if◌then◌else◌, ap, ◌∙◌, sym, append-nil, append_assoc, subst,
}
use ss_logger_cpp.Queue.Contents.{rotate, rotate_times, handed_out}
use ss_logger_cpp.Pool.Family.{update}
use ss_logger_cpp.Pool.State.{Pool, rotating}
use ss_logger_cpp.Pool.System.{System, Reach, start}
use ss_logger_cpp.Pool.Alone.Calls.{calls_in_turn, calls_in_turn-Reach, enqueue-alone, enqueue_onto}

module _ (tasks : ℕ → ℕ) where
  -- `n` whole calls from the number `first` on.
  pub rounds : ℕ → ℕ → System → System
  rounds first zero s = s
  rounds first (suc n) s = rounds (suc first) n (calls_in_turn first 7 s)

  -- The tasks that a thread is given when the calls from `first` on get the threads of a list.
  unfoldable pub given : ℕ → List ℕ → ℕ → List ℕ
  given k [] first = []
  given k (i ∷ is) first =
      let rest = given k is (suc first) in if i == k then tasks first ∷ rest else rest

  abbrev pub Waits : ℕ → System → Type 0
  Waits first s = (c : ℕ) → first ≤ c → s.callers c ≡ rotating (tasks c)

  Waits-calls :
      (first : ℕ) (s : System) → Waits first s → Waits (suc first) (calls_in_turn first 7 s)
  Waits-calls first s h c le =
      let (_, _, (_, _, _, others)) = enqueue-alone first s (tasks first) (h first (omega arith)) in
      others c ∙ elim (Bool-cases (first == c)) [
        | inl e ↦ absurd (omega (arith, (==_iff first c).0 e))
        | inr e ↦ rw e (h c (omega arith))
      ]

  -- The pool behind `n` calls.
  abbrev pub Dealt : ℕ → ℕ → Pool → Pool → Type 0
  Dealt first n p q =
      let turns = handed_out n p.priority in
      (q.priority ≡ rotate_times n p.priority)
      × (q.in_flight ≡ p.in_flight + length turns)
      × (q.unassigned ≡ p.unassigned + length turns)
      × (q.executed ≡ p.executed)
      × ((k : ℕ)
          → (q.queues k ≡ p.queues k ++ given k turns first)
            × (q.signals k ≡ p.signals k + length (given k turns first)))

  handed_out_nil : (n : ℕ) → handed_out {A = ℕ} n [] ≡ []
  unfolding handed_out rotate
  handed_out_nil zero = refl
  handed_out_nil (suc n) = refl

  -- One thread's queue and counter, when the next call is for the thread `i`.
  given-queue :
      (first k i : ℕ) (turns : List ℕ) (queues : ℕ → List ℕ)
      → update queues i (queues i ++ tasks first ∷ []) k ++ given k turns (suc first)
        ≡ queues k ++ given k (i ∷ turns) first
  unfolding given
  given-queue first k i turns queues = elim (Bool-cases (i == k)) [
    | inl h ↦
        rw (h, ap queues ((==_iff i k).0 h))
          (append_assoc (queues k) (tasks first ∷ []) (given k turns (suc first)))
    | inr h ↦ rw h
  ]

  given-signals :
      (first k i : ℕ) (turns : List ℕ) (signals : ℕ → ℕ)
      → update signals i (signals i + 1) k + length (given k turns (suc first))
        ≡ signals k + length (given k (i ∷ turns) first)
  unfolding given
  given-signals first k i turns signals = elim (Bool-cases (i == k)) [
    | inl h ↦ rw (h, ap signals ((==_iff i k).0 h)) (omega arith)
    | inr h ↦ rw h
  ]

  Dealt-onto :
      (first n : ℕ) (xs : List ℕ) (p q : Pool)
      → p.priority ≡ xs
      → Dealt (suc first) n (enqueue_onto xs (tasks first) p) q
      → Dealt first (suc n) p q
  unfolding rotate_times handed_out rotate given
  Dealt-onto first n [] p q e (order, flying, waiting, done, each) =
      rw e (order', flying', waiting', done, λ k. each' k)
    where
      order' : q.priority ≡ rotate_times n []
      order' = order ∙ rw e

      flying' : q.in_flight ≡ p.in_flight + 0
      flying' = flying ∙ rw (e, handed_out_nil n)

      waiting' : q.unassigned ≡ p.unassigned + 0
      waiting' = waiting ∙ rw (e, handed_out_nil n)

      each' : (k : ℕ) → (q.queues k ≡ p.queues k ++ []) × (q.signals k ≡ p.signals k + 0)
      each' k = ((each k).0 ∙ rw (e, handed_out_nil n), (each k).1 ∙ rw (e, handed_out_nil n))
  Dealt-onto first n (i ∷ is) p q e (order, flying, waiting, done, each) = rw e (
    order,
    omega (arith, flying),
    omega (arith, waiting),
    done,
    λ k. (
      (each k).0 ∙ given-queue first k i (handed_out n (is ++ i ∷ [])) p.queues,
      (each k).1 ∙ given-signals first k i (handed_out n (is ++ i ∷ [])) p.signals,
    ),
  )

  pub rounds-Dealt :
      (first n : ℕ) (s : System) → Waits first s → Dealt first n s.pool (rounds first n s).pool
  unfolding rounds rotate_times handed_out given
  rounds-Dealt first zero s h =
      (refl, omega arith, omega arith, refl, λ k. (sym (append-nil (s.pool.queues k)), omega arith))
  rounds-Dealt first (suc n) s h =
      let (pool, _, _) = enqueue-alone first s (tasks first) (h first (omega arith)) in
      let later = rounds-Dealt (suc first) n (calls_in_turn first 7 s) (Waits-calls first s h) in
      Dealt-onto first n s.pool.priority s.pool (rounds first (suc n) s).pool refl
        (subst (λ p. Dealt (suc first) n p (rounds first (suc n) s).pool) pool later)

  pub rounds-unchanged :
      (first n : ℕ) (s : System)
      → Waits first s
      → ((rounds first n s).workers ≡ s.workers) × ((rounds first n s).stops ≡ s.stops)
  unfolding rounds
  rounds-unchanged first zero s h = (refl, refl)
  rounds-unchanged first (suc n) s h =
      let (_, _, (workers, stops, _, _)) =
        enqueue-alone first s (tasks first) (h first (omega arith)) in
      let (workers', stops') =
        rounds-unchanged (suc first) n (calls_in_turn first 7 s) (Waits-calls first s h) in
      (workers' ∙ workers, stops' ∙ stops)

  pub rounds-Reach :
      (calls first n : ℕ) {from s : System}
      → first + n ≤ calls
      → Reach calls from s
      → Reach calls from (rounds first n s)
  unfolding rounds
  rounds-Reach calls first zero h r = r
  rounds-Reach calls first (suc n) h r =
      rounds-Reach calls (suc first) n (omega arith)
        (calls_in_turn-Reach calls first (omega arith) 7 r)

  abbrev pub begun : ℕ → List ℕ → System
  begun m ids = start m ids tasks

  -- One thread.
  -- The tasks of the calls from `first` on.
  pub listed : ℕ → ℕ → List ℕ
  listed first zero = []
  listed first (suc n) = tasks first ∷ listed (suc first) n

  pub listed-length : (first n : ℕ) → length (listed first n) ≡ n
  unfolding listed
  listed-length first zero = refl
  listed-length first (suc n) = omega (arith, listed-length (suc first) n)

  pub given-one :
      (id k first n : ℕ)
      → given k (handed_out n (id ∷ [])) first ≡ (if id == k then listed first n else [])
  unfolding given handed_out rotate listed
  given-one id k first zero = elim (Bool-cases (id == k)) [ inl h ↦ rw h | inr h ↦ rw h ]
  given-one id k first (suc n) = elim (Bool-cases (id == k)) [
    | inl h ↦ rw h (ap (◌∷◌ (tasks first)) (given-one id k (suc first) n ∙ rw h))
    | inr h ↦ rw h (given-one id k (suc first) n ∙ rw h)
  ]

  pub handed_out-one : (id n : ℕ) → length (handed_out n (id ∷ [])) ≡ n
  unfolding handed_out rotate
  handed_out-one id zero = refl
  handed_out-one id (suc n) = omega (arith, handed_out-one id n)
