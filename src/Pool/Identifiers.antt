-- ===== src/Pool/Identifiers.antt =====
-- include/Utils/include/ThreadPool.h: the identifiers in `m_priority_queue`, which `EnqueueTask` takes
-- out and puts back in two steps.
use ss_logger_cpp.Prelude.{
  ℕ, ◌+◌, ◌<◌, ◌≤◌, ◌≡◌, refl, arith, Bool-cases, inl, inr, List, [], ◌∷◌, Option, none, some,
  length, ◌==◌, ==_iff, ◌↔◌,
}
use ss_logger_cpp.Queue.Contents.{pop_front, push_back}
use ss_logger_cpp.Pool.Family.{
  update, total_le, total, total-update, total_zero, weigh, weigh-append, weigh-cons, weigh-nil,
}
use ss_logger_cpp.Pool.State.{
  Pool, Caller, rotating, dropped, putting_back, counting, flying, clearing, pushing, releasing,
  finished, rotate_front, caller_in,
}
use ss_logger_cpp.Pool.System.{
  System, call, works, calls_on, closes, close_in-unchanged, Reach, here, next, start,
}
use ss_logger_cpp.Pool.Counters.Weights.{one, pop_front-weigh}
use ss_logger_cpp.Pool.Counters.Worker.{worker_in-Keeps}

-- The identifier that a call has taken out and not put back yet.
abbrev pub caller_id : (ℕ → ℕ) → Caller → ℕ
caller_id w (putting_back _ i) = w i
caller_id w _ = 0

abbrev pub is_dropped : Caller → ℕ
is_dropped (dropped _) = 1
is_dropped _ = 0

module _ (w : ℕ → ℕ) (p : Pool) where
  rotate_front-kept :
      (t : ℕ) (r : Option (ℕ × List ℕ))
      → pop_front p.priority ≡ r
      → weigh w (rotate_front t r p).1.priority + caller_id w (rotate_front t r p).0
        ≡ weigh w p.priority
  rotate_front-kept t none e = omega arith
  rotate_front-kept t (some (i, rest)) e = omega (arith, pop_front-weigh w p.priority i rest e)

  caller_in-kept :
      (ph : Caller)
      → weigh w (caller_in ph p).1.priority + caller_id w (caller_in ph p).0
        ≡ weigh w p.priority + caller_id w ph
  unfolding caller_in
  caller_in-kept (rotating t) = omega (arith, rotate_front-kept t (pop_front p.priority) refl)
  caller_in-kept (putting_back t i) =
      unfold push_back in
      omega (arith, weigh-append w p.priority (i ∷ []), weigh-cons w i [], weigh-nil w)
  caller_in-kept (flying t i) = ground arith
  caller_in-kept (dropped t) = refl
  caller_in-kept (counting t i) = refl
  caller_in-kept (clearing t i) = refl
  caller_in-kept (pushing t i) = refl
  caller_in-kept (releasing i) = refl
  caller_in-kept finished = refl

pub weigh-one-length : (xs : List ℕ) → weigh one xs ≡ length xs
unfolding weigh
weigh-one-length [] = refl
weigh-one-length (x ∷ xs) = omega (arith, weigh-one-length xs)

module _ (calls n : ℕ) (ids : List ℕ) (tasks : ℕ → ℕ) where
  -- In every reachable state the identifiers in the priority queue and those that calls of
  -- `EnqueueTask` have taken from its front and not yet put back are the identifiers at the start,
  -- each as often: any weight of them adds up the same.
  pub Reach-kept_ids :
      (s : System)
      → Reach calls (start n ids tasks) s
      → (w : ℕ → ℕ) → weigh w s.pool.priority + total (caller_id w) calls s.callers ≡ weigh w ids
  Reach-kept_ids _ here w =
      omega (arith, total_zero (caller_id w) calls (λ c. rotating (tasks c)) (λ _ _. refl))
  Reach-kept_ids _ (next {t = s} r (works i lt)) w =
      rw (worker_in-Keeps s.pool i (s.stops i) (s.workers i) lt).1 (Reach-kept_ids s r w)
  Reach-kept_ids _ (next {t = s} r (closes returned)) w =
      let (_, callers, pool, _) = close_in-unchanged s.closer s in
      rw (pool, callers) (Reach-kept_ids s r w)
  Reach-kept_ids _ (next {t = s} r (calls_on c lt)) w = omega (
    arith,
    Reach-kept_ids s r w,
    caller_in-kept w s.pool (s.callers c),
    total-update (caller_id w) calls s.callers c (caller_in (s.callers c) s.pool).0 lt,
  )

-- A call that has not asked for an identifier yet.
abbrev pub asks : Caller → ℕ
asks (rotating _) = 1
asks _ = 0

asks-caller_id : (ph : Caller) → asks ph + caller_id one ph ≤ 1
asks-caller_id (rotating _) = omega arith
asks-caller_id _ = omega arith

rotate_front-is_dropped :
    (t : ℕ) (p : Pool) (r : Option (ℕ × List ℕ))
    → pop_front p.priority ≡ r
    → 1 ≤ weigh one p.priority
    → is_dropped (rotate_front t r p).0 ≡ 0
unfolding pop_front weigh
rotate_front-is_dropped t p (some (i, rest)) e h = refl
rotate_front-is_dropped t p none e h = absurd (go p.priority e h)
  where
    go : (xs : List ℕ) → ◌≡◌ {A = Option (ℕ × List ℕ)} (pop_front xs) none → 1 ≤ weigh one xs → ⊥
    go [] e h = omega arith
    go (x ∷ xs) e h = cc

pub caller_in-is_dropped :
    (ph : Caller) (p : Pool)
    → is_dropped ph ≡ 0
    → asks ph ≤ weigh one p.priority
    → is_dropped (caller_in ph p).0 ≡ 0
unfolding caller_in
caller_in-is_dropped (rotating t) p h k = rotate_front-is_dropped t p (pop_front p.priority) refl k
caller_in-is_dropped (flying t i) p h k = ground arith
caller_in-is_dropped (putting_back t i) p h k = refl
caller_in-is_dropped (dropped t) p h k = h
caller_in-is_dropped (counting t i) p h k = refl
caller_in-is_dropped (clearing t i) p h k = refl
caller_in-is_dropped (pushing t i) p h k = refl
caller_in-is_dropped (releasing i) p h k = refl
caller_in-is_dropped finished p h k = refl

module _ (calls n : ℕ) (ids : List ℕ) (tasks : ℕ → ℕ) (enough : calls ≤ length ids) where
  -- While a call asks, not all identifiers can be with other calls.
  left_over :
      (s : System)
      → Reach calls (start n ids tasks) s
      → (c : ℕ) → c < calls
      → asks (s.callers c) ≤ weigh one s.pool.priority
  left_over s r c lt = omega (
    arith,
    Reach-kept_ids calls n ids tasks s r one,
    total-update (caller_id one) calls s.callers c (putting_back 0 0) lt,
    total_le (caller_id one) (λ ph. omega (arith, asks-caller_id ph)) calls
        (update s.callers c (putting_back 0 0)),
    asks-caller_id (s.callers c),
    weigh-one-length ids,
  )

  -- With at least as many identifiers in the priority queue as there are calls of `EnqueueTask`, no
  -- call ever finds that queue empty, in whatever order the steps are taken: no task is dropped.
  pub Reach-none_dropped :
      (s : System)
      → Reach calls (start n ids tasks) s
      → (c : ℕ) → c < calls
      → is_dropped (s.callers c) ≡ 0
  Reach-none_dropped _ here c lt = refl
  Reach-none_dropped _ (next {t = s} r (works i _)) c lt = Reach-none_dropped s r c lt
  Reach-none_dropped _ (next {t = s} r (closes returned)) c lt =
      rw (close_in-unchanged s.closer s).1 (Reach-none_dropped s r c lt)
  Reach-none_dropped _ (next {t = s} r (calls_on d dlt)) c lt = elim (Bool-cases (d == c)) [
    | inl e ↦ rw e (
        caller_in-is_dropped (s.callers d) s.pool (Reach-none_dropped s r d dlt)
          (left_over s r d dlt))
    | inr e ↦ rw e (Reach-none_dropped s r c lt)
  ]

rotate_front-asks :
    (t : ℕ) (p : Pool) (xs : List ℕ)
    → p.priority ≡ xs
    → (is_dropped (rotate_front t (pop_front p.priority) p).0 ≡ 1) ↔ (weigh one p.priority ≡ 0)
unfolding pop_front weigh
rotate_front-asks t p [] e = rw e (λ _. refl, λ _. refl)
rotate_front-asks t p (x ∷ xs) e =
    rw e (λ h. absurd (omega (arith, h)), λ h. absurd (omega (arith, h)))

module _ (calls n : ℕ) (ids : List ℕ) (tasks : ℕ → ℕ) where
  -- In every reachable state, a call of `EnqueueTask` that is about to take an identifier finds the
  -- priority queue empty, and so drops its task, exactly if other calls have taken as many
  -- identifiers as there are and not yet put them back.
  pub Reach-dropped :
      (s : System)
      → Reach calls (start n ids tasks) s
      → (c t : ℕ) → s.callers c ≡ rotating t
      → (is_dropped ((call c s).callers c) ≡ 1)
        ↔ (total (caller_id one) calls s.callers ≡ length ids)
  unfolding caller_in
  Reach-dropped s r c t e =
      let (asked, free) = rotate_front-asks t s.pool s.pool.priority refl in
      let kept = Reach-kept_ids calls n ids tasks s r one in
      let all = weigh-one-length ids in
      rw (e, (==_iff c c).1 refl)
        (λ h. omega (arith, asked h, kept, all), λ h. free (omega (arith, h, kept, all)))
