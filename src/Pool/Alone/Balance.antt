-- ===== src/Pool/Alone/Balance.antt =====
-- How the calls of `EnqueueTask` are spread over the threads.
use ss_logger_cpp.Prelude.{
  ℕ, zero, suc, ◌+◌, ◌-◌, ◌*◌, ◌<◌, ◌≤◌, ◌≡◌, refl, arith, Bool, true, Bool-cases, inl, inr, List,
  [], ◌∷◌, ◌++◌, length, ltb, ◌==◌, ==_iff, if◌then◌else◌, ap, ◌∙◌, sym, append-nil, append_assoc,
}
use ss_logger_cpp.Queue.Contents.{handed_out, rotate, handed_out_zero, handed_out-append}
use ss_logger_cpp.Pool.Init.{size, construct, construct-numbered, started, upto, length-upto}
use ss_logger_cpp.Pool.System.{System, Reach, here, start}
use ss_logger_cpp.Pool.Alone.Rounds.{rounds, rounds-Dealt, rounds-Reach, given}

upto-split : (r k m : ℕ) → m ≡ k + r → (rest : List ℕ) × (upto m ≡ upto r ++ rest)
unfolding upto
upto-split r zero m e =
    let same : m ≡ r = omega (arith, e) in ([], ap upto same ∙ sym (append-nil (upto r)))
upto-split r (suc k) zero e = absurd (omega (arith, e))
upto-split r (suc k) (suc m) e =
    let (rest, split) = upto-split r k m (omega (arith, e)) in
    (rest ++ m ∷ [], ap (λ xs. xs ++ m ∷ []) split ∙ append_assoc (upto r) rest (m ∷ []))

module _ (tasks : ℕ → ℕ) where
  -- The tasks of some calls from `first` on, `step` apart.
  pub spaced : ℕ → ℕ → ℕ → List ℕ
  spaced first step zero = []
  spaced first step (suc n) = tasks first ∷ spaced (first + step) step n

  length-spaced : (first step n : ℕ) → length (spaced first step n) ≡ n
  unfolding spaced
  length-spaced first step zero = refl
  length-spaced first step (suc n) = ap suc (length-spaced (first + step) step n)

  given-append :
      (k first next : ℕ) (xs ys : List ℕ)
      → next ≡ first + length xs
      → given tasks k (xs ++ ys) first ≡ given tasks k xs first ++ given tasks k ys next
  unfolding given
  given-append k first next [] ys e =
      let same : first ≡ next = omega (arith, e) in ap (given tasks k ys) same
  given-append k first next (x ∷ xs) ys e =
      let rest = given-append k (suc first) next xs ys (omega (arith, e)) in
      elim (Bool-cases (x == k)) [ inl h ↦ rw h (ap (◌∷◌ (tasks first)) rest) | inr h ↦ rw h rest ]

  given-upto :
      (k first n : ℕ)
      → given tasks k (upto n) first ≡ (if ltb k n then tasks (first + k) ∷ [] else [])
  unfolding given upto
  given-upto k first zero = ground arith
  given-upto k first (suc n) =
      given-append k first (first + n) (upto n) (n ∷ []) (omega (arith, length-upto n))
      ∙ ground (arith, given-upto k first n, ==_iff n k)

  module _ (m r k : ℕ) (below : k < m) (part : r ≤ m) where
    abbrev share : ℕ → ℕ
    share l = if ltb k r then suc l else l

    given-part :
        (n first : ℕ)
        → n ≡ r
        → given tasks k (handed_out n (upto m)) first ≡ spaced (first + k) m (share 0)
    unfolding spaced
    given-part n first e =
        let (rest, split) = upto-split r (m - r) m (omega arith) in
        ap (λ xs. given tasks k xs first)
          (ap (handed_out n) split
            ∙ handed_out-append n 0 (upto r) rest (omega (arith, length-upto r, e))
            ∙ ap (λ ys. upto r ++ ys) (handed_out_zero (rest ++ upto r))
            ∙ append-nil (upto r))
        ∙ given-upto k first r
        ∙ elim (Bool-cases (ltb k r)) [ inl h ↦ rw h refl | inr h ↦ rw h refl ]

    given-laps :
        (l n first : ℕ)
        → n ≡ l * m + r
        → given tasks k (handed_out n (upto m)) first ≡ spaced (first + k) m (share l)
    unfolding spaced
    given-laps zero n first e = given-part n first (omega (arith, e))
    given-laps (suc l) n first e =
        ap (λ xs. given tasks k xs first)
          (ap (handed_out n) (sym (append-nil (upto m)))
            ∙ handed_out-append n (l * m + r) (upto m) [] (omega (arith, length-upto m, e)))
        ∙ given-append k first (first + m) (upto m) (handed_out (l * m + r) (upto m))
            (omega (arith, length-upto m))
        ∙ rw (given-upto k first m, given-laps l (l * m + r) (first + m) refl)
            (let inside : ltb k m ≡ true = ground (arith, below) in
              let place : first + m + k ≡ first + k + m = omega arith in
              rw (inside, place)
                (elim (Bool-cases (ltb k r)) [ inl h ↦ rw h refl | inr h ↦ rw h refl ]))

length-handed_out : (n i : ℕ) (is : List ℕ) → length (handed_out n (i ∷ is)) ≡ n
unfolding handed_out rotate
length-handed_out zero i is = refl
length-handed_out (suc n) i [] = ap suc (length-handed_out n i [])
length-handed_out (suc n) i (j ∷ is) = ap suc (length-handed_out n j (is ++ i ∷ []))

length-handed_upto : (n m : ℕ) → 0 < m → length (handed_out n (upto m)) ≡ n
length-handed_upto n m some_ids = go (upto m) (omega (arith, length-upto m))
  where
    go : (xs : List ℕ) → 0 < length xs → length (handed_out n xs) ≡ n
    go [] h = absurd (omega (arith, h))
    go (x ∷ xs) h = length-handed_out n x xs

module _ (tasks : ℕ → ℕ) (outcomes : List Bool) (l r : ℕ) where
  -- `l` whole rounds over the threads and `r` further calls, on a pool as the constructor leaves it.
  abbrev pub in_turn : ℕ
  in_turn = l * size (construct outcomes) + r

  abbrev pub dealt : System
  dealt =
      rounds tasks 0 in_turn (start (construct outcomes).tasks (construct outcomes).priority tasks)

  -- On a pool as the constructor leaves it, with `m` threads, `l * m + r` calls of `EnqueueTask` in
  -- turn, with `r` at most `m`, before a thread takes a step, reach a state in which all tasks are
  -- in flight and each thread `k` has the tasks of the calls `k`, `k + m`, `k + 2 * m` and so on,
  -- in order, in its queue and one signal for each: `l + 1` of them if `k` is below `r` and `l`
  -- otherwise. So the shares of two threads differ by at most one, and a semaphore counts as many
  -- as there are rounds.
  pub rounds-balance :
      r ≤ size (construct outcomes)
      → (k : ℕ) → k < size (construct outcomes)
      → Reach in_turn (start (construct outcomes).tasks (construct outcomes).priority tasks) dealt
        × (dealt.pool.in_flight ≡ in_turn)
        × (dealt.pool.queues k
            ≡ spaced tasks k (size (construct outcomes)) (if ltb k r then suc l else l))
        × (dealt.pool.signals k ≡ (if ltb k r then suc l else l))
  rounds-balance part k below =
      let m = size (construct outcomes) in
      let s = start (construct outcomes).tasks (construct outcomes).priority tasks in
      let ids : (construct outcomes).priority ≡ upto m =
        rw (construct-numbered outcomes, length-upto (started outcomes)) refl in
      let zero_add : 0 + k ≡ k = omega arith in
      let (_, flying, _, _, each) = rounds-Dealt tasks 0 in_turn s (λ c h. refl) in
      let turn : given tasks k (handed_out in_turn (construct outcomes).priority) 0
          ≡ spaced tasks k m (if ltb k r then suc l else l) =
        ap (λ xs. given tasks k (handed_out in_turn xs) 0) ids
        ∙ given-laps tasks m r k below part l in_turn 0 refl
        ∙ ap (λ first. spaced tasks first m (if ltb k r then suc l else l)) zero_add in
      (
        rounds-Reach tasks in_turn 0 in_turn (omega arith) here,
        flying
            ∙ ap (λ xs. 0 + length (handed_out in_turn xs)) ids
            ∙ omega (arith, length-handed_upto in_turn m (omega arith)),
        (each k).0 ∙ turn,
        (each k).1
            ∙ ap (λ ts. 0 + length ts) turn
            ∙ omega (arith, length-spaced tasks k m (if ltb k r then suc l else l)),
      )
