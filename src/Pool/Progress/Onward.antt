-- ===== src/Pool/Progress/Onward.antt =====
-- What a thread that cannot move waits for, and which thread or call can move.
use ss_logger_cpp.Prelude.{
  ℕ, zero, suc, ◌<◌, ◌≡◌, ◌⊎◌, inl, inr, refl, ap, sym, ◌∙◌, arith, Bool, true, false, List, [],
  ◌∷◌, Option, none, some, ltb, ◌==◌, if◌then◌else◌, Bool-cases,
}
use native.Mathlib.Decide.{dec_lt}
use ss_logger_cpp.Queue.Contents.{pop_front, pop_back}
use ss_logger_cpp.Pool.State.{
  Pool, Worker, acquiring, draining, testing, signalling, storing, looping, exited, stealing, taken,
  invoking, invoked, acquire, drain, steal, Caller, rotating, dropped, putting_back, counting,
  flying, clearing, pushing, releasing, finished, has_exited, worker_in,
}
use ss_logger_cpp.Pool.System.{
  System, Closer, entering, awaiting, closed, requesting, waking, joining, unreturned, close_in,
  works, calls_on, closes, Reach, here, next, start,
}
use ss_logger_cpp.Pool.Counters.Weights.{caller_flight, caller_unassigned}
use ss_logger_cpp.Pool.Progress.Attended.{signals_to}
use ss_logger_cpp.Pool.Progress.Busy.{moves}

pub find_below :
    (test : ℕ → Bool) (n : ℕ)
    → ((i : ℕ) × (i < n) × (test i ≡ true)) ⊎ ((i : ℕ) → i < n → test i ≡ false)
find_below test zero = inr (λ i lt. absurd (omega arith))
find_below test (suc n) = elim (Bool-cases (test n)) [
  | inl e ↦ inl (n, omega arith, e)
  | inr e ↦ elim (find_below test n) [
    | inl (i, lt, f) ↦ inl (i, omega arith, f)
    | inr h ↦ inr (λ i lt. elim (dec_lt i n) [
      | yes below ↦ h i below
      | no last ↦ let same : i ≡ n = omega arith in rw same e
    ])
  ]
]

pub Reach-then : {calls : ℕ} {s t u : System} → Reach calls s t → Reach calls t u → Reach calls s u
Reach-then r here = r
Reach-then r (next q m) = next (Reach-then r q) m

-- A thread that is not asked to stop does not leave its loop.
worker_in-present :
    (i : ℕ) (ph : Worker) (p : Pool)
    → has_exited ph ≡ false
    → has_exited (worker_in i false ph p).0 ≡ false
unfolding worker_in
worker_in-present i acquiring p h = go (p.signals i)
  where
    go : (k : ℕ) → has_exited (acquire i k p).0 ≡ false
    go zero = refl
    go (suc k) = refl
worker_in-present i draining p h = go (pop_front (p.queues i))
  where
    go : (r : Option (ℕ × List ℕ)) → has_exited (drain i r p).0 ≡ false
    go none = refl
    go (some (t, rest)) = refl
worker_in-present i (stealing j) p h = go (ltb j p.size) _ (pop_back _)
  where
    go :
        (b : Bool) (index : ℕ) (r : Option (ℕ × List ℕ))
        → has_exited (if b then steal j index r p else (testing, p)).0 ≡ false
    go true index none = refl
    go true index (some (t, rest)) = refl
    go false index r = refl
worker_in-present i (taken t b) p h = refl
worker_in-present i (invoking t b) p h = refl
worker_in-present i (invoked true) p h = refl
worker_in-present i (invoked false) p h = refl
worker_in-present i testing p h = ground arith
worker_in-present i signalling p h = ground arith
worker_in-present i storing p h = refl
worker_in-present i looping p h = refl
worker_in-present i exited p h = absurd (cc h)

abbrev has_entered : Closer → Bool
has_entered entering = true
has_entered _ = false

close_in-entered :
    (ph : Closer) (s : System) → s.closer ≡ ph → has_entered (close_in ph s).closer ≡ false
unfolding close_in
close_in-entered entering s e = ground arith
close_in-entered awaiting s e = ground arith
close_in-entered (requesting i) s e = ground arith
close_in-entered (waking i) s e = refl
close_in-entered (joining i) s e = ground arith
close_in-entered closed s e = rw e refl

module _ (calls n : ℕ) (ids : List ℕ) (tasks : ℕ → ℕ) where
  -- Before the first step of the destructor no thread is asked to stop.
  pub Reach-entering :
      (s : System)
      → Reach calls (start n ids tasks) s
      → s.closer ≡ entering
      → (i : ℕ) → (s.stops i ≡ false) × (has_exited (s.workers i) ≡ false)
  Reach-entering _ here e i = (refl, refl)
  Reach-entering _ (next {t = s} r (works j lt)) e i =
      let (running, present) = Reach-entering s r e i in
      let (running_j, present_j) = Reach-entering s r e j in
      (
        running,
        elim (Bool-cases (j == i)) [
          | inl f ↦ rw (f, running_j) (worker_in-present j (s.workers j) s.pool present_j)
          | inr f ↦ rw f present
        ],
      )
  Reach-entering _ (next {t = s} r (calls_on c lt)) e i = Reach-entering s r e i
  Reach-entering _ (next {t = s} r (closes returned)) e i =
      absurd (cc (sym (ap has_entered e) ∙ close_in-entered s.closer s refl))

pub at_rest :
    (m i : ℕ) (p : Pool) (ph : Worker)
    → moves m i p ph ≡ false
    → has_exited ph ≡ false
    → ((ph ≡ acquiring) × (p.signals i ≡ 0)) ⊎ ((ph ≡ testing) × (0 < p.unassigned))
at_rest m i p acquiring h e = inl (refl, ground arith)
at_rest m i p testing h e = inr (refl, ground arith)
at_rest m i p exited h e = cc
at_rest m i p draining h e = cc
at_rest m i p (stealing j) h e = cc
at_rest m i p (taken t b) h e = cc
at_rest m i p (invoking t b) h e = cc
at_rest m i p (invoked b) h e = cc
at_rest m i p signalling h e = cc
at_rest m i p storing h e = cc
at_rest m i p looping h e = cc

-- A thread at the test of the inner loop with a task in its queue.
abbrev pub ready : Worker → List ℕ → Bool
ready testing (t ∷ ts) = true
ready _ _ = false

pub ready-cases :
    (ph : Worker) (ts : List ℕ)
    → ready ph ts ≡ true
    → (ph ≡ testing) × ((t : ℕ) × (rest : List ℕ) × (ts ≡ t ∷ rest))
ready-cases testing (t ∷ ts) h = (refl, (t, ts, refl))
ready-cases testing [] h = cc
ready-cases acquiring ts h = cc
ready-cases exited ts h = cc
ready-cases draining ts h = cc
ready-cases (stealing j) ts h = cc
ready-cases (taken t b) ts h = cc
ready-cases (invoking t b) ts h = cc
ready-cases (invoked b) ts h = cc
ready-cases signalling ts h = cc
ready-cases storing ts h = cc
ready-cases looping ts h = cc

pub idle_queue : (ts : List ℕ) → ready testing ts ≡ false → ts ≡ []
idle_queue [] h = refl
idle_queue (t ∷ ts) h = cc

-- A call that has returned holds no task that is counted and signals nobody.
pub returned_call :
    (k : ℕ) (c : Caller)
    → unreturned c ≡ 0
    → (caller_flight c ≡ 0) × (caller_unassigned c ≡ 0) × (signals_to k c ≡ 0)
returned_call k (dropped t) h = (refl, refl, refl)
returned_call k finished h = (refl, refl, refl)
returned_call k (rotating t) h = absurd (omega arith)
returned_call k (putting_back t i) h = absurd (omega arith)
returned_call k (counting t i) h = absurd (omega arith)
returned_call k (flying t i) h = absurd (omega arith)
returned_call k (clearing t i) h = absurd (omega arith)
returned_call k (pushing t i) h = absurd (omega arith)
returned_call k (releasing i) h = absurd (omega arith)
