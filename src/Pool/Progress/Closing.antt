-- ===== src/Pool/Progress/Closing.antt =====
-- The destructor beside the threads: who has been asked to stop, woken and joined.
pub mod Joined
use ss_logger_cpp.Prelude.{
  ℕ, zero, suc, ◌+◌, ◌%◌, ◌<◌, ◌≤◌, ◌≡◌, ◌≢◌, refl, arith, Bool, true, false, Bool-cases, inl, inr,
  List, [], ◌∷◌, Option, none, some, ◌==◌, ==_iff, ltb, leb, if◌then◌else◌, length, ap, sym, ◌∙◌,
  subst,
}
use ss_logger_cpp.Queue.Contents.{pop_front, pop_back}
use ss_logger_cpp.Pool.Family.{update}
use ss_logger_cpp.Pool.State.{
  Pool, Worker, acquiring, draining, testing, signalling, storing, looping, exited, stealing, taken,
  invoking, invoked, acquire, drain, steal, Caller, rotating, dropped, putting_back, counting,
  flying, clearing, pushing, releasing, finished, rotate_front, worker_in, caller_in,
  caller_in-size, has_exited,
}
use ss_logger_cpp.Pool.System.{
  System, Closer, entering, awaiting, closed, requesting, waking, joining, work, call, close_in,
  close_in-unchanged, works, calls_on, closes, Reach, here, next, start,
}
use ss_logger_cpp.Pool.Counters.Caller.{Within}
use ss_logger_cpp.Pool.Progress.Attended.{worker_in-signals}
use ss_logger_cpp.Pool.Progress.Signalled.{flag, flag_le}
use ss_logger_cpp.Pool.Progress.Stuck.{Reach-size}

-- Whether the thread `i` has been asked to stop, is joined now, or has been joined.
abbrev pub asked : ℕ → Closer → ℕ
asked i entering = 0
asked i awaiting = 0
asked i (requesting j) = if ltb i j then 1 else 0
asked i (waking j) = if leb i j then 1 else 0
asked i (joining j) = if leb i j then 1 else 0
asked i closed = 1

abbrev pub joins : ℕ → Closer → ℕ
joins i (joining j) = if j == i then 1 else 0
joins i _ = 0

abbrev pub joined : ℕ → Closer → ℕ
joined i entering = 0
joined i awaiting = 0
joined i (requesting j) = if ltb i j then 1 else 0
joined i (waking j) = if ltb i j then 1 else 0
joined i (joining j) = if ltb i j then 1 else 0
joined i closed = 1

abbrev pub gone : Worker → ℕ
gone exited = 1
gone _ = 0

abbrev pub away : Worker → ℕ
away acquiring = 0
away _ = 1

abbrev pub IsInRange : ℕ → Closer → Type 0
IsInRange n (waking j) = j < n
IsInRange n (joining j) = j < n
IsInRange n _ = Unit

-- For the thread `i`.
pub record IsClosing (i : ℕ) (s : System) : Type 0 where
  pub requested : flag (s.stops i) ≡ asked i s.closer
  pub left : gone (s.workers i) ≤ flag (s.stops i)
  pub past : joined i s.closer ≤ gone (s.workers i)
  pub awake : joins i s.closer ≤ s.pool.signals i + away (s.workers i)

gone_le : (ph : Worker) → gone ph ≤ 1
gone_le exited = omega arith
gone_le _ = omega arith

joins-le-asked : (i : ℕ) (ph : Closer) → joins i ph ≤ asked i ph
joins-le-asked i (joining j) = ground arith
joins-le-asked i _ = omega arith

-- The thread's own step.
module _ (i : ℕ) (stop : Bool) (p : Pool) where
  abbrev Leaves : Worker → Worker × Pool → Type 0
  Leaves ph r =
      (gone ph ≤ gone r.0)
      × (gone r.0 ≤ gone ph + flag stop)
      × ((x : ℕ) → x ≤ flag stop → x ≤ p.signals i + away ph → x ≤ r.1.signals i + away r.0)

  acquire-Leaves : (k : ℕ) → Leaves acquiring (acquire i k p)
  acquire-Leaves zero = (omega arith, omega arith, λ x h k. k)
  acquire-Leaves (suc m) = (omega arith, omega arith, λ x h k. omega (arith, flag_le stop))

  drain-Leaves : (r : Option (ℕ × List ℕ)) → Leaves draining (drain i r p)
  drain-Leaves none = (omega arith, omega arith, λ x h k. omega arith)
  drain-Leaves (some (t, rest)) = (omega arith, omega arith, λ x h k. omega arith)

  steal-Leaves : (j index : ℕ) (r : Option (ℕ × List ℕ)) → Leaves (stealing j) (steal j index r p)
  steal-Leaves j index none = (omega arith, omega arith, λ x h k. omega arith)
  steal-Leaves j index (some (t, rest)) = (omega arith, omega arith, λ x h k. omega arith)

  worker_in-Leaves : (ph : Worker) → Leaves ph (worker_in i stop ph p)
  unfolding worker_in
  worker_in-Leaves acquiring = acquire-Leaves (p.signals i)
  worker_in-Leaves draining = drain-Leaves (pop_front (p.queues i))
  worker_in-Leaves (stealing j) = elim (Bool-cases (ltb j p.size)) [
    | inl e ↦ rw e (steal-Leaves j ((i + j) % p.size) (pop_back (p.queues ((i + j) % p.size))))
    | inr e ↦ rw e (omega arith, omega arith, λ x h k. omega arith)
  ]
  worker_in-Leaves (taken t b) = (omega arith, omega arith, λ x h k. omega arith)
  worker_in-Leaves (invoking t b) = (omega arith, omega arith, λ x h k. omega arith)
  worker_in-Leaves (invoked true) = (omega arith, omega arith, λ x h k. omega arith)
  worker_in-Leaves (invoked false) = (omega arith, omega arith, λ x h k. omega arith)
  worker_in-Leaves testing = (omega arith, ground arith, λ x h k. ground arith)
  worker_in-Leaves signalling = (omega arith, ground arith, λ x h k. ground arith)
  worker_in-Leaves storing = (omega arith, omega arith, λ x h k. omega arith)
  worker_in-Leaves looping = (omega arith, ground arith, λ x h k. ground arith)
  worker_in-Leaves exited = (omega arith, omega arith, λ x h k. omega arith)

-- A call gives signals, and takes none.
caller_in-signals-le : (ph : Caller) (p : Pool) (k : ℕ) → p.signals k ≤ (caller_in ph p).1.signals k
unfolding caller_in
caller_in-signals-le (rotating t) p k = go (pop_front p.priority)
  where
    go : (r : Option (ℕ × List ℕ)) → p.signals k ≤ (rotate_front t r p).1.signals k
    go none = omega arith
    go (some (i, rest)) = omega arith
caller_in-signals-le (releasing i) p k = ground (arith, ==_iff i k)
caller_in-signals-le (flying t i) p k = omega arith
caller_in-signals-le _ p k = omega arith

module _ {i : ℕ} {s : System} (h : IsClosing i s) where
  own-IsClosing : IsClosing i (work i s)
  own-IsClosing =
      let r = worker_in i (s.stops i) (s.workers i) s.pool in
      let (kept, grown, waits) = worker_in-Leaves i (s.stops i) s.pool (s.workers i) in
      let same : (i == i) ≡ true = (==_iff i i).1 refl in
      record {
        requested = h.requested;
        left = rw same (omega (arith, h.left, grown, gone_le r.0));
        past = rw same (omega (arith, h.past, kept));
        awake = rw same (
            waits (joins i s.closer) (omega (arith, joins-le-asked i s.closer, h.requested))
              h.awake);
      }

  pub work-IsClosing : (j : ℕ) → IsClosing i (work j s)
  work-IsClosing j = elim (Bool-cases (j == i)) [
    | inl e ↦ subst (λ k. IsClosing i (work k s)) (sym ((==_iff j i).0 e)) own-IsClosing
    | inr e ↦ record {
      requested = h.requested;
      left = rw e h.left;
      past = rw e h.past;
      awake = rw (e, worker_in-signals s.pool j (s.stops j) (s.workers j) i e) h.awake;
    }
  ]

  pub call-IsClosing : (c : ℕ) → IsClosing i (call c s)
  call-IsClosing c = record {
    requested = h.requested;
    left = h.left;
    past = h.past;
    awake = omega (arith, h.awake, caller_in-signals-le (s.callers c) s.pool i);
  }

  pub close-IsClosing :
      (ph : Closer) → s.closer ≡ ph → i < s.pool.size → IsClosing i (close_in ph s)
  unfolding close_in
  close-IsClosing entering e lt =
      ground (
        arith,
        h.requested,
        h.left,
        h.past,
        h.awake,
        ap (asked i) e,
        ap (joined i) e,
        ap (joins i) e,
      )
  close-IsClosing awaiting e lt =
      ground (
        arith,
        h.requested,
        h.left,
        h.past,
        h.awake,
        ap (asked i) e,
        ap (joined i) e,
        ap (joins i) e,
      )
  close-IsClosing (requesting j) e lt =
      ground (
        arith,
        h.requested,
        h.left,
        h.past,
        h.awake,
        ap (asked i) e,
        ap (joined i) e,
        ap (joins i) e,
      )
  close-IsClosing (waking j) e lt =
      ground (
        arith,
        h.requested,
        h.left,
        h.past,
        h.awake,
        ap (asked i) e,
        ap (joined i) e,
        ap (joins i) e,
      )
  close-IsClosing (joining j) e lt =
      ground (
        arith,
        h.requested,
        h.left,
        h.past,
        h.awake,
        ap (asked i) e,
        ap (joined i) e,
        ap (joins i) e,
      )
  close-IsClosing closed e lt = h
