-- ===== src/Pool/Producer/Served.antt =====
-- What a thread that makes its calls one after the other gets.
use ss_logger_cpp.Prelude.{
  ℕ, zero, suc, ◌+◌, ◌-◌, ◌<◌, ◌≤◌, ◌≡◌, refl, ◌∙◌, arith, Bool, not, ◌&&◌, Bool-cases, inl, inr,
  List, length, ◌==◌, ==_iff, Option, some, none, ltb, if◌then◌else◌, subst,
}
use ss_logger_cpp.Queue.Contents.{pop_front}
use ss_logger_cpp.Pool.Family.{total, total_zero, total-zero}
use ss_logger_cpp.Pool.Init.{size, construct}
use ss_logger_cpp.Pool.State.{
  Pool, Caller, rotating, dropped, putting_back, counting, flying, clearing, pushing, releasing,
  finished, rotate_front, caller_in,
}
use ss_logger_cpp.Pool.System.{
  System, entering, call, close_in-unchanged, unreturned, works, calls_on, closes, Reach, here,
  next,
}
use ss_logger_cpp.Pool.Identifiers.{is_dropped}
use ss_logger_cpp.Pool.Tasks.{Outcome, returned}
use ss_logger_cpp.Pool.Progress.Turns.{IsEnded}
use ss_logger_cpp.Pool.Futures.{outcome}
use ss_logger_cpp.Pool.Futures.Delivered.{Reach-delivers}
use ss_logger_cpp.Pool.Lifetime.{
  constructed, constructed-start, construct-Within, construct-length, construct-size,
}
use ss_logger_cpp.Pool.Producer.{
  InTurn, begins, threads, enqueues, destructs, InTurn-Reach, InTurn-then, InTurn-none_dropped,
  caller_in-returned, call-unreturned,
}

-- The steps that a call has in front of it.
abbrev left : Caller → ℕ
left (rotating _) = 7
left (putting_back _ _) = 6
left (counting _ _) = 5
left (flying _ _) = 4
left (clearing _ _) = 3
left (pushing _ _) = 2
left (releasing _) = 1
left _ = 0

caller_in-left : (ph : Caller) (p : Pool) → left (caller_in ph p).0 ≤ left ph - 1
unfolding caller_in
caller_in-left (rotating t) p = go (pop_front p.priority)
  where
    go : (r : Option (ℕ × List ℕ)) → left (rotate_front t r p).0 ≤ 6
    go none = omega arith
    go (some (i, rest)) = omega arith
caller_in-left (flying t i) p = ground arith
caller_in-left (dropped t) p = omega arith
caller_in-left finished p = omega arith
caller_in-left (putting_back t i) p = omega arith
caller_in-left (counting t i) p = omega arith
caller_in-left (clearing t i) p = omega arith
caller_in-left (pushing t i) p = omega arith
caller_in-left (releasing i) p = omega arith

left-unreturned : (ph : Caller) → left ph ≡ 0 → unreturned ph ≡ 0
left-unreturned (dropped t) h = refl
left-unreturned finished h = refl
left-unreturned (rotating t) h = absurd (omega arith)
left-unreturned (putting_back t i) h = absurd (omega arith)
left-unreturned (counting t i) h = absurd (omega arith)
left-unreturned (flying t i) h = absurd (omega arith)
left-unreturned (clearing t i) h = absurd (omega arith)
left-unreturned (pushing t i) h = absurd (omega arith)
left-unreturned (releasing i) h = absurd (omega arith)

module _ (calls : ℕ) where
  -- The calls below `d` have returned.
  abbrev Returns : ℕ → System → System → Type 0
  Returns d s t = InTurn calls s t × (total unreturned d t.callers ≡ 0) × (t.closer ≡ s.closer)

  come_back :
      (k c : ℕ) (s : System)
      → c < calls
      → left (s.callers c) ≤ k
      → total unreturned c s.callers ≡ 0
      → (t : System) × Returns (suc c) s t
  unfolding total
  come_back zero c s lt few prior =
      (s, (begins, omega (arith, few, prior, left-unreturned (s.callers c)), refl))
  come_back (suc k) c s lt few prior =
      let (t, (r, over, closer)) =
        come_back k c (call c s) lt
          (rw ((==_iff c c).1 refl) (omega (arith, few, caller_in-left (s.callers c) s.pool)))
          (total_zero unreturned c (call c s).callers (λ j below.
            omega
              (arith, call-unreturned c j s, total-zero unreturned c s.callers prior j below))) in
      (t, (InTurn-then (enqueues begins c lt prior) r, over, closer))

  come_back_all :
      (k d : ℕ) (s : System)
      → d + k ≡ calls
      → total unreturned d s.callers ≡ 0
      → (t : System) × Returns calls s t
  come_back_all zero d s e prior =
      (s, (begins, subst (λ n. total unreturned n s.callers ≡ 0) (omega (arith, e)) prior, refl))
  come_back_all (suc k) d s e prior =
      let (t, (r, over, closer)) =
        come_back (left (s.callers d)) d s (omega (arith, e)) (omega arith) prior in
      let (u, (q, all, closer')) = come_back_all k (suc d) t (omega (arith, e)) over in
      (u, (InTurn-then r q, all, closer' ∙ closer))

  -- When all calls have returned, every order of steps is one in turn.
  Reach-home :
      {s t : System}
      → Reach calls s t
      → total unreturned calls s.callers ≡ 0
      → InTurn calls s t × ((c : ℕ) → c < calls → t.callers c ≡ s.callers c)
  Reach-home here over = (begins, λ c lt. refl)
  Reach-home (next r (works i lt)) over =
      let (q, same) = Reach-home r over in (threads q i lt, same)
  Reach-home (next {t} r (closes finish)) over =
      let (q, same) = Reach-home r over in
      (destructs q finish, rw (close_in-unchanged t.closer t).1 same)
  Reach-home {s} (next {t} r (calls_on c lt)) over =
      let (q, same) = Reach-home r over in
      let home : (j : ℕ) → j < calls → unreturned (t.callers j) ≡ 0 =
        λ j below. rw (same j below) (total-zero unreturned calls s.callers over j below) in
      (
        enqueues q c lt
            (total_zero unreturned c t.callers (λ j below. home j (omega (arith, below, lt)))),
        λ j below. elim (Bool-cases (c == j)) [
          | inl e ↦
              let one : c ≡ j = (==_iff c j).0 e in
              rw (e, caller_in-returned (t.callers c) t.pool (home c lt), one) (same j below)
          | inr e ↦ rw e (same j below)
        ],
      )

module _ {E A : Type 0} (satisfied : E) (funcs : ℕ → Outcome E A) (detaches : ℕ → Bool) (calls : ℕ)
    (inits : ℕ → Outcome E (Unit {0})) (outcomes : List Bool) where
  -- For a pool as the constructor leaves it, with at least one thread that runs, whichever could
  -- not be started and however the call of `init` ends in the others, and any number of calls of
  -- `Enqueue` and `EnqueueDetach` that are made one after the other, each with a task of its own,
  -- beside the threads in any order of their steps: in every state that these reach before the
  -- destructor begins, no call has found the priority queue empty, and from it steps of the same
  -- kind lead to a state in which the destructor is behind its last line and every thread has left
  -- its loop, no exception has left a task, and the future of each call of `Enqueue` has the value
  -- that its function returned or the exception that it threw; no other promise has a result.
  pub InTurn-served :
      0 < size (construct outcomes)
      → (s : System) → InTurn calls (constructed inits outcomes) s
      → s.closer ≡ entering
      → ((c : ℕ) → is_dropped (s.callers c) ≡ 0)
        × ((t : System) × InTurn calls s t
            × IsEnded (size (construct outcomes)) t
            × ((outcome satisfied funcs detaches calls
                  (construct outcomes).tasks
                  (construct outcomes).priority
                  t).0
                ≡ returned tt)
            × ((c : ℕ)
                → (outcome satisfied funcs detaches calls
                      (construct outcomes).tasks
                      (construct outcomes).priority
                      t).1
                    c
                  ≡ (if ltb c calls && not (detaches c) then some (funcs c) else none)))
  InTurn-served some_threads s reached e =
      let r = subst (λ u. InTurn calls u s) (constructed-start inits outcomes) reached in
      let n = (construct outcomes).tasks in
      let ids = (construct outcomes).priority in
      let (u, (home, over, same_closer)) =
        come_back_all calls calls 0 s (omega arith)
          (total_zero unreturned 0 s.callers (λ c lt. absurd (omega (arith, lt)))) in
      let before = InTurn-then r home in
      let room : 0 < length ids = omega (arith, construct-length outcomes, some_threads) in
      let (t, steps, ended, done, futures) =
        Reach-delivers satisfied funcs detaches calls n ids (construct-Within outcomes) u
          (InTurn-Reach before) (same_closer ∙ e) in
      let (after, same) = Reach-home calls steps over in
      let kept : (c : ℕ) → c < calls → is_dropped (t.callers c) ≡ 0 =
        λ c lt. rw (same c lt) (InTurn-none_dropped calls n ids (λ c. c) room u before c) in
      (
        InTurn-none_dropped calls n ids (λ c. c) room s r,
        (
          t,
          InTurn-then home after,
          subst (λ m. IsEnded m t) (construct-size outcomes) ended,
          done,
          λ c. futures c ∙ elim (Bool-cases (ltb c calls)) [
            | inl h ↦ rw (h, kept c (ground (arith, h))) refl
            | inr h ↦ rw h refl
          ],
        ),
      )
