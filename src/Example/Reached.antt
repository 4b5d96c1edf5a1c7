-- ===== src/Example/Reached.antt =====
-- What the threads of the example have logged.
use ss_logger_cpp.Prelude.{
  ℕ, zero, suc, ◌+◌, ◌*◌, ◌<◌, ◌≤◌, ◌≡◌, refl, arith, Bool-cases, inl, inr, Bytes, List, [], ◌∷◌,
  ◌++◌, Option, none, some, ltb, ◌==◌, ==_iff, ap, ◌∙◌, sym, subst,
}
use ss_logger_cpp.Pool.Family.{total, total-update}
use ss_logger_cpp.Config.Defs.{default_config}
use ss_logger_cpp.Logger.Message.{LogMessage}
use ss_logger_cpp.Logger.State.{Logger, setup, log, log_debug, log_error, log_warning}
use ss_logger_cpp.Queue.Contents.{pop_front}
use ss_logger_cpp.Logger.Worker.{
  Phase, popping, checking, exited, to_console, to_file, to_syslog, System, worker_in, next_message,
}
use ss_logger_cpp.Logger.Worker.Many
use ss_logger_cpp.Logger.Worker.Many.{Loops, seen_by, loop_on, log_on, unstarted}
use ss_logger_cpp.Logger.Worker.Many.Kept.{amount, amount-last, IsKept, Reach-IsKept}
use ss_logger_cpp.Example.{
  Place, setting_up, starting, joining, returned, Program, started, main_in, line_log, line_message,
  speak, goes, speaks, writes, Reach, here, next, begun,
}

module _ (location : Bytes) where
  speak-log_on :
      (k : ℕ) (s : Loops)
      → record s {
        logger = line_log location k s.logger;
        logged = s.logged ++ line_message location k ∷ [];
      }
        ≡ log_on (line_message location k) s
  unfolding log log_debug log_error log_warning
  speak-log_on zero s = refl
  speak-log_on (suc zero) s = refl
  speak-log_on (suc (suc k)) s = refl

  -- The logger's part of a run.
  main_in-Reach :
      (place : Place) (p : Program)
      → Many.Reach unstarted p.loops
      → Many.Reach unstarted (main_in place p).loops
  unfolding main_in
  main_in-Reach setting_up p r = go (setup default_config.logging p.loops.logger) refl
    where
      go :
          (o : Option Logger)
          → setup default_config.logging p.loops.logger ≡ o
          → Many.Reach unstarted
              (elim o as (λ _. Program) [
                | none ↦ p
                | some after ↦ record p {
                  loops = record (p.loops) { logger = after };
                  place = starting 0;
                }
              ]).loops
      go none e = r
      go (some after) e = Many.next r (Many.sets_up default_config.logging after e)
  main_in-Reach (starting k) p r = r
  main_in-Reach (joining k) p r = r
  main_in-Reach returned p r = r

  pub Reach-loops : (p : Program) → Reach location begun p → Many.Reach unstarted p.loops
  Reach-loops _ here = Many.here
  Reach-loops _ (next {q = p} r goes) = main_in-Reach p.place p (Reach-loops p r)
  Reach-loops _ (next {q = p} r (speaks i lt more)) =
      subst (Many.Reach unstarted) (sym (speak-log_on (p.lines i) p.loops))
        (Many.next (Reach-loops p r) (Many.logs (line_message location (p.lines i))))
  Reach-loops _ (next {q = p} r (writes i lt e)) = Many.next (Reach-loops p r) (Many.loops i lt)

-- The loop logs nothing.
next_message-logged :
    (s : System) (q : List LogMessage) → (next_message (pop_front q) s).logged ≡ s.logged
unfolding pop_front
next_message-logged s [] = refl
next_message-logged s (m ∷ q) = refl

worker_in-logged : (ph : Phase) (s : System) → (worker_in ph s).logged ≡ s.logged
unfolding worker_in
worker_in-logged popping s = next_message-logged s s.logger.queue
worker_in-logged (to_console m) s = refl
worker_in-logged (to_file m) s = refl
worker_in-logged (to_syslog m) s = refl
worker_in-logged checking s = refl
worker_in-logged exited s = refl

-- The threads that `main` has joined.
abbrev joined : Place → ℕ
joined (joining k) = k
joined returned = 5
joined _ = 0

module _ (location : Bytes) (w : LogMessage → ℕ) where
  -- The messages of a thread's first lines.
  pub spoken : ℕ → List LogMessage
  spoken zero = []
  spoken (suc k) = spoken k ++ line_message location k ∷ []

  record IsHeard (p : Program) : Type 0 where
    heard : amount w p.loops.logged ≡ total (λ k. amount w (spoken k)) 5 p.lines
    bounded : started p.place ≤ 5
    joined_bound : joined p.place ≤ 5
    joined_done : (i : ℕ) → i < joined p.place → p.lines i ≡ 3

  speak-IsHeard :
      (i : ℕ) (p : Program)
      → i < started p.place
      → p.lines i < 3
      → IsHeard p
      → IsHeard (speak location i p)
  unfolding spoken
  speak-IsHeard i p lt more h = record {
    heard = omega (
      arith,
      h.heard,
      amount-last w p.loops.logged (line_message location (p.lines i)),
      amount-last w (spoken (p.lines i)) (line_message location (p.lines i)),
      ap (λ k. amount w (spoken k)) one_more,
      total-update (λ k. amount w (spoken k)) 5 p.lines i (p.lines i + 1)
          (omega (arith, h.bounded)),
    );
    bounded = h.bounded;
    joined_bound = h.joined_bound;
    joined_done = λ j jlt. elim (Bool-cases (i == j)) [
      | inl e ↦ absurd (omega (arith, h.joined_done j jlt, ap p.lines ((==_iff i j).0 e)))
      | inr e ↦ rw e (h.joined_done j jlt)
    ];
  }
    where
      one_more : p.lines i + 1 ≡ suc (p.lines i)
      one_more = omega arith

  main_in-IsHeard :
      (place : Place) (p : Program) → p.place ≡ place → IsHeard p → IsHeard (main_in place p)
  unfolding main_in
  main_in-IsHeard setting_up p e h = go (setup default_config.logging p.loops.logger)
    where
      go :
          (o : Option Logger)
          → IsHeard (elim o as (λ _. Program) [
            | none ↦ p
            | some after ↦ record p {
              loops = record (p.loops) { logger = after };
              place = starting 0;
            }
          ])
      go none = h
      go (some after) = record {
        heard = h.heard;
        bounded = omega arith;
        joined_bound = omega arith;
        joined_done = λ i lt. absurd (omega arith);
      }
  main_in-IsHeard (starting k) p e h = elim (Bool-cases (ltb k 5)) [
    | inl more ↦ rw more (record {
      heard = h.heard;
      bounded = ground (arith, more);
      joined_bound = omega arith;
      joined_done = λ i lt. absurd (omega arith);
    })
    | inr done ↦ rw done (record {
      heard = h.heard;
      bounded = omega arith;
      joined_bound = omega arith;
      joined_done = λ i lt. absurd (omega arith);
    })
  ]
  main_in-IsHeard (joining k) p e h = elim (Bool-cases (ltb k 5)) [
    | inl more ↦ elim (Bool-cases (p.lines k == 3)) [
      | inl over ↦
          rw (more, over)
            (record {
              heard = h.heard;
              bounded = omega arith;
              joined_bound = ground (arith, more);
              joined_done = λ i lt. elim (Bool-cases (i == k)) [
                | inl same ↦ ap p.lines ((==_iff i k).0 same) ∙ (==_iff (p.lines k) 3).0 over
                | inr other ↦ h.joined_done i (ground (arith, ap joined e, other, lt))
              ];
            })
      | inr runs ↦
          rw (more, runs)
            (record {
              heard = h.heard;
              bounded = omega arith;
              joined_bound = omega (arith, h.joined_bound, ap joined e);
              joined_done = λ i lt. h.joined_done i (omega (arith, ap joined e));
            })
    ]
    | inr done ↦ rw done (record {
      heard = h.heard;
      bounded = omega arith;
      joined_bound = omega arith;
      joined_done = λ i lt. h.joined_done i (ground (arith, ap joined e, done, lt));
    })
  ]
  main_in-IsHeard returned p e h = h

  Reach-IsHeard : (p : Program) → Reach location begun p → IsHeard p
  unfolding total spoken amount
  Reach-IsHeard _ here = record {
    heard = refl;
    bounded = omega arith;
    joined_bound = omega arith;
    joined_done = λ i lt. absurd (omega arith);
  }
  Reach-IsHeard _ (next {q = p} r goes) = main_in-IsHeard p.place p refl (Reach-IsHeard p r)
  Reach-IsHeard _ (next {q = p} r (speaks i lt more)) =
      speak-IsHeard i p lt more (Reach-IsHeard p r)
  Reach-IsHeard _ (next {q = p} r (writes i lt e)) =
      let h = Reach-IsHeard p r in
      record {
        heard = rw (worker_in-logged (p.loops.phases i) (seen_by i p.loops)) h.heard;
        bounded = h.bounded;
        joined_bound = h.joined_bound;
        joined_done = h.joined_done;
      }

  -- In every state that `main`, its five threads and the loop of `ProcessQueue` reach: if `main`
  -- has returned, each thread has logged its three messages, any weight of messages adds up to five
  -- times that of these three over all that was logged, and each message logged is in the queue,
  -- with the loop, or written, just once.
  pub Reach-spoken :
      (p : Program)
      → Reach location begun p
      → p.place ≡ returned
      → (amount w p.loops.logged
          ≡ 5
            * (w (line_message location 0)
                + w (line_message location 1)
                + w (line_message location 2)))
        × IsKept w p.loops
  unfolding total spoken amount
  Reach-spoken p r e =
      let h = Reach-IsHeard p r in
      let all : (i : ℕ) → i < 5 → amount w (spoken (p.lines i)) ≡ amount w (spoken 3) =
        λ i lt. ap (λ k. amount w (spoken k)) (h.joined_done i (omega (arith, ap joined e))) in
      (
        omega (
          arith,
          h.heard,
          all 0 (omega arith),
          all 1 (omega arith),
          all 2 (omega arith),
          all 3 (omega arith),
          all 4 (omega arith),
        ),
        Reach-IsKept w (Reach-loops location p r),
      )
