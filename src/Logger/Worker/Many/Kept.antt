-- ===== src/Logger/Worker/Many/Kept.antt =====
-- Where each message is, with any number of loops.
use ss_logger_cpp.Prelude.{
  ℕ, zero, suc, ◌+◌, ◌<◌, ◌≤◌, ◌≡◌, refl, arith, List, [], ◌∷◌, ◌++◌, Bool-cases, inl, inr, ◌==◌,
  ==_iff, ap, ◌∙◌,
}
use ss_logger_cpp.Pool.Family.{total, total-update}
use ss_logger_cpp.Queue.Contents.{push_back, pop_front}
use ss_logger_cpp.Logger.Message.{LogMessage}
use ss_logger_cpp.Logger.State.{reset}
use ss_logger_cpp.Logger.Worker.{
  Phase, popping, checking, exited, to_console, to_file, to_syslog, System, worker_in, next_message,
}
use ss_logger_cpp.Logger.Worker.Order.{held, on_console, on_file}
use ss_logger_cpp.Logger.Worker.Many.{
  Loops, seen_by, loop_on, Move, loops, logs, resets, sets_up, Reach, here, next, unstarted,
  setup-threads,
}

-- One more loop that has nothing in hand.
total-grown :
    (v : Phase → ℕ) (phases : ℕ → Phase) (m n : ℕ)
    → m ≡ n + 1
    → v (phases n) ≡ 0
    → total v m phases ≡ total v n phases
unfolding total
total-grown v phases zero n e z = absurd (omega arith)
total-grown v phases (suc m) n e z = let same : m ≡ n = omega arith in rw same (omega (arith, z))

module _ (w : LogMessage → ℕ) where
  -- The weight of some messages.
  unfoldable pub amount : List LogMessage → ℕ
  amount [] = 0
  amount (m ∷ ms) = w m + amount ms

  amount-append : (xs ys : List LogMessage) → amount (xs ++ ys) ≡ amount xs + amount ys
  unfolding amount
  amount-append [] ys = omega arith
  amount-append (x ∷ xs) ys = omega (arith, amount-append xs ys)

  pub amount-last :
      (xs : List LogMessage) (m : LogMessage) → amount (xs ++ m ∷ []) ≡ amount xs + w m
  unfolding amount
  amount-last xs m = omega (arith, amount-append xs (m ∷ []))

  -- Each message logged is in the queue, with one loop or written; each of the outputs lacks just
  -- the messages that a loop has not yet brought to it.
  pub record IsKept (s : Loops) : Type 0 where
    pub kept :
        amount s.logged
        ≡ amount s.syslog
          + total (λ ph. amount (held ph)) s.logger.queue_threads s.phases
          + amount s.logger.queue
    pub console_kept :
        amount s.console
        ≡ amount s.syslog + total (λ ph. amount (on_console ph)) s.logger.queue_threads s.phases
    pub file_kept :
        amount s.file
        ≡ amount s.syslog + total (λ ph. amount (on_file ph)) s.logger.queue_threads s.phases
    pub unstarted_pop : (i : ℕ) → s.logger.queue_threads ≤ i → s.phases i ≡ popping

  -- One step of a loop.
  abbrev Moved : Phase → System → System → Type 0
  Moved ph s t =
      (amount t.syslog + amount (held t.phase) + amount t.logger.queue
        ≡ amount s.syslog + amount (held ph) + amount s.logger.queue)
      × (amount t.console + amount (on_console ph) + amount s.syslog
          ≡ amount s.console + amount (on_console t.phase) + amount t.syslog)
      × (amount t.file + amount (on_file ph) + amount s.syslog
          ≡ amount s.file + amount (on_file t.phase) + amount t.syslog)
      × (t.logged ≡ s.logged)
      × (t.logger.queue_threads ≡ s.logger.queue_threads)

  next_message-Moved :
      (s : System) (q : List LogMessage)
      → s.logger.queue ≡ q
      → Moved popping s (next_message (pop_front q) s)
  unfolding pop_front amount
  next_message-Moved s [] e = (omega arith, omega arith, omega arith, refl, refl)
  next_message-Moved s (m ∷ rest) e =
      (omega (arith, ap amount e), omega arith, omega arith, refl, refl)

  worker_in-Moved : (ph : Phase) (s : System) → s.phase ≡ ph → Moved ph s (worker_in ph s)
  unfolding worker_in amount
  worker_in-Moved popping s e = next_message-Moved s s.logger.queue refl
  worker_in-Moved (to_console m) s e =
      (omega arith, omega (arith, amount-last s.console m), omega arith, refl, refl)
  worker_in-Moved (to_file m) s e =
      (omega arith, omega arith, omega (arith, amount-last s.file m), refl, refl)
  worker_in-Moved (to_syslog m) s e = (
    omega (arith, amount-last s.syslog m),
    omega (arith, amount-last s.syslog m),
    omega (arith, amount-last s.syslog m),
    refl,
    refl,
  )
  worker_in-Moved checking s e = elim (Bool-cases s.logger.is_running) [
    | inl h ↦ rw h (omega arith, omega arith, omega arith, refl, refl)
    | inr h ↦ rw h (omega arith, omega arith, omega arith, refl, refl)
  ]
  worker_in-Moved exited s e = rw e (omega arith, omega arith, omega arith, refl, refl)

  loop_on-IsKept :
      (i : ℕ) (s : Loops) → i < s.logger.queue_threads → IsKept s → IsKept (loop_on i s)
  loop_on-IsKept i s lt h =
      let t = worker_in (s.phases i) (seen_by i s) in
      let (all, console, file, logged, threads) = worker_in-Moved (s.phases i) (seen_by i s) refl in
      let n = s.logger.queue_threads in
      record {
        kept =
            rw (logged, threads)
              (omega (
                arith,
                h.kept,
                all,
                total-update (λ ph. amount (held ph)) n s.phases i t.phase lt,
              ));
        console_kept = rw threads (
            omega (
              arith,
              h.console_kept,
              console,
              total-update (λ ph. amount (on_console ph)) n s.phases i t.phase lt,
            ));
        file_kept = rw threads (
            omega (
              arith,
              h.file_kept,
              file,
              total-update (λ ph. amount (on_file ph)) n s.phases i t.phase lt,
            ));
        unstarted_pop = λ j le. elim (Bool-cases (i == j)) [
          | inl e ↦ absurd (omega (arith, (==_iff i j).0 e, threads))
          | inr e ↦ rw e (h.unstarted_pop j (omega (arith, threads)))
        ];
      }

  Move-IsKept : {s t : Loops} → Move s t → IsKept s → IsKept t
  unfolding reset push_back amount
  Move-IsKept {s} (loops i lt) h = loop_on-IsKept i s lt h
  Move-IsKept {s} (logs m) h = record {
    kept = omega (arith, h.kept, amount-last s.logged m, amount-last s.logger.queue m);
    console_kept = h.console_kept;
    file_kept = h.file_kept;
    unstarted_pop = h.unstarted_pop;
  }
  Move-IsKept {s} resets h = record {
    kept = h.kept;
    console_kept = h.console_kept;
    file_kept = h.file_kept;
    unstarted_pop = h.unstarted_pop;
  }
  Move-IsKept {s} (sets_up config after e) h =
      let (threads, queue) = setup-threads config s.logger after e in
      let last = h.unstarted_pop s.logger.queue_threads (omega arith) in
      let grown : (v : Phase → ℕ)
          → v popping ≡ 0
          → total v after.queue_threads s.phases ≡ total v s.logger.queue_threads s.phases =
        λ v z.
          total-grown v s.phases after.queue_threads s.logger.queue_threads threads
            (ap v last ∙ z) in
      record {
        kept = omega (arith, h.kept, grown (λ ph. amount (held ph)) refl, ap amount queue);
        console_kept = omega (arith, h.console_kept, grown (λ ph. amount (on_console ph)) refl);
        file_kept = omega (arith, h.file_kept, grown (λ ph. amount (on_file ph)) refl);
        unstarted_pop = λ j le. h.unstarted_pop j (omega (arith, threads));
      }

  -- Any number of calls of `Setup`, `Log` and `Reset`, and the loops of `ProcessQueue` that the
  -- calls of `Setup` start, in any order of their steps: each message logged is in the queue, with
  -- one loop, or written to the system log, just once, and console and file have the messages of
  -- the system log and those that a loop has brought to them but not yet to it: any weight of
  -- messages adds up the same.
  pub Reach-IsKept : {s : Loops} → Reach unstarted s → IsKept s
  unfolding amount total
  Reach-IsKept here = record {
    kept = refl;
    console_kept = refl;
    file_kept = refl;
    unstarted_pop = λ _ _. refl;
  }
  Reach-IsKept (next r m) = Move-IsKept m (Reach-IsKept r)
