-- ===== src/Logger/Worker/Order.antt =====
-- The order of the messages on the way through `ProcessQueue`.
use ss_logger_cpp.Prelude.{
  false, List, [], ◌∷◌, ◌++◌, ◌≡◌, refl, ◌∙◌, arith, append-nil, append_assoc,
}
use ss_logger_cpp.Logger.Message.{LogMessage}
use ss_logger_cpp.Logger.State.{Logger}
use ss_logger_cpp.Logger.Worker.{
  Phase, popping, checking, exited, to_console, to_file, to_syslog, System, worker_in, log_message,
  reset_logger, Step, works, logs, resets, Reach, here, next, started,
}

-- The message that the loop holds, and where it has been written already.
abbrev pub held : Phase → List LogMessage
held (to_console m) = m ∷ []
held (to_file m) = m ∷ []
held (to_syslog m) = m ∷ []
held _ = []

abbrev pub on_console : Phase → List LogMessage
on_console (to_file m) = m ∷ []
on_console (to_syslog m) = m ∷ []
on_console _ = []

abbrev pub on_file : Phase → List LogMessage
on_file (to_syslog m) = m ∷ []
on_file _ = []

-- `Reset` has been called before the loop ends.
abbrev pub EndsAfterReset : Phase → Logger → Type 0
EndsAfterReset exited lg = lg.is_running ≡ false
EndsAfterReset _ lg = Unit

pub record IsOrdered (s : System) : Type 0 where
  pub all_kept : s.logged ≡ s.syslog ++ (held s.phase ++ s.logger.queue)
  pub console_kept : s.console ≡ s.syslog ++ on_console s.phase
  pub file_kept : s.file ≡ s.syslog ++ on_file s.phase
  pub ends_after_reset : EndsAfterReset s.phase s.logger

worker_in-IsOrdered :
    (p : Phase) (s : System) → s.phase ≡ p → IsOrdered s → IsOrdered (worker_in p s)
unfolding worker_in
worker_in-IsOrdered popping s e h = ground (arith, append-nil s.syslog)
worker_in-IsOrdered (to_console m) s e h = ground (arith, append-nil s.syslog)
worker_in-IsOrdered (to_file m) s e h = ground (arith, append-nil s.syslog)
worker_in-IsOrdered (to_syslog m) s e h =
    ground (arith, append-nil (s.syslog ++ m ∷ []), append_assoc s.syslog (m ∷ []) s.logger.queue)
worker_in-IsOrdered checking s e h = ground arith
worker_in-IsOrdered exited s e h = h

Step-IsOrdered : {s t : System} → Step s t → IsOrdered s → IsOrdered t
unfolding log_message reset_logger
Step-IsOrdered {s} works h = worker_in-IsOrdered s.phase s refl h
Step-IsOrdered {s} (logs m) h = ground (
  arith,
  append_assoc s.syslog (held s.phase ++ s.logger.queue) (m ∷ []),
  append_assoc (held s.phase) s.logger.queue (m ∷ []),
)
Step-IsOrdered {s} resets h = ground arith

-- In every state that the loop of `ProcessQueue` and the threads that call `Log` and `Reset` reach,
-- the messages logged so far are those written to the system log, then the one that the loop holds,
-- then those in the queue, in this order; console and file have the same messages but for the one
-- in between; the loop has ended only if `is_running` is false.
pub Reach-IsOrdered : {lg : Logger} {s : System} → Reach (started lg) s → IsOrdered s
Reach-IsOrdered here = record {
  all_kept = refl;
  console_kept = refl;
  file_kept = refl;
  ends_after_reset = tt;
}
Reach-IsOrdered (next r st) = Step-IsOrdered st (Reach-IsOrdered r)

Step-exited :
    {s t : System}
    → Step s t
    → s.phase ≡ exited
    → (t.phase ≡ exited) × (t.console ≡ s.console) × (t.file ≡ s.file) × (t.syslog ≡ s.syslog)
unfolding worker_in log_message reset_logger
Step-exited works e = rw e (refl, refl, refl, refl)
Step-exited (logs m) e = (e, refl, refl, refl)
Step-exited resets e = (e, refl, refl, refl)

-- Once the loop of `ProcessQueue` has ended, no call of `Log` or `Reset` and no step makes it write
-- again: what is logged stays in the queue.
pub Reach-exited :
    {s t : System}
    → Reach s t
    → s.phase ≡ exited
    → (t.phase ≡ exited) × (t.console ≡ s.console) × (t.file ≡ s.file) × (t.syslog ≡ s.syslog)
Reach-exited here e = (e, refl, refl, refl)
Reach-exited (next r st) e =
    let (p, c, f, y) = Reach-exited r e in
    let (p', c', f', y') = Step-exited st p in (p', c' ∙ c, f' ∙ f, y' ∙ y)
