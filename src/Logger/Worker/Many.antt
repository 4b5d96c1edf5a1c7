-- ===== src/Logger/Worker/Many.antt =====
-- The loops of `ProcessQueue` after several calls of `Setup`: each call starts one more thread, and
-- all of them empty the same queue.
pub mod Kept
pub mod Reordered
use ss_logger_cpp.Prelude.{
  ℕ, zero, suc, ◌+◌, ◌<◌, ◌≤◌, ◌≡◌, refl, arith, List, [], ◌∷◌, ◌++◌, Option, none, some,
  Bool-cases, inl, inr, ◌==◌, ==_iff, ap, ◌∙◌,
}
use mathlib.Core.Option.{some_inj}
use ss_logger_cpp.Pool.Family.{update, total, total-update, total_zero}
use ss_logger_cpp.Queue.Contents.{push_back, pop_front}
use ss_logger_cpp.Config.Defs.{Logging}
use ss_logger_cpp.Logger.Message.{LogMessage, to_filter}
use ss_logger_cpp.Logger.State.{
  Logger, initial, setup, setup_with, set_sink, set_sink_formatter, set_attributes, set_sink_filter,
  to_bool, reset,
}
use ss_logger_cpp.Logger.Worker.{
  Phase, popping, checking, exited, to_console, to_file, to_syslog, System, worker_in, next_message,
}
use ss_logger_cpp.Logger.Worker.Order.{held, on_console, on_file}

-- `phases` has the places of the loops; those from `logger.queue_threads` on are not started yet.
pub record Loops : Type 0 where
  pub logger : Logger
  pub phases : ℕ → Phase
  pub console : List LogMessage
  pub file : List LogMessage
  pub syslog : List LogMessage
  pub logged : List LogMessage

-- What one loop sees.
abbrev pub seen_by : ℕ → Loops → System
seen_by i s = record {
  logger = s.logger;
  phase = s.phases i;
  console = s.console;
  file = s.file;
  syslog = s.syslog;
  logged = s.logged;
}

abbrev pub loop_on : ℕ → Loops → Loops
loop_on i s =
    let t = worker_in (s.phases i) (seen_by i s) in
    record {
      logger = t.logger;
      phases = update s.phases i t.phase;
      console = t.console;
      file = t.file;
      syslog = t.syslog;
      logged = t.logged;
    }

abbrev pub log_on : LogMessage → Loops → Loops
log_on m s = record s {
  logger = record (s.logger) { queue = push_back s.logger.queue m };
  logged = s.logged ++ m ∷ [];
}

pub data Move (s : Loops) : Loops → Type 0 where
  loops : (i : ℕ) → i < s.logger.queue_threads → Move s (loop_on i s)
  logs : (m : LogMessage) → Move s (log_on m s)
  resets : Move s (record s { logger = reset s.logger })
  sets_up :
      (config : Logging) (after : Logger)
      → setup config s.logger ≡ some after
      → Move s (record s { logger = after })

pub data Reach (s : Loops) : Loops → Type 0 where
  here : Reach s s
  next : {t u : Loops} → Reach s t → Move t u → Reach s u

abbrev pub unstarted : Loops
unstarted = record {
  logger = initial;
  phases = λ _. popping;
  console = [];
  file = [];
  syslog = [];
  logged = [];
}

-- `Setup` adds a thread and leaves the queue as it is.
pub setup-threads :
    (config : Logging) (lg after : Logger)
    → setup config lg ≡ some after
    → (after.queue_threads ≡ lg.queue_threads + 1) × (after.queue ≡ lg.queue)
unfolding setup setup_with set_sink set_sink_formatter set_attributes set_sink_filter
setup-threads config lg after e = go (to_filter config.log_level) e
  where
    go :
        (f : Option ℕ)
        → (elim f as (λ _. Option Logger) [
          | none ↦ none
          | some filter ↦ some (setup_with filter (to_bool config.flush) lg)
        ])
          ≡ some after
        → (after.queue_threads ≡ lg.queue_threads + 1) × (after.queue ≡ lg.queue)
    go none h = cc
    go (some filter) h = rw (← ((some_inj {A = Logger}).0 h)) (refl, refl)
