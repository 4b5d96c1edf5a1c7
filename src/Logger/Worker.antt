-- ===== src/Logger/Worker.antt =====
-- `ProcessQueue`, the loop of the thread that `Setup` starts, beside the threads that log and the
-- one that calls `Reset`. One step is one access to shared state; the calls of the three output
-- functions are recorded in the order in which they are made.
pub mod Order
pub mod Many
pub mod Drain
use ss_logger_cpp.Prelude.{
  Bool, true, false, List, [], ◌∷◌, ◌++◌, Option, none, some, if◌then◌else◌, ◌≡◌, refl, ℕ, zero,
  suc,
}
use ss_logger_cpp.Logger.Message.{LogMessage}
use ss_logger_cpp.Logger.State.{Logger, reset}
use ss_logger_cpp.Queue.Contents.{push_back, pop_front}

-- Where the loop stands: at `queue.PopFront()`, in front of one of the three calls for a message, at
-- the test of `while`, or behind the loop.
pub data Phase : Type 0 where
  popping checking exited : Phase
  to_console to_file to_syslog : LogMessage → Phase

-- `logged` is the history of the messages that were put in the queue.
pub record System : Type 0 where
  pub logger : Logger
  pub phase : Phase
  pub console : List LogMessage
  pub file : List LogMessage
  pub syslog : List LogMessage
  pub logged : List LogMessage

abbrev pub next_message : Option (LogMessage × List LogMessage) → System → System
next_message none s = record s { phase = checking }
next_message (some (m, rest)) s = record s {
  logger = record (s.logger) { queue = rest };
  phase = to_console m;
}

-- The step of the loop in each phase.
unfoldable pub worker_in : Phase → System → System
unfolding pop_front
worker_in popping s = next_message (pop_front s.logger.queue) s
worker_in (to_console m) s = record s { console = s.console ++ m ∷ []; phase = to_file m }
worker_in (to_file m) s = record s { file = s.file ++ m ∷ []; phase = to_syslog m }
worker_in (to_syslog m) s = record s { syslog = s.syslog ++ m ∷ []; phase = popping }
worker_in checking s = record s { phase = if s.logger.is_running then popping else exited }
worker_in exited s = s

abbrev pub worker : System → System
worker s = worker_in s.phase s

-- `Log`, called by any thread: the message is put in the queue.
unfoldable pub log_message : LogMessage → System → System
unfolding push_back
log_message m s = record s {
  logger = record (s.logger) { queue = push_back s.logger.queue m };
  logged = s.logged ++ m ∷ [];
}

-- `Reset`, called by any thread.
unfoldable pub reset_logger : System → System
unfolding reset
reset_logger s = record s { logger = reset s.logger }

pub data Step (s : System) : System → Type 0 where
  works : Step s (worker s)
  logs : (m : LogMessage) → Step s (log_message m s)
  resets : Step s (reset_logger s)

pub data Reach (s : System) : System → Type 0 where
  here : Reach s s
  next : {t u : System} → Reach s t → Step t u → Reach s u

-- The thread as `Setup` starts it, on what stands in the queue.
abbrev pub started : Logger → System
started lg = record {
  logger = lg;
  phase = popping;
  console = [];
  file = [];
  syslog = [];
  logged = lg.queue;
}

pub worker_steps : ℕ → System → System
worker_steps zero s = s
worker_steps (suc n) s = worker_steps n (worker s)
