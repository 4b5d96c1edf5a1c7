-- ===== src/Example.antt =====
-- src/main.cpp: the example program, with its five threads and the loop of `ProcessQueue` beside it.
pub mod Reached
pub mod Early
use ss_logger_cpp.Prelude.{
  ℕ, zero, suc, ◌+◌, ◌<◌, ◌≡◌, Bool, true, false, Bytes, codes, List, [], ◌∷◌, ◌++◌, Option, none,
  some, ltb, ◌==◌, if◌then◌else◌,
}
use ss_logger_cpp.Pool.Family.{update}
use ss_logger_cpp.Config.Defs.{default_config}
use ss_logger_cpp.Logger.Message.{LogMessage, debug, err, warning}
use ss_logger_cpp.Logger.State.{Logger, setup, log_debug, log_error, log_warning}
use ss_logger_cpp.Logger.Worker.Many.{Loops, loop_on, unstarted}

-- Where `main` stands: at `Setup`, at a round of one of its two loops, or behind its last line.
pub data Place : Type 0 where
  setting_up returned : Place
  starting joining : ℕ → Place

-- `lines` says how many of its lines each thread has run.
pub record Program : Type 0 where
  pub loops : Loops
  pub lines : ℕ → ℕ
  pub place : Place

-- The threads that have been started.
abbrev pub started : Place → ℕ
started setting_up = 0
started (starting k) = k
started _ = 5

abbrev pub has_returned : Place → Bool
has_returned returned = true
has_returned _ = false

-- A step of `main`.
unfoldable pub main_in : Place → Program → Program
main_in setting_up p = elim (setup default_config.logging p.loops.logger) [
  | none ↦ p
  | some after ↦ record p { loops = record (p.loops) { logger = after }; place = starting 0 }
]
main_in (starting k) p = record p { place = if ltb k 5 then starting (k + 1) else joining 0 }
main_in (joining k) p = record p {
  place = if ltb k 5 then if p.lines k == 3 then joining (k + 1) else joining k else returned;
}
main_in returned p = p

-- The lines of a thread. `location` is the name of the function in the default argument.
module _ (location : Bytes) where
  abbrev pub line_log : ℕ → Logger → Logger
  line_log zero = log_debug (codes "Thread debug log") location
  line_log (suc zero) = log_error (codes "Thread error log") location
  line_log (suc (suc k)) = log_warning (codes "Thread warning log") location

  abbrev pub line_message : ℕ → LogMessage
  line_message zero = record {
    message = codes "Thread debug log";
    log_level = debug;
    function_name = location;
  }
  line_message (suc zero) = record {
    message = codes "Thread error log";
    log_level = err;
    function_name = location;
  }
  line_message (suc (suc k)) = record {
    message = codes "Thread warning log";
    log_level = warning;
    function_name = location;
  }

  -- A line of the thread `i`, with the message noted.
  abbrev pub speak : ℕ → Program → Program
  speak i p = record p {
    loops = record (p.loops) {
      logger = line_log (p.lines i) p.loops.logger;
      logged = p.loops.logged ++ line_message (p.lines i) ∷ [];
    };
    lines = update p.lines i (p.lines i + 1);
  }

  -- When `main` returns, the process ends, and with it the detached loop.
  pub data Step (p : Program) : Program → Type 0 where
    goes : Step p (main_in p.place p)
    speaks : (i : ℕ) → i < started p.place → p.lines i < 3 → Step p (speak i p)
    writes :
        (i : ℕ)
        → i < p.loops.logger.queue_threads
        → has_returned p.place ≡ false
        → Step p (record p { loops = loop_on i p.loops })

  pub data Reach (p : Program) : Program → Type 0 where
    here : Reach p p
    next : {q r : Program} → Reach p q → Step q r → Reach p r

abbrev pub begun : Program
begun = record { loops = unstarted; lines = λ _. 0; place = setting_up }
