-- ===== src/Logger/Pipeline/Written.antt =====
-- The loop of `ProcessQueue` left alone, from any point, up to the outputs.
use ss_logger_cpp.Prelude.{ℕ, ℤ, pos, ◌<◌, ◌≡◌, ap, ◌∙◌, Bool, true, Bytes, List, [], Option, some}
use ss_logger_cpp.Json.Result.{Result, ok}
use ss_logger_cpp.Config.Defs.{Config, read_config, Line}
use ss_logger_cpp.Config.Document.{Values, Layout, IsLayout, AreValues, document}
use ss_logger_cpp.Logger.Message.{LogMessage}
use ss_logger_cpp.Logger.State.{Logger, initial, setup}
use ss_logger_cpp.Logger.Worker.{System, popping, Reach, started, worker_steps}
use ss_logger_cpp.Logger.Worker.Order.{Reach-IsOrdered}
use ss_logger_cpp.Logger.Worker.Drain.{worker_steps-IsKept, worker_steps-Reach, worker_steps-rest}
use ss_logger_cpp.Logger.Texts.{shown_lines, appended_lines, sent_entries}
use ss_logger_cpp.Logger.Pipeline.{console_lines, file_lines, syslog_entries, document-outputs}

-- The loop is at the pop on the empty queue, and the outputs have the texts of `ms`.
pub record IsWritten (stamp : ℕ → Bytes) (opens : ℕ → Bool) (n : ℕ) (ms : List LogMessage)
    (s : System) : Type 0 where
  pub at_pop : s.phase ≡ popping
  pub queue_empty : s.logger.queue ≡ []
  pub on_console : console_lines stamp opens s.logger 0 s.console ≡ shown_lines stamp opens n 0 ms
  pub in_file : file_lines stamp opens s.logger 0 s.file ≡ appended_lines stamp opens n 0 ms
  pub in_syslog : syslog_entries stamp opens s.logger s.syslog ≡ sent_entries stamp opens n ms

-- For a configuration file with all settings, in the order of the class, as `Config` reads it, and
-- a level `n` from 0 to 3 in it, `Setup` with these settings, and any order of the steps of the
-- loop of `ProcessQueue` and of calls of `Log` and `Reset`: from every reachable state in which
-- `is_running` is true, a number of steps of the loop alone leads to the pop on the empty queue,
-- and there the console has a line for each message logged whose level is shown at `n`, in order,
-- the file a line for each message logged in whose turn it could be opened, and the system log an
-- entry for each. The console line is the stamp, the name of the level `n`, the function, and the
-- message in red, blue for debug or cyan for trace; the line of the file is the stamp, the name,
-- the function, the message and a newline; the entry has the priority LOG_INFO for trace, LOG_DEBUG
-- for debug, LOG_ERR for error and else LOG_WARNING, and the name, the function and the message up
-- to its first byte 0. At 1 the console shows production, warning and error, at 2 debug too, at 3
-- trace too, and at 0, which the header documents as no logs, every message.
pub document-IsWritten :
    {D : Type 0} (stod : Bytes → Result D) (to_int : D → Option ℤ) (l : Layout) (v : Values D)
    (n : ℕ)
    → IsLayout l
    → AreValues stod to_int v
    → v.log_level.int ≡ pos n
    → n < 4
    → (config : Config) (lines : List Line)
    → read_config to_int stod (some (document l v)) ≡ ok (config, lines)
    → (after : Logger) → setup config.logging initial ≡ some after
    → (s : System) → Reach (started after) s
    → s.logger.is_running ≡ true
    → (stamp : ℕ → Bytes) (opens : ℕ → Bool)
    → (k : ℕ) × IsWritten stamp opens n s.logged (worker_steps k s)
document-IsWritten stod to_int l v n hl hv level small config lines read after ready s r running
      stamp opens =
    let (k, at_pop, queue_empty) = worker_steps-rest s running (Reach-IsOrdered r) in
    let t = worker_steps k s in
    let kept = worker_steps-IsKept k s in
    let (console, file, syslog) =
      document-outputs stod to_int l v n hl hv level small config lines read after ready t
        (worker_steps-Reach k s r) at_pop queue_empty (kept.running ∙ running) stamp opens in
    (
      k,
      record {
        at_pop = at_pop;
        queue_empty = queue_empty;
        on_console = console ∙ ap (shown_lines stamp opens n 0) kept.logged;
        in_file = file ∙ ap (appended_lines stamp opens n 0) kept.logged;
        in_syslog = syslog ∙ ap (sent_entries stamp opens n) kept.logged;
      },
    )
