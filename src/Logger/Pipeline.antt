-- ===== src/Logger/Pipeline.antt =====
-- From a configuration file to the text on the three outputs.
pub mod Written
use ss_logger_cpp.Prelude.{
  ℕ, ℤ, pos, ◌+◌, ◌<◌, ◌≡◌, refl, sym, ◌∙◌, ap, arith, Bool, true, false, Bytes, codes, List, [],
  ◌∷◌, ◌++◌, append-nil, Option, none, some, if◌then◌else◌, ◌==◌, zero, suc, Bool-cases, inl, inr,
}
use mathlib.Core.Option.{some_inj}
use ss_logger_cpp.Json.Result.{Result, ok, ok_inj}
use ss_logger_cpp.Config.Defs.{Logging, Config, read_config, Line}
use ss_logger_cpp.Config.Document.{Values, Layout, IsLayout, AreValues, config_of, document}
use ss_logger_cpp.Config.Document.Read.{read_config-document}
use ss_logger_cpp.Queue.Contents.{pop_front}
use ss_logger_cpp.Logger.Message.{LogMessage, LogLevel}
use ss_logger_cpp.Logger.State.{
  Logger, initial, setup, setup_with, to_bool, reset, severity_to_output,
}
use ss_logger_cpp.Logger.Output.{log_to_console, log_to_file, syslog, syslog_level, c_str}
use ss_logger_cpp.Logger.Texts.{
  shows, line_text, shown_lines, appended_lines, sent_entries, level_name, shown-shows,
  line_of-line_text, severity_to_output-level_name, syslog_level-priority, c_str-before_zero,
}
use ss_logger_cpp.Logger.Filter.{
  shown, line_of, emit_one, setup_with-sinks, setup_with-filter, setup_lem, new_sink,
}
use ss_logger_cpp.Logger.Worker.{
  System, popping, to_console, to_file, to_syslog, checking, exited, Phase, worker_in, next_message,
  log_message, reset_logger, works, logs, resets, Reach, here, next, started,
}
use ss_logger_cpp.Logger.Worker.Order.{Reach-IsOrdered}

-- The texts of the calls of the three functions for messages in turn; the `k`th call has the stamp
-- `stamp k`, and the file can be opened in it or not.
module _ (stamp : ℕ → Bytes) (opens : ℕ → Bool) (lg : Logger) where
  unfoldable pub console_lines : ℕ → List LogMessage → List Bytes
  unfolding log_to_console
  console_lines k [] = []
  console_lines k (m ∷ ms) = log_to_console (stamp k) lg m ++ console_lines (k + 1) ms

  unfoldable pub file_lines : ℕ → List LogMessage → List Bytes
  unfolding log_to_file
  file_lines k [] = []
  file_lines k (m ∷ ms) = log_to_file (opens k) (stamp k) lg m ++ file_lines (k + 1) ms

  unfoldable pub syslog_entries : List LogMessage → List (ℕ × Bytes)
  unfolding syslog
  syslog_entries [] = []
  syslog_entries (m ∷ ms) = syslog lg m ∷ syslog_entries ms

module _ (stamp : ℕ → Bytes) (opens : ℕ → Bool) (n : ℕ) (flush : Bool) (lg : Logger) (small : n < 4)
    (filter : lg.severity_filter ≡ n) (sinks : lg.sinks ≡ new_sink n flush ∷ []) where
  log_to_console-one :
      (k : ℕ) (m : LogMessage)
      → log_to_console (stamp k) lg m
        ≡ (if shows n m.log_level then line_text stamp opens n k m ∷ [] else [])
  unfolding log_to_console
  log_to_console-one k m =
      rw (sinks, filter)
        (emit_one n flush m.log_level (line_of (stamp k) n m) small
          ∙ rw (shown-shows n m.log_level small, line_of-line_text stamp opens n small k m) refl)

  console_lines-shown :
      (k : ℕ) (ms : List LogMessage)
      → console_lines stamp opens lg k ms ≡ shown_lines stamp opens n k ms
  unfolding console_lines
  console_lines-shown k [] = refl
  console_lines-shown k (m ∷ ms) =
      rw (log_to_console-one k m, console_lines-shown (k + 1) ms)
        (elim (Bool-cases (shows n m.log_level)) [ inl e ↦ rw e refl | inr e ↦ rw e refl ])

  file_lines-appended :
      (k : ℕ) (ms : List LogMessage)
      → file_lines stamp opens lg k ms ≡ appended_lines stamp opens n k ms
  unfolding file_lines log_to_file
  file_lines-appended k [] = refl
  file_lines-appended k (m ∷ ms) =
      let name = severity_to_output-level_name n small in
      rw (file_lines-appended (k + 1) ms)
        (elim (Bool-cases (opens k)) [ inl e ↦ rw (e, filter, name) refl | inr e ↦ rw e refl ])

  syslog_entries-sent :
      (ms : List LogMessage) → syslog_entries stamp opens lg ms ≡ sent_entries stamp opens n ms
  unfolding syslog_entries syslog
  syslog_entries-sent [] = refl
  syslog_entries-sent (m ∷ ms) =
      rw
        (
          syslog_entries-sent ms,
          filter,
          severity_to_output-level_name n small,
          syslog_level-priority m.log_level,
          c_str-before_zero m.message,
        )
        refl

-- Until `Reset` is called, the loop and the calls of `Log` change nothing of the logger but its queue.
record IsSame (lg : Logger) (s : System) : Type 0 where
  filter : s.logger.severity_filter ≡ lg.severity_filter
  sinks : s.logger.is_running ≡ true → s.logger.sinks ≡ lg.sinks

worker_in-IsSame :
    (lg : Logger) (ph : Phase) (s : System) → IsSame lg s → IsSame lg (worker_in ph s)
unfolding worker_in
worker_in-IsSame lg popping s h = go (pop_front s.logger.queue)
  where
    go : (r : Option (LogMessage × List LogMessage)) → IsSame lg (next_message r s)
    go none = record { filter = h.filter; sinks = h.sinks }
    go (some (m, rest)) = record { filter = h.filter; sinks = h.sinks }
worker_in-IsSame lg (to_console m) s h = record { filter = h.filter; sinks = h.sinks }
worker_in-IsSame lg (to_file m) s h = record { filter = h.filter; sinks = h.sinks }
worker_in-IsSame lg (to_syslog m) s h = record { filter = h.filter; sinks = h.sinks }
worker_in-IsSame lg checking s h = record { filter = h.filter; sinks = h.sinks }
worker_in-IsSame lg exited s h = h

Reach-IsSame : (lg : Logger) (s : System) → Reach (started lg) s → IsSame lg s
unfolding log_message reset_logger
Reach-IsSame lg _ here = record { filter = refl; sinks = λ h. refl }
Reach-IsSame lg _ (next {t = s} r works) = worker_in-IsSame lg s.phase s (Reach-IsSame lg s r)
Reach-IsSame lg _ (next {t = s} r (logs m)) =
    let h = Reach-IsSame lg s r in record { filter = h.filter; sinks = h.sinks }
Reach-IsSame lg _ (next {t = s} r resets) =
    let h = Reach-IsSame lg s r in record { filter = h.filter; sinks = λ e. absurd (cc e) }

module _ (config : Logging) (n : ℕ) (level : config.log_level ≡ pos n) (small : n < 4)
    (after : Logger) (ready : setup config initial ≡ some after) where
  after-fields :
      (after.severity_filter ≡ n) × (after.sinks ≡ new_sink n (to_bool config.flush) ∷ [])
  after-fields =
      let flush = to_bool config.flush in
      let same : setup_with n flush initial ≡ after =
        (some_inj {A = Logger}).0 (sym (setup_lem config n initial level small) ∙ ready) in
      rw (← same) (setup_with-filter n flush initial, setup_with-sinks n flush initial)

  -- The same for the settings as they are.
  setup-outputs :
      (s : System)
      → Reach (started after) s
      → s.phase ≡ popping
      → s.logger.queue ≡ []
      → s.logger.is_running ≡ true
      → (stamp : ℕ → Bytes) (opens : ℕ → Bool)
      → (console_lines stamp opens s.logger 0 s.console ≡ shown_lines stamp opens n 0 s.logged)
        × (file_lines stamp opens s.logger 0 s.file ≡ appended_lines stamp opens n 0 s.logged)
        × (syslog_entries stamp opens s.logger s.syslog ≡ sent_entries stamp opens n s.logged)
  setup-outputs s r p q running stamp opens =
      let same = Reach-IsSame after s r in
      let order = Reach-IsOrdered r in
      let filter = same.filter ∙ after-fields.0 in
      let sinks = same.sinks running ∙ after-fields.1 in
      let all : s.logged ≡ s.syslog = order.all_kept ∙ rw (p, q, append-nil) refl in
      let console : s.console ≡ s.syslog = order.console_kept ∙ rw (p, append-nil) refl in
      let file : s.file ≡ s.syslog = order.file_kept ∙ rw (p, append-nil) refl in
      let flush = to_bool config.flush in
      rw (all, console, file)
        (
          console_lines-shown stamp opens n flush s.logger small filter sinks 0 s.syslog,
          file_lines-appended stamp opens n flush s.logger small filter sinks 0 s.syslog,
          syslog_entries-sent stamp opens n flush s.logger small filter sinks s.syslog,
        )

-- For a configuration file with all settings, in the order of the class, as `Config` reads it, and
-- a level `n` from 0 to 3 in it, `Setup` with these settings, and any order of the steps of the
-- loop of `ProcessQueue` and of calls of `Log` and `Reset`: in a reachable state with the loop at
-- the pop, an empty queue and `is_running` true, the console has a line for each message logged
-- whose level is shown at `n`, in order, the file a line for each message logged in whose turn it
-- could be opened, and the system log an entry for each. The console line is the stamp, the name of
-- the level `n`, the function, and the message in red, blue for debug or cyan for trace; the line
-- of the file is the stamp, the name, the function, the message and a newline; the entry has the
-- priority LOG_INFO for trace, LOG_DEBUG for debug, LOG_ERR for error and else LOG_WARNING, and the
-- name, the function and the message up to its first byte 0. At 1 the console shows production,
-- warning and error, at 2 debug too, at 3 trace too, and at 0, which the header documents as no
-- logs, every message.
pub document-outputs :
    {D : Type 0} (stod : Bytes → Result D) (to_int : D → Option ℤ) (l : Layout) (v : Values D)
    (n : ℕ)
    → IsLayout l
    → AreValues stod to_int v
    → v.log_level.int ≡ pos n
    → n < 4
    → (config : Config) (lines : List Line)
    → read_config to_int stod (some (document l v)) ≡ ok (config, lines)
    → (after : Logger) → setup config.logging initial ≡ some after
    → (s : System) → Reach (started after) s
    → s.phase ≡ popping
    → s.logger.queue ≡ []
    → s.logger.is_running ≡ true
    → (stamp : ℕ → Bytes) (opens : ℕ → Bool)
    → (console_lines stamp opens s.logger 0 s.console ≡ shown_lines stamp opens n 0 s.logged)
      × (file_lines stamp opens s.logger 0 s.file ≡ appended_lines stamp opens n 0 s.logged)
      × (syslog_entries stamp opens s.logger s.syslog ≡ sent_entries stamp opens n s.logged)
document-outputs stod to_int l v n hl hv level small config lines read after ready s r p q running
      stamp opens =
    let same =
      ok_inj (config, lines) (config_of v, [])
        (sym read ∙ read_config-document l hl stod to_int v hv) in
    let level' : config.logging.log_level ≡ pos n =
      ap (λ (c : Config × List Line). c.0.logging.log_level) same ∙ level in
    setup-outputs config.logging n level' small after ready s r p q running stamp opens
