-- ===== src/Tests/Pipeline.antt =====
-- A configuration file, `Setup`, and one message on its way to the outputs.
use ss_logger_cpp.Prelude.{ℕ, ◌≡◌, refl, arith, true, false, Bool, [], ◌∷◌, codes, Bytes, some}
use ss_logger_cpp.Config.Document.{config_of}
use ss_logger_cpp.Config.Document.Read.{read_config-document}
use ss_logger_cpp.Logger.Message.{LogMessage, debug, to_filter}
use ss_logger_cpp.Logger.State.{
  Logger, initial, setup, setup_with, set_sink_filter, set_attributes, set_sink, set_sink_formatter,
}
use ss_logger_cpp.Queue.Contents.{pop_front, push_back}
use ss_logger_cpp.Logger.Worker.{
  System, worker, worker_in, log_message, works, logs, Reach, here, next, started, worker_steps,
}
use ss_logger_cpp.Logger.Texts.{shown_lines, appended_lines, sent_entries}
use ss_logger_cpp.Logger.Pipeline.{console_lines, file_lines, syslog_entries, document-outputs}
use ss_logger_cpp.Logger.Pipeline.Written.{IsWritten, document-IsWritten}
use ss_logger_cpp.Tests.Decimal.{decimal}
use ss_logger_cpp.Tests.Settings.{values, layout, to_int, layout-IsLayout, values-AreValues}

abbrev after : Logger
after = setup_with 3 false initial

abbrev hello : LogMessage
hello = record { message = codes "hello"; log_level = debug; function_name = codes "main" }

abbrev written : System
written = worker (worker (worker (worker (log_message hello (started after)))))

written-Reach : Reach (started after) written
written-Reach = next (next (next (next (next here (logs hello)) works) works) works) works

abbrev stamp : ℕ → Bytes
stamp k = codes "7 "

abbrev opens : ℕ → Bool
opens k = true

ready : setup (config_of values).logging initial ≡ some after
unfolding setup to_filter setup_with set_sink_filter set_attributes set_sink set_sink_formatter
ready = refl

document-outputs_example :
    (console_lines stamp opens written.logger 0 written.console
      ≡ shown_lines stamp opens 3 0 written.logged)
    × (file_lines stamp opens written.logger 0 written.file
        ≡ appended_lines stamp opens 3 0 written.logged)
    × (syslog_entries stamp opens written.logger written.syslog
        ≡ sent_entries stamp opens 3 written.logged)
unfolding setup_with set_sink_filter set_attributes set_sink set_sink_formatter worker_in
    log_message pop_front push_back
document-outputs_example =
    document-outputs decimal to_int layout values 3 layout-IsLayout values-AreValues refl
      (omega arith) (config_of values) []
      (read_config-document layout layout-IsLayout decimal to_int values values-AreValues) after
      ready written written-Reach refl refl refl stamp opens

-- The message is with the loop.
abbrev taken : System
taken = worker (log_message hello (started after))

document-IsWritten_example : (k : ℕ) × IsWritten stamp opens 3 (hello ∷ []) (worker_steps k taken)
unfolding setup_with set_sink_filter set_attributes set_sink set_sink_formatter worker_in
    log_message pop_front push_back
document-IsWritten_example =
    document-IsWritten decimal to_int layout values 3 layout-IsLayout values-AreValues refl
      (omega arith) (config_of values) []
      (read_config-document layout layout-IsLayout decimal to_int values values-AreValues) after
      ready taken (next (next here (logs hello)) works) refl stamp opens
