-- ===== src/Logger/Output.antt =====
-- What a message writes to the console, to the log file and to the system log.
use ss_logger_cpp.Prelude.{ℕ, Bool, Bytes, codes, List, [], ◌∷◌, ◌++◌, ◌==◌, if◌then◌else◌}
use ss_logger_cpp.Logger.Message.{
  LogLevel, trace, debug, prod, warning, err, LogMessage, red, blue, cyan, reset_color,
}
use ss_logger_cpp.Logger.State.{Logger, Sink, passes, severity_to_output}

-- The `switch` of `LogToConsole`.
unfoldable pub color_of : LogLevel → Bytes
color_of prod = red
color_of warning = red
color_of err = red
color_of debug = blue
color_of trace = cyan

-- The text of the record that `LogToConsole` hands to the core.
unfoldable pub record_text : LogMessage → Bytes
unfolding color_of
record_text m =
    codes "- ["
    ++ (m.function_name ++ (codes "] " ++ (color_of m.log_level ++ (m.message ++ reset_color))))

-- The formatter of the sinks; `stamp` is the thread's identifier and the time.
unfoldable pub format : Bytes → ℕ → Bytes → Bytes
unfolding severity_to_output
format stamp filter text =
    stamp ++ (codes " [" ++ (severity_to_output filter ++ (codes "] " ++ text)))

-- One line for each registered sink whose filter lets the record pass, when the sink gets to it. The
-- default sink of the core, which takes the records when none is registered, is left out.
unfoldable pub emit : List Sink → LogLevel → Bytes → List Bytes
emit [] l line = []
emit (s ∷ ss) l line =
    let rest = emit ss l line in if passes s.threshold l then line ∷ rest else rest

-- `LogToConsole`.
unfoldable pub log_to_console : Bytes → Logger → LogMessage → List Bytes
log_to_console stamp lg m =
    emit lg.sinks m.log_level (format stamp lg.severity_filter (record_text m))

-- `LogToFile`: what is appended to the file of the calling thread, if it can be opened.
unfoldable pub log_to_file : Bool → Bytes → Logger → LogMessage → List Bytes
unfolding severity_to_output
log_to_file is_open stamp lg m =
    if is_open
    then (stamp
        ++ (codes " ["
            ++ (severity_to_output lg.severity_filter
                ++ (codes "] - ["
                    ++ (m.function_name ++ (codes "] " ++ (m.message ++ codes "\n")))))))
      ∷ []
    else []

-- The priorities of <syslog.h>.
abbrev pub log_err : ℕ
log_err = 3

abbrev pub log_warning : ℕ
log_warning = 4

abbrev pub log_info : ℕ
log_info = 6

abbrev pub log_debug : ℕ
log_debug = 7

-- The `switch` of `Syslog` on Linux.
unfoldable pub syslog_level : LogLevel → ℕ
syslog_level trace = log_info
syslog_level debug = log_debug
syslog_level prod = log_warning
syslog_level warning = log_warning
syslog_level err = log_err

-- The type of an event of the Windows event log, and the `switch` of `Syslog` on Windows.
pub data EventType : Type 0 where
  information_type warning_type error_type : EventType

unfoldable pub event_type : LogLevel → EventType
event_type trace = information_type
event_type debug = information_type
event_type prod = warning_type
event_type warning = warning_type
event_type err = error_type

-- What a reader of `c_str()` sees: the bytes in front of the first that is 0.
unfoldable pub c_str : Bytes → Bytes
c_str [] = []
c_str (c ∷ s) = let rest = c_str s in if c == 0 then [] else c ∷ rest

-- `Syslog` on Linux: the priority and the text. The name of a function has no byte 0.
unfoldable pub syslog : Logger → LogMessage → ℕ × Bytes
unfolding severity_to_output syslog_level c_str
syslog lg m = (
  syslog_level m.log_level,
  codes "[ "
      ++ (severity_to_output lg.severity_filter
          ++ (codes " ] - [ " ++ (m.function_name ++ (codes " ] " ++ c_str m.message)))),
)
