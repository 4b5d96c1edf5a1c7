-- ===== src/Logger/State.antt =====
-- The static members of `Logger` with the sinks of the Boost core, and the functions that set them.
use ss_logger_cpp.Prelude.{
  ℕ, zero, suc, ◌+◌, ℤ, pos, negsuc, Bool, true, false, Bytes, codes, List, [], ◌∷◌, ◌++◌, Option,
  none, some, length, ◌==◌, leb, if◌then◌else◌,
}
use ss_logger_cpp.Logger.Message.{
  LogLevel, trace, debug, prod, warning, err, rank, LogMessage, to_filter, no_logs,
  prod_warn_err_logs, debug_logs, trace_logs,
}
use ss_logger_cpp.Queue.Contents.{push_back}
use ss_logger_cpp.Config.Defs.{Logging}

-- An asynchronous text sink: the level that its filter wants at least, if it has a filter, and
-- `auto_flush` of its backend.
pub record Sink : Type 0 where
  pub threshold : Option LogLevel
  pub auto_flush : Bool

-- `expr::attr<LogLevel>("Severity") >= threshold`; a sink without a filter takes every record.
unfoldable pub passes : Option LogLevel → LogLevel → Bool
passes none l = true
passes (some t) l = leb (rank t) (rank l)

-- `sinks` are those of the core, in the order of their registration, and `sink_pointer` says which
-- of them `s_sink_pointer` points to. `queue_threads` counts the detached threads that `Setup` has
-- started.
pub record Logger : Type 0 where
  pub sinks : List Sink
  pub sink_pointer : Option ℕ
  pub has_formatter : Bool
  pub has_attributes : Bool
  pub severity_filter : ℕ
  pub flush : Bool
  pub is_running : Bool
  pub queue : List LogMessage
  pub queue_threads : ℕ

-- Before any call: the static members are zero or empty.
abbrev pub initial : Logger
initial = record {
  sinks = [];
  sink_pointer = none;
  has_formatter = false;
  has_attributes = false;
  severity_filter = 0;
  flush = false;
  is_running = false;
  queue = [];
  queue_threads = 0;
}

unfoldable pub set_sink_formatter : Logger → Logger
set_sink_formatter lg = record lg { has_formatter = true }

-- The result of `set_sink` is assigned to `s_sink_pointer` by its only caller.
unfoldable pub set_sink : Logger → Logger
set_sink lg = record lg {
  sinks = lg.sinks ++ record { threshold = none; auto_flush = lg.flush } ∷ [];
  sink_pointer = some (length lg.sinks);
}

unfoldable pub set_attributes : Logger → Logger
set_attributes lg = record lg { has_attributes = true }

-- `s_sink_pointer->set_filter(… >= t)`.
unfoldable pub set_threshold : ℕ → LogLevel → List Sink → List Sink
set_threshold i t [] = []
set_threshold zero t (s ∷ ss) = record s { threshold = some t } ∷ ss
set_threshold (suc i) t (s ∷ ss) = s ∷ set_threshold i t ss

-- The `switch` of `set_sink_filter`; `none` is its `default`, which sets no filter.
unfoldable pub wanted : ℕ → Option LogLevel
wanted filter =
    if filter == prod_warn_err_logs
    then some prod
    else if filter == debug_logs
    then some debug
    else if filter == trace_logs
    then some trace
    else none

abbrev pub filter_at : Option ℕ → Option LogLevel → List Sink → List Sink
filter_at (some i) (some t) ss = set_threshold i t ss
filter_at _ _ ss = ss

unfoldable pub set_sink_filter : Logger → Logger
unfolding wanted set_threshold
set_sink_filter lg = record lg {
  sinks = filter_at lg.sink_pointer (wanted lg.severity_filter) lg.sinks;
}

-- `static_cast<bool>` of an `int`.
abbrev pub to_bool : ℤ → Bool
to_bool (pos zero) = false
to_bool (pos (suc n)) = true
to_bool (negsuc n) = true

-- The lines of `Setup` behind the two conversions.
unfoldable pub setup_with : ℕ → Bool → Logger → Logger
setup_with filter flush lg =
    let lg : Logger = record lg { severity_filter = filter; flush = flush } in
    let lg = set_sink_formatter lg in
    let lg = set_sink lg in
    let lg = set_attributes lg in
    let lg = set_sink_filter lg in
    record lg { is_running = true; queue_threads = lg.queue_threads + 1 }

-- `Setup`; `none` is undefined behaviour.
unfoldable pub setup : Logging → Logger → Option Logger
setup config lg = elim (to_filter config.log_level) [
  | none ↦ none
  | some filter ↦ some (setup_with filter (to_bool config.flush) lg)
]

-- `Reset`. The queue is left as it is.
unfoldable pub reset : Logger → Logger
reset lg = record lg { is_running = false; sinks = []; sink_pointer = none }

-- `Log<log_level>`.
unfoldable pub log : LogLevel → Bytes → Bytes → Logger → Logger
unfolding push_back
log l message location lg = record lg {
  queue =
      push_back lg.queue (record { message = message; log_level = l; function_name = location });
}

unfoldable pub log_debug : Bytes → Bytes → Logger → Logger
log_debug = log debug

unfoldable pub log_trace : Bytes → Bytes → Logger → Logger
log_trace = log trace

unfoldable pub log_prod : Bytes → Bytes → Logger → Logger
log_prod = log prod

unfoldable pub log_warning : Bytes → Bytes → Logger → Logger
log_warning = log warning

unfoldable pub log_error : Bytes → Bytes → Logger → Logger
log_error = log err

-- `SeverityToOutput`.
unfoldable pub severity_to_output : ℕ → Bytes
severity_to_output filter =
    if filter == no_logs
    then []
    else if filter == prod_warn_err_logs
    then codes "Prod/Warning/Error"
    else if filter == debug_logs
    then codes "Debug"
    else if filter == trace_logs
    then codes "Trace"
    else []
