-- ===== src/Logger/Message.antt =====
-- `LogLevel`, `SeverityFilter`, `Colors` and `LogMessage`.
use ss_logger_cpp.Prelude.{
  ℕ, ℤ, pos, negsuc, Bytes, codes, ◌∷◌, Option, none, some, ltb, if◌then◌else◌,
}

-- `enum LogLevel`; `rank` is the value of the enumerator.
pub data LogLevel : Type 0 where
  trace debug prod warning err : LogLevel

abbrev pub rank : LogLevel → ℕ
rank trace = 0
rank debug = 1
rank prod = 2
rank warning = 3
rank err = 4

-- `enum SeverityFilter`.
abbrev pub no_logs : ℕ
no_logs = 0

abbrev pub prod_warn_err_logs : ℕ
prod_warn_err_logs = 1

abbrev pub debug_logs : ℕ
debug_logs = 2

abbrev pub trace_logs : ℕ
trace_logs = 3

-- `static_cast<SeverityFilter>` of an `int`: the type has no fixed underlying type, and to convert
-- a number outside the range of its values, 0 to 3, is undefined behaviour.
unfoldable pub to_filter : ℤ → Option ℕ
to_filter (pos n) = if ltb n 4 then some n else none
to_filter (negsuc n) = none

-- `Colors`; 27 is the escape character.
abbrev pub blue : Bytes
blue = 27 ∷ codes "[1;34m"

abbrev pub cyan : Bytes
cyan = 27 ∷ codes "[1;36m"

abbrev pub red : Bytes
red = 27 ∷ codes "[1;31m"

abbrev pub reset_color : Bytes
reset_color = 27 ∷ codes "[0m"

-- `LogMessage`; of the location only the function's name is read.
pub record LogMessage : Type 0 where
  pub message : Bytes
  pub log_level : LogLevel
  pub function_name : Bytes
