-- ===== src/Logger/Filter.antt =====
-- Which messages the filter set by `Setup` lets through, on each way out.
use ss_logger_cpp.Prelude.{
  ℕ, ◌+◌, ◌<◌, ◌≡◌, refl, ap, Bool, ◌||◌, Bytes, List, [], ◌∷◌, ◌++◌, Option, none, some, length,
  ◌==◌, leb, if◌then◌else◌, arith, pos,
}
use ss_logger_cpp.Logger.Message.{LogLevel, rank, LogMessage, to_filter}
use ss_logger_cpp.Config.Defs.{Logging}
use ss_logger_cpp.Logger.State.{
  Logger, Sink, passes, wanted, set_threshold, set_sink, set_sink_formatter, set_attributes,
  set_sink_filter, setup_with, setup, to_bool, filter_at,
}
use ss_logger_cpp.Logger.Output.{emit, format, record_text}

set_threshold-last :
    (ss : List Sink) (s : Sink) (t : LogLevel)
    → set_threshold (length ss) t (ss ++ s ∷ []) ≡ ss ++ record s { threshold = some t } ∷ []
unfolding set_threshold
set_threshold-last [] s t = refl
set_threshold-last (x ∷ ss) s t = ap (◌∷◌ x) (set_threshold-last ss s t)

abbrev pub new_sink : ℕ → Bool → Sink
new_sink filter flush = record { threshold = wanted filter; auto_flush = flush }

-- `setup` adds one sink, with the filter of the setting, and keeps those that are there.
pub setup_with-sinks :
    (filter : ℕ) (flush : Bool) (lg : Logger)
    → (setup_with filter flush lg).sinks ≡ lg.sinks ++ new_sink filter flush ∷ []
unfolding setup_with set_sink set_sink_formatter set_attributes set_sink_filter
setup_with-sinks filter flush lg = go (wanted filter)
  where
    go :
        (w : Option LogLevel)
        → filter_at
            (some (length lg.sinks))
            w
            (lg.sinks ++ record { threshold = none; auto_flush = flush } ∷ [])
          ≡ lg.sinks ++ record { threshold = w; auto_flush = flush } ∷ []
    go none = refl
    go (some t) = set_threshold-last lg.sinks _ t

pub setup_with-filter :
    (filter : ℕ) (flush : Bool) (lg : Logger)
    → (setup_with filter flush lg).severity_filter ≡ filter
unfolding setup_with set_sink set_sink_formatter set_attributes set_sink_filter
setup_with-filter filter flush lg = refl

-- The documented levels: 1 is production, warnings and errors, 2 adds debug, 3 adds trace. At 0
-- there is no filter.
abbrev pub shown : ℕ → LogLevel → Bool
shown n l = n == 0 || leb 3 (rank l + n)

passes-wanted : (n : ℕ) (l : LogLevel) → n < 4 → passes (wanted n) l ≡ shown n l
unfolding passes wanted
passes-wanted n LogLevel.trace h = ground arith
passes-wanted n _ h = ground arith

-- The line on the console for a message under a filter.
abbrev pub line_of : Bytes → ℕ → LogMessage → Bytes
line_of stamp n m = format stamp n (record_text m)

pub emit_one :
    (n : ℕ) (flush : Bool) (l : LogLevel) (line : Bytes)
    → n < 4
    → emit (new_sink n flush ∷ []) l line ≡ (if shown n l then line ∷ [] else [])
unfolding emit
emit_one n flush l line h = rw (passes-wanted n l h)

pub setup_lem :
    (config : Logging) (n : ℕ) (lg : Logger)
    → config.log_level ≡ pos n
    → n < 4
    → setup config lg ≡ some (setup_with n (to_bool config.flush) lg)
unfolding setup to_filter
setup_lem config n lg e h = ground arith
