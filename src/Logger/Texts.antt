-- ===== src/Logger/Texts.antt =====
-- The texts on the three outputs, written out apart from the functions that make them.
use ss_logger_cpp.Prelude.{
  ℕ, zero, suc, ◌+◌, ◌<◌, ◌≡◌, refl, arith, Bool, true, false, Bytes, codes, List, [], ◌∷◌, ◌++◌,
  if◌then◌else◌,
}
use ss_logger_cpp.Logger.Message.{LogMessage, LogLevel, trace, debug, prod, warning, err}
use ss_logger_cpp.Logger.State.{severity_to_output}
use ss_logger_cpp.Logger.Output.{color_of, syslog_level, c_str, format, record_text}
use ss_logger_cpp.Logger.Filter.{shown, line_of}

-- What a configured level asks for, written out. The names of the levels:
abbrev pub level_name : ℕ → Bytes
level_name (suc zero) = codes "Prod/Warning/Error"
level_name (suc (suc zero)) = codes "Debug"
level_name (suc (suc (suc zero))) = codes "Trace"
level_name _ = []

-- The levels that the console shows.
abbrev pub shows : ℕ → LogLevel → Bool
shows (suc zero) debug = false
shows (suc zero) trace = false
shows (suc (suc zero)) trace = false
shows _ _ = true

-- The escape sequences of bold blue, cyan and red.
abbrev pub color : LogLevel → Bytes
color debug = 27 ∷ codes "[1;34m"
color trace = 27 ∷ codes "[1;36m"
color _ = 27 ∷ codes "[1;31m"

-- LOG_INFO, LOG_DEBUG, LOG_ERR and LOG_WARNING.
abbrev pub priority : LogLevel → ℕ
priority trace = 6
priority debug = 7
priority err = 3
priority _ = 4

-- A text in front of its first byte 0.
pub before_zero : Bytes → Bytes
before_zero [] = []
before_zero (zero ∷ s) = []
before_zero (suc c ∷ s) = suc c ∷ before_zero s

module _ (stamp : ℕ → Bytes) (opens : ℕ → Bool) (n : ℕ) where
  abbrev pub line_text : ℕ → LogMessage → Bytes
  line_text k m =
      stamp k
      ++ (codes " ["
          ++ (level_name n
              ++ (codes "] "
                  ++ (codes "- ["
                      ++ (m.function_name
                          ++ (codes "] "
                              ++ (color m.log_level ++ (m.message ++ (27 ∷ codes "[0m")))))))))

  abbrev pub file_text : ℕ → LogMessage → Bytes
  file_text k m =
      stamp k
      ++ (codes " ["
          ++ (level_name n
              ++ (codes "] - [" ++ (m.function_name ++ (codes "] " ++ (m.message ++ codes "\n"))))))

  abbrev pub shown_lines : ℕ → List LogMessage → List Bytes
  shown_lines k [] = []
  shown_lines k (m ∷ ms) =
      let rest = shown_lines (k + 1) ms in
      if shows n m.log_level then line_text k m ∷ rest else rest

  abbrev pub appended_lines : ℕ → List LogMessage → List Bytes
  appended_lines k [] = []
  appended_lines k (m ∷ ms) =
      let rest = appended_lines (k + 1) ms in if opens k then file_text k m ∷ rest else rest

  abbrev pub sent_entries : List LogMessage → List (ℕ × Bytes)
  sent_entries [] = []
  sent_entries (m ∷ ms) =
      (
        priority m.log_level,
        codes "[ "
            ++ (level_name n
                ++ (codes " ] - [ "
                    ++ (m.function_name ++ (codes " ] " ++ before_zero m.message)))),
      )
      ∷ sent_entries ms

pub shown-shows : (n : ℕ) (l : LogLevel) → n < 4 → shown n l ≡ shows n l
shown-shows zero l h = refl
shown-shows (suc zero) trace h = refl
shown-shows (suc zero) debug h = refl
shown-shows (suc zero) prod h = refl
shown-shows (suc zero) warning h = refl
shown-shows (suc zero) err h = refl
shown-shows (suc (suc zero)) trace h = refl
shown-shows (suc (suc zero)) debug h = refl
shown-shows (suc (suc zero)) prod h = refl
shown-shows (suc (suc zero)) warning h = refl
shown-shows (suc (suc zero)) err h = refl
shown-shows (suc (suc (suc zero))) trace h = refl
shown-shows (suc (suc (suc zero))) debug h = refl
shown-shows (suc (suc (suc zero))) prod h = refl
shown-shows (suc (suc (suc zero))) warning h = refl
shown-shows (suc (suc (suc zero))) err h = refl
shown-shows (suc (suc (suc (suc n)))) l h = absurd (omega arith)

pub color_of-color : (l : LogLevel) → color_of l ≡ color l
unfolding color_of
color_of-color trace = refl
color_of-color debug = refl
color_of-color prod = refl
color_of-color warning = refl
color_of-color err = refl

pub syslog_level-priority : (l : LogLevel) → syslog_level l ≡ priority l
unfolding syslog_level
syslog_level-priority trace = refl
syslog_level-priority debug = refl
syslog_level-priority prod = refl
syslog_level-priority warning = refl
syslog_level-priority err = refl

pub c_str-before_zero : (s : Bytes) → c_str s ≡ before_zero s
unfolding c_str before_zero
c_str-before_zero [] = refl
c_str-before_zero (zero ∷ s) = refl
c_str-before_zero (suc c ∷ s) = ground (arith, c_str-before_zero s)

pub severity_to_output-level_name : (n : ℕ) → n < 4 → severity_to_output n ≡ level_name n
unfolding severity_to_output
severity_to_output-level_name zero h = refl
severity_to_output-level_name (suc zero) h = refl
severity_to_output-level_name (suc (suc zero)) h = refl
severity_to_output-level_name (suc (suc (suc zero))) h = refl
severity_to_output-level_name (suc (suc (suc (suc n)))) h = absurd (omega arith)

pub line_of-line_text :
    (stamp : ℕ → Bytes) (opens : ℕ → Bool) (n : ℕ)
    → n < 4
    → (k : ℕ) (m : LogMessage) → line_of (stamp k) n m ≡ line_text stamp opens n k m
unfolding format record_text
line_of-line_text stamp opens n small k m =
    rw (severity_to_output-level_name n small, color_of-color m.log_level) refl
